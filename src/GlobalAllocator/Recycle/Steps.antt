-- ===== src/GlobalAllocator/Recycle/Steps.antt =====
-- One line of the scan of a block in src/global_allocator.c, branch by branch.
use gc.Base.{
  ℕ, suc, ◌+◌, ◌-◌, ◌<◌, ◌≡◌, ◌≢◌, refl, Bool, true, false, ◌==◌, ==_iff, arith, Bool-cases, inl,
  inr, lt→ltb, ok, Run, ◌>>=◌,
}
use gc.LineHeader
use gc.Block.{line_count}
use gc.Block.Address.{IsBlock, line-ok}
use gc.GlobalAllocator.Recycle.{
  Scan, null, clear_line, close_hole, open_hole, scan_line, scan_lines, close_last,
}
use gc.GlobalAllocator.Recycle.Gaps.{line_at}

abbrev pub marked_at : Scan → ℕ → Bool
marked_at s i = LineHeader.is_marked (s.self.line_headers i)

abbrev pub cleared : Scan → ℕ → Scan
cleared s i = record s { self = clear_line s.self i }

-- The scan of the lines from one on, with what follows it.
abbrev pub finish : ℕ → ℕ → Scan → ℕ → Run Scan
finish fuel block s i = scan_lines fuel block s i >>= λ t. ok (close_last block t)

module _ (block : ℕ) (valid : IsBlock block) (s : Scan) (i : ℕ) (short : i < line_count) where
  pub finish-step :
      (fuel : ℕ) (t : Scan) (k : ℕ)
      → scan_line block s i ≡ ok (t, k)
      → finish (suc fuel) block s i ≡ finish fuel block t k
  unfolding scan_lines
  finish-step fuel t k e = rw (lt→ltb i line_count short, e) refl

  pub step_used : s.hole ≡ null → marked_at s i ≡ true → scan_line block s i ≡ ok (s, i + 1)
  unfolding scan_line
  step_used closed marked = simp (marked, closed) refl

  pub step_close :
      s.hole ≢ null
      → marked_at s i ≡ true
      → scan_line block s i ≡ ok (close_hole s (line_at block i), i + 1)
  unfolding scan_line
  step_close busy marked =
      let test : (s.hole == null) ≡ false = ground arith in
      simp (marked, test, line-ok valid i short) refl

  pub step_inside :
      s.hole ≢ null → marked_at s i ≡ false → scan_line block s i ≡ ok (cleared s i, i + 1)
  unfolding scan_line
  step_inside busy free =
      let test : (s.hole == null) ≡ false = ground arith in simp (free, test) refl

  pub step_last :
      marked_at s i ≡ false → i ≡ line_count - 1 → scan_line block s i ≡ ok (cleared s i, i + 1)
  unfolding scan_line
  step_last free last =
      let test : (i == line_count - 1) ≡ true = (==_iff i (line_count - 1)).1 last in
      elim (Bool-cases (s.hole == null)) [
        | inl closed ↦ simp (free, closed, test) refl
        | inr busy ↦ simp (free, busy) refl
      ]

  pub step_skip :
      s.hole ≡ null
      → marked_at s i ≡ false
      → i + 1 < line_count
      → marked_at (cleared s i) (i + 1) ≡ true
      → scan_line block s i ≡ ok (cleared s i, i + 1)
  unfolding scan_line
  step_skip closed free more next =
      let test : (i == line_count - 1) ≡ false = ground arith in
      simp (free, closed, test, next) refl

  pub step_open :
      s.hole ≡ null
      → marked_at s i ≡ false
      → i + 1 < line_count
      → marked_at (cleared s i) (i + 1) ≡ false
      → scan_line block s i ≡ ok (open_hole (cleared s i) (i + 1) (line_at block (i + 1)), i + 2)
  unfolding scan_line
  step_open closed free more next =
      let test : (i == line_count - 1) ≡ false = ground arith in
      simp (free, closed, test, next, line-ok valid (i + 1) more) refl
