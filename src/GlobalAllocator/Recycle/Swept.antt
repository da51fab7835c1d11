-- ===== src/GlobalAllocator/Recycle/Swept.antt =====
-- The whole scan of a block in src/global_allocator.c ends, and its holes are exactly the free lines.
use gc.Base.{
  ℕ, zero, suc, ◌+◌, ◌-◌, ◌≤◌, ◌<◌, ◌≡◌, ◌≢◌, refl, ap, ◌∙◌, Bool, false, arith, Bool-cases, inl,
  inr, ok, Returns, subst, ltb, ltb→lt,
}
use gc.Block.{line_count}
use gc.Block.Address.{IsBlock}
use gc.GlobalAllocator.Recycle.{
  Scan, null, close_hole, open_hole, scan_line, scan_lines, close_last,
}
use gc.GlobalAllocator.Recycle.Gaps.{line_at}
use gc.GlobalAllocator.Recycle.Steps.{
  cleared, finish, finish-step, step_used, step_close, step_inside, step_last, step_skip, step_open,
}
use gc.GlobalAllocator.Recycle.Scanned.{Closed, Opened, HasMarks, HasMarks-cleared}
use gc.GlobalAllocator.Recycle.Found.{
  Closed-end, Opened-end, Closed-used, Opened-close, Opened-inside, Closed-skip,
}
use gc.GlobalAllocator.Recycle.Opening.{Closed-open, opened, opened_hole, opened_empty}

finish-end :
    (fuel block : ℕ) (s : Scan) → finish (suc fuel) block s line_count ≡ ok (close_last block s)
unfolding scan_lines
finish-end fuel block s = refl

module _ (block : ℕ) (valid : IsBlock block) (marks : ℕ → Bool) where
  HasMarks-close :
      (s : Scan) (line : ℕ)
      → HasMarks block valid marks s
      → HasMarks block valid marks (close_hole s line)
  unfolding close_hole
  HasMarks-close s line has = has

  closed_fields :
      (s : Scan) (line : ℕ)
      → ((close_hole s line).hole ≡ null) × ((close_hole s line).previous_hole ≡ s.hole)
  unfolding close_hole
  closed_fields s line = (refl, refl)

  HasMarks-opened :
      (s : Scan) (i : ℕ) (below : s.previous_hole < line_at block i)
      → marks i ≡ false
      → marks (i + 1) ≡ false
      → HasMarks block valid marks s
      → HasMarks block valid marks (opened block valid marks s i below)
  unfolding open_hole
  HasMarks-opened s i below free free' has =
      HasMarks-cleared block valid marks (cleared s i) (i + 1)
        (HasMarks-cleared block valid marks s i has free) free'

  abbrev ClosedCase : ℕ → Type 0
  ClosedCase fuel =
      (s : Scan) (i : ℕ)
      → i ≤ line_count
      → line_count < fuel + i
      → HasMarks block valid marks s
      → s.hole ≡ null
      → s.previous_hole < line_at block i
      → Returns (finish fuel block s i) (Closed block valid marks s i)

  abbrev OpenedCase : ℕ → Type 0
  OpenedCase fuel =
      (s : Scan) (i : ℕ)
      → 1 ≤ i
      → i ≤ line_count
      → line_count < fuel + i
      → HasMarks block valid marks s
      → s.hole ≢ null
      → s.hole < line_at block i
      → (s.holes s.hole).limit ≡ null
      → marks (i - 1) ≡ false
      → Returns (finish fuel block s i) (Opened block valid marks s i)

  scan_free :
      (fuel : ℕ)
      → ClosedCase fuel
      → OpenedCase fuel
      → (s : Scan) (i : ℕ) → i < line_count
      → line_count < suc fuel + i
      → HasMarks block valid marks s
      → s.hole ≡ null
      → s.previous_hole < line_at block i
      → marks i ≡ false
      → Returns (finish (suc fuel) block s i) (Closed block valid marks s i)
  scan_free fuel closed_case opened_case s i short enough has closed below free =
      let has' = HasMarks-cleared block valid marks s i has free in
      let (s', run, r) =
        closed_case (cleared s i) (i + 1) (omega arith) (omega arith) has' closed (omega arith) in
      let skipped = λ (step : scan_line block s i ≡ ok (cleared s i, i + 1)).
        finish-step block valid s i short fuel (cleared s i) (i + 1) step ∙ run in
      elim (Bool-cases (ltb (i + 1) line_count)) [
        | inr last ↦ (
          s',
          skipped (step_last block valid s i short (has i ∙ free) (ground arith)),
          Closed-skip block valid marks s s' i free (λ lt. absurd (ground arith)) r,
        )
        | inl more ↦
            let next_short = ltb→lt (i + 1) line_count more in
            elim (Bool-cases (marks (i + 1))) [
              | inl used' ↦ (
                s',
                skipped (
                    step_skip block valid s i short closed (has i ∙ free) next_short
                      (has' (i + 1) ∙ used')),
                Closed-skip block valid marks s s' i free (λ lt. used') r,
              )
              | inr free' ↦
                  let t = opened block valid marks s i below in
                  let hole = opened_hole block valid marks s i below in
                  let (s2, run2, r2) =
                    opened_case t (i + 2) (omega arith) (omega arith) (omega arith)
                      (HasMarks-opened s i below free free' has) (λ e. absurd (omega (arith, hole)))
                      (omega (arith, hole)) (opened_empty block valid marks s i below)
                      (ap marks (omega arith) ∙ free') in
                  (
                    s2,
                    finish-step block valid s i short fuel t (i + 2) (
                          step_open block valid s i short closed (has i ∙ free) next_short
                            (has' (i + 1) ∙ free'))
                        ∙ run2,
                    Closed-open block valid marks s i below s2 next_short free free' r2,
                  )
            ]
      ]

  scan_closed : (fuel : ℕ) → ClosedCase fuel → OpenedCase fuel → ClosedCase (suc fuel)
  scan_closed fuel closed_case opened_case s i le enough has closed below =
      elim (Bool-cases (ltb i line_count)) [
        | inr end ↦
            let e : line_count ≡ i = ground arith in
            subst (λ k. Returns (finish (suc fuel) block s k) (Closed block valid marks s k)) e
              (close_last block s, finish-end fuel block s, Closed-end block valid marks s closed)
        | inl more ↦
            let short = ltb→lt i line_count more in
            elim (Bool-cases (marks i)) [
              | inl used ↦
                  let (s', run, r) =
                    closed_case s (i + 1) (omega arith) (omega arith) has closed (omega arith) in
                  (
                    s',
                    finish-step block valid s i short fuel s (i + 1)
                          (step_used block valid s i short closed (has i ∙ used))
                        ∙ run,
                    Closed-used block valid marks s s' i used r,
                  )
              | inr free ↦
                  scan_free fuel closed_case opened_case s i short enough has closed below free
            ]
      ]

  scan_opened : (fuel : ℕ) → ClosedCase fuel → OpenedCase fuel → OpenedCase (suc fuel)
  scan_opened fuel closed_case opened_case s i pos le enough has busy below fresh back_free =
      elim (Bool-cases (ltb i line_count)) [
        | inr end ↦
            let e : line_count ≡ i = ground arith in
            subst (λ k. Returns (finish (suc fuel) block s k) (Opened block valid marks s k)) e
              (
                close_last block s,
                finish-end fuel block s,
                Opened-end block valid marks s busy fresh,
              )
        | inl more ↦
            let short = ltb→lt i line_count more in
            elim (Bool-cases (marks i)) [
              | inl used ↦
                  let t = close_hole s (line_at block i) in
                  let fields = closed_fields s (line_at block i) in
                  let (s', run, r) =
                    closed_case t (i + 1) (omega arith) (omega arith)
                      (HasMarks-close s (line_at block i) has) fields.0 (omega (arith, fields.1)) in
                  (
                    s',
                    finish-step block valid s i short fuel t (i + 1)
                          (step_close block valid s i short busy (has i ∙ used))
                        ∙ run,
                    Opened-close block valid marks s s' i short below busy used r,
                  )
              | inr free ↦
                  let (s', run, r) =
                    opened_case (cleared s i) (i + 1) (omega arith) (omega arith) (omega arith)
                      (HasMarks-cleared block valid marks s i has free) busy (omega arith) fresh
                      (ap marks (omega arith) ∙ free) in
                  (
                    s',
                    finish-step block valid s i short fuel (cleared s i) (i + 1)
                          (step_inside block valid s i short busy (has i ∙ free))
                        ∙ run,
                    Opened-inside block valid marks s s' i pos short free back_free r,
                  )
            ]
      ]

  pub scan_lem : (fuel : ℕ) → ClosedCase fuel × OpenedCase fuel
  scan_lem zero = (
    λ s i le enough has closed below. absurd (omega arith),
    λ s i pos le enough has busy below fresh back_free. absurd (omega arith),
  )
  scan_lem (suc fuel) =
      let (closed_case, opened_case) = scan_lem fuel in
      (scan_closed fuel closed_case opened_case, scan_opened fuel closed_case opened_case)
