-- ===== src/Hash/Sweep.antt =====
-- `GC_Hash_deleteIf` of src/hash.c: the walk over the table that asks a callback for every entry.
use gc.Base.{
  ℕ, zero, suc, ◌+◌, ◌/◌, ◌≤◌, ◌<◌, ◌≡◌, refl, sym, ◌∙◌, inl, inr, Bool, true, false, arith,
  Bool-cases, subst, word_mod, add64, add64-add, Returns,
}
use gc.Hash.{
  allocated, deleted, Entry, Hash, is_allocated, write, delete_if_loop, delete_if, clear_tombstones,
}
use gc.Hash.Insert.{write_ne, leb_lt}
use gc.Hash.Count.{stored_from, weight_cases}

stored_from-frame :
    (entries : ℕ → Entry) (at : ℕ) (e : Entry) (k n : ℕ)
    → at < k
    → stored_from (write entries at e) k n ≡ stored_from entries k n
stored_from-frame entries at e k zero h = refl
stored_from-frame entries at e k (suc n) h =
    rw
      (
        write_ne entries at e k (omega arith),
        stored_from-frame entries at e (k + 1) n (omega arith),
      )
      refl

module _ {ℓ} {S : Type ℓ} (callback : ℕ → ℕ → S → S × Bool) where
  -- The callback changes nothing of the state.
  abbrev pub IsQuiet : Type ℓ
  IsQuiet = (key value : ℕ) (s : S) → (callback key value s).0 ≡ s

  abbrev gone : Hash → ℕ → Hash
  gone t i = record t {
    entries = write t.entries i (record (t.entries i) { status = deleted });
    deleted = add64 t.deleted 1;
  }

  abbrev Quiet : ℕ → ℕ → Hash → S → S × Hash → Type ℓ
  Quiet n i t s r =
      (r.0 ≡ s) × (r.1.mask ≡ t.mask) × (r.1.deleted ≤ t.deleted + stored_from t.entries i n)

  module _ (n i : ℕ) (t : Hash) (s : S) where
    abbrev answer : S × Bool
    answer = callback ((t.entries i).key) ((t.entries i).value) s

    step_vacant :
        is_allocated (t.entries i).status ≡ false
        → delete_if_loop callback (suc n) i t s ≡ delete_if_loop callback n (i + 1) t s
    unfolding delete_if_loop
    step_vacant vacant = rw (vacant, delete_if_loop) refl

    step_gone :
        (t.entries i).status ≡ allocated
        → answer.1 ≡ true
        → delete_if_loop callback (suc n) i t s
          ≡ delete_if_loop callback n (i + 1) (gone t i) answer.0
    unfolding delete_if_loop
    step_gone set goes = rw (set, goes, delete_if_loop) refl

    step_kept :
        (t.entries i).status ≡ allocated
        → answer.1 ≡ false
        → delete_if_loop callback (suc n) i t s ≡ delete_if_loop callback n (i + 1) t answer.0
    unfolding delete_if_loop
    step_kept set stays = rw (set, stays, delete_if_loop) refl

  delete_if_loop-unchanged :
      IsQuiet
      → (n i : ℕ) (t : Hash) (s : S) → t.deleted + stored_from t.entries i n < word_mod
      → Quiet n i t s (delete_if_loop callback n i t s)
  unfolding delete_if_loop
  delete_if_loop-unchanged quiet zero i t s fits = (refl, refl, omega arith)
  delete_if_loop-unchanged quiet (suc n) i t s fits =
      let r = answer n i t s in
      let same : r.0 ≡ s = quiet ((t.entries i).key) ((t.entries i).value) s in
      elim (weight_cases (t.entries i)) [
        | inr (vacant, w) ↦
            let rest = delete_if_loop-unchanged quiet n (i + 1) t s (omega arith) in
            subst (Quiet (suc n) i t s) (sym (step_vacant n i t s vacant))
              (rest.0, rest.1, omega (arith, rest.2))
        | inl (set, w) ↦ elim (Bool-cases r.1) [
          | inr stays ↦
              let rest = delete_if_loop-unchanged quiet n (i + 1) t r.0 (omega arith) in
              subst (Quiet (suc n) i t s) (sym (step_kept n i t s set stays))
                (rest.0 ∙ same, rest.1, omega (arith, rest.2))
          | inl goes ↦
              let e = record (t.entries i) { status = deleted } in
              let frame = stored_from-frame t.entries i e (i + 1) n (omega arith) in
              let one = add64-add t.deleted 1 (omega arith) in
              let rest =
                delete_if_loop-unchanged quiet n (i + 1) (gone t i) r.0
                  (omega (arith, frame, one)) in
              subst (Quiet (suc n) i t s) (sym (step_gone n i t s set goes))
                (rest.0 ∙ same, rest.1, omega (arith, rest.2, frame, one))
        ]
      ]

  -- A walk with a callback that changes nothing of the state ends and leaves the state, if the
  -- entries in use and the tombstones are less than a quarter of the table.
  pub delete_if-unchanged :
      (hash : ℕ → ℕ) (fuel : ℕ) (t : Hash) (s : S)
      → IsQuiet
      → t.deleted + stored_from t.entries 0 (t.mask + 1) < (t.mask + 1) / 4
      → t.mask < word_mod
      → Returns (delete_if hash fuel callback t s) λ r. r.0 ≡ s
  unfolding delete_if clear_tombstones
  delete_if-unchanged hash fuel t s quiet few fits =
      let r = delete_if_loop callback (t.mask + 1) 0 t s in
      let (same, mask, bound) = delete_if_loop-unchanged quiet (t.mask + 1) 0 t s (omega arith) in
      (
        (r.0, r.1),
        rw (leb_lt ((r.1.mask + 1) / 4) r.1.deleted (omega (arith, mask, bound))) refl,
        same,
      )
