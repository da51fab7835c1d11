-- ===== src/Hash/Growth.antt =====
-- Insertion into the table of src/hash.c, with its growth when it is three quarters used.
use gc.Base.{
  word_mod, ◌%◌, ℕ, ◌+◌, ◌-◌, ◌*◌, ◌/◌, ◌^◌, ◌≤◌, ◌<◌, ◌≡◌, refl, inl, inr, true, false, arith,
  Bool-cases, leb, leb→le, add64, ok, Returns,
}
use native.Mathlib.Nat.{pow-le-pow_right}
use gc.Hash.{Hash, probe, vacant_or, allocate, lookup_for_insert, insert, insert_free, max_size}
use gc.Hash.Probe.{probe-hits}
use gc.Hash.Count.{stored_from, IsDistinct}
use gc.Hash.Insert.{IsTable, Inserted, insert-cases, write-Inserted}
use gc.Hash.Resize.{resize-Resized}

module _ (hash : ℕ → ℕ) (fuel : ℕ) (s : Hash) (key value : ℕ) where
  insert_free_room :
      (at : ℕ)
      → leb (s.mask - s.mask / 4) s.used ≡ false
      → probe fuel (vacant_or key) s.entries s.mask (hash key) 1 ≡ ok at
      → Returns (insert_free hash fuel s key value at) λ t. Inserted hash fuel s t key value
  unfolding insert_free allocate
  insert_free_room at room run =
      let added = allocate s.entries at key value in
      let grown = record s { entries = added; used = add64 s.used 1 } in
      (grown, rw room refl, write-Inserted run refl refl refl refl refl)

  insert_free_full :
      (at : ℕ)
      → leb (s.mask - s.mask / 4) s.used ≡ true
      → s.is_null ≡ false
      → IsDistinct s.entries
      → s.used * 2 ≤ max_size
      → stored_from s.entries 0 (s.mask + 1) < s.used * 2
      → max_size ≤ fuel
      → Returns (insert_free hash fuel s key value at) λ t. Inserted hash fuel s t key value
  unfolding insert_free allocate lookup_for_insert
  insert_free_full at full there distinct top fewer enough =
      let (t, grown, r) = resize-Resized hash fuel s (s.used * 2) there distinct top fewer enough in
      let (i, inside, empty) = r.vacant in
      let size_le : 2 ^ r.bits ≤ 2 ^ 63 = pow-le-pow_right (omega arith) r.small in
      let wide : s.used * 2 % word_mod ≡ s.used * 2 = omega arith in
      let (at', run, found) =
        probe-hits (vacant_or key) t.entries t.mask r.bits (hash key) r.small r.power fuel i inside
          (rw empty refl) (omega (arith, r.power)) in
      let added = record t { entries = allocate t.entries at' key value; used = add64 t.used 1 } in
      let inserted : Inserted hash fuel t added key value =
        write-Inserted run refl refl refl refl refl in
      (
        added,
        rw (full, wide, grown, run) refl,
        record {
          found = inserted.found;
          holds = inserted.holds;
          keeps = λ k v ne h. inserted.keeps k v ne (r.keeps k v h);
        },
      )

-- In a table whose capacity is a power of two from 2 to 2 ^ 63, with an entry that was never used
-- and no two entries in use of the same key, an insertion ends, whether the table has to grow or
-- not. A search for the key then gives the value, and every other key that a search finds keeps its
-- value. The count of used entries is no less than the number of those in use and at most 2 ^ 62;
-- the fuel is 2 ^ 63 or more.
pub insert-Inserted :
    (hash : ℕ → ℕ) (fuel : ℕ) (s : Hash) (key value : ℕ)
    → IsTable s
    → s.is_null ≡ false
    → IsDistinct s.entries
    → stored_from s.entries 0 (s.mask + 1) ≤ s.used
    → 0 < s.mask
    → s.used * 2 ≤ max_size
    → max_size ≤ fuel
    → Returns (insert hash fuel s key value) λ t. Inserted hash fuel s t key value
insert-Inserted hash fuel s key value w there distinct counted pos top enough =
    let size_le : 2 ^ w.bits ≤ 2 ^ 63 = pow-le-pow_right (omega arith) w.small in
    insert-cases hash fuel s key value w (omega (arith, w.power)) (λ at run.
      elim (Bool-cases (leb (s.mask - s.mask / 4) s.used)) [
        | inl full ↦
            let many = leb→le (s.mask - s.mask / 4) s.used full in
            insert_free_full hash fuel s key value at full there distinct top (omega arith) enough
        | inr room ↦ insert_free_room hash fuel s key value at room run
      ])
