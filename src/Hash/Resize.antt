-- ===== src/Hash/Resize.antt =====
-- The resizing of the table of src/hash.c: what is stored stays stored.
use gc.Base.{
  differ, ℕ, zero, suc, ◌+◌, ◌-◌, ◌^◌, ◌≤◌, ◌<◌, ◌≡◌, ◌≢◌, refl, sym, ap, subst, ◌∙◌, inl, inr,
  false, arith, Bool-cases, ltb, ltb→lt, le→ltb, ◌==◌, ==_iff, word_mod, sub64-sub, ok, Returns,
}
use native.Mathlib.Nat.{pow-suc, pow-le-pow_right}
use gc.Hash.{
  allocated, Entry, Hash, zeroed, is_allocated, free_or, vacant_or, write, allocate,
  lookup_for_insert, grow_capacity, rehash, resize, max_size, min_size,
}
use gc.Hash.Probe.{probe-hits, probe-le}
use gc.Hash.Insert.{Holds, Placed, Placed-Holds, Placed-keeps, write_self, write_ne}
use gc.Hash.Count.{stored_from, IsDistinct, weight_cases, vacancy, count, count-write, count-zeroed}

-- The new table as the loop fills it.
abbrev filled : (ℕ → Entry) → ℕ → Hash
filled entries mask = record {
  is_null = false;
  entries = entries;
  mask = mask;
  used = 0;
  deleted = 0;
}

fresh : Entry → Entry
fresh e = record { status = allocated; key = e.key; value = e.value }

module _ (hash : ℕ → ℕ) (fuel mask k : ℕ) (small : k ≤ 63) (power : mask + 1 ≡ 2 ^ k)
    (enough : mask < fuel) (old : ℕ → Entry) (distinct : IsDistinct old) where
  -- The entries in use in front of an index are stored in the new table.
  abbrev Moved : (ℕ → Entry) → ℕ → Type 0
  Moved entries n =
      (i : ℕ)
      → i < n
      → (old i).status ≡ allocated
      → Holds hash fuel (filled entries mask) (old i).key (old i).value

  move_lem :
      (entries : ℕ → Entry) (e : ℕ)
      → count entries (mask + 1) < mask + 1
      → (old e).status ≡ allocated
      → Moved entries e
      → Returns (lookup_for_insert fuel entries mask (old e).key (hash (old e).key)) λ at.
        Moved (allocate entries at (old e).key (old e).value) (e + 1)
        × (count (allocate entries at (old e).key (old e).value) (mask + 1)
            ≤ count entries (mask + 1) + 1)
  unfolding lookup_for_insert allocate fresh
  move_lem entries e room set moved =
      let key = (old e).key in
      let (i, below, vacant) = vacancy entries (mask + 1) room in
      let (at, run, (inside, good)) =
        probe-hits (vacant_or key) entries mask k (hash key) small power fuel i (omega arith)
          (rw vacant refl) enough in
      let placed : Placed hash fuel (filled entries mask)
          (filled (write entries at (fresh (old e))) mask) key at (fresh (old e)) =
        record {
          same_mask = refl;
          placed = write_self entries at (fresh (old e));
          others = λ n ne. write_ne entries at (fresh (old e)) n ne;
          is_set = refl;
          is_key = refl;
          run = run;
        } in
      (
        at,
        run,
        (
          λ j in_front set'. elim (Bool-cases (j == e)) [
            | inl same ↦
                let is = (==_iff j e).0 same in
                subst
                  (λ x.
                    Holds hash fuel (filled (write entries at (fresh (old e))) mask) (old x).key
                      (old x).value)
                  (sym is) (Placed-Holds placed)
            | inr other ↦
                let ne : j ≢ e = λ same. differ (sym ((==_iff j e).1 same) ∙ other) in
                Placed-keeps placed (old j).key (old j).value (distinct j e ne set' set)
                  (moved j (omega arith) set')
          ],
          count-write entries at (fresh (old e)) (mask + 1),
        ),
      )

  skip_lem :
      (entries : ℕ → Entry) (e : ℕ)
      → is_allocated (old e).status ≡ false
      → Moved entries e
      → Moved entries (e + 1)
  skip_lem entries e vacant moved i h set = elim (Bool-cases (i == e)) [
    | inl same ↦
        let is = (==_iff i e).0 same in
        absurd (differ (sym (ap is_allocated (ap (λ x. (old x).status) (sym is) ∙ set)) ∙ vacant))
    | inr other ↦ moved i (ground arith) set
  ]

  rehash-Moved :
      (n e used : ℕ) (entries : ℕ → Entry)
      → count entries (mask + 1) + stored_from old e n < mask + 1
      → Moved entries e
      → Returns (rehash hash fuel n old e entries mask used) λ r.
        Moved (r.0) (e + n)
        × (r.1 ≡ used + stored_from old e n)
        × (count (r.0) (mask + 1) ≤ count entries (mask + 1) + stored_from old e n)
  unfolding rehash
  rehash-Moved zero e used entries room moved =
      ((entries, used), refl, (λ i h. moved i (omega arith), omega arith, omega arith))
  rehash-Moved (suc n) e used entries room moved = elim (weight_cases (old e)) [
    | inl (set, w) ↦
        let (at, run, (moved', fewer)) = move_lem entries e (omega arith) set moved in
        let placed = allocate entries at (old e).key (old e).value in
        let (r, run', (all, used', few)) =
          rehash-Moved n (e + 1) (used + 1) placed (omega arith) moved' in
        (r, rw (set, run) run', (λ i h. all i (omega arith), omega arith, omega arith))
    | inr (vacant, w) ↦
        let (r, run', (all, used', few)) =
          rehash-Moved n (e + 1) used entries (omega arith) (skip_lem entries e vacant moved) in
        (r, rw vacant run', (λ i h. all i (omega arith), omega arith, omega arith))
  ]

last_power : (j capacity : ℕ) → 2 ^ j < capacity → capacity ≤ max_size → j < 63
last_power j capacity below top = elim (Bool-cases (ltb j 63)) [
  | inl small ↦ ltb→lt j 63 small
  | inr large ↦
      let lo : 63 ≤ j = ground arith in
      let grows : 2 ^ 63 ≤ 2 ^ j = pow-le-pow_right (omega arith) lo in absurd (omega arith)
]

grow_capacity-power :
    (fuel j capacity : ℕ)
    → j ≤ 63
    → 63 < j + fuel
    → capacity ≤ max_size
    → Returns
        (grow_capacity fuel (2 ^ j) capacity)
        λ n. (k : ℕ) × (k ≤ 63) × (n ≡ 2 ^ k) × (capacity ≤ n) × (2 ^ j ≤ n)
unfolding grow_capacity
grow_capacity-power zero j capacity hi enough top = absurd (omega arith)
grow_capacity-power (suc fuel) j capacity hi enough top = elim (Bool-cases (ltb (2 ^ j) capacity)) [
  | inl more ↦
      let below : 2 ^ j < capacity = ltb→lt (2 ^ j) capacity more in
      let not_last : j < 63 = last_power j capacity below top in
      let (n, run, (k, small, is, reaches, grows)) =
        grow_capacity-power fuel (suc j) capacity not_last (omega arith) top in
      let twice = pow-suc 2 j in (n, rw (more, sym twice) run, (k, small, is, reaches, omega arith))
  | inr done ↦ (2 ^ j, rw done refl, (j, hi, refl, ground arith, omega arith))
]

-- What a resizing owes: a capacity of a power of two that is large enough, every stored key with its
-- value, no tombstone, the number of the entries in use, and an entry that is not in use.
pub record Resized (hash : ℕ → ℕ) (fuel : ℕ) (s : Hash) (capacity : ℕ) (t : Hash) : Type 0 where
  pub bits : ℕ
  pub small : bits ≤ 63
  pub power : t.mask + 1 ≡ 2 ^ bits
  pub reaches : capacity ≤ t.mask + 1
  pub keeps : (key value : ℕ) → Holds hash fuel s key value → Holds hash fuel t key value
  pub counts : t.used ≡ stored_from s.entries 0 (s.mask + 1)
  pub clean : t.deleted ≡ 0
  pub vacant : (i : ℕ) × (i ≤ t.mask) × (is_allocated (t.entries i).status ≡ false)

resize_run :
    (hash : ℕ → ℕ) (fuel : ℕ) (s : Hash) (capacity n : ℕ) (r : (ℕ → Entry) × ℕ)
    → s.is_null ≡ false
    → capacity ≤ max_size
    → grow_capacity 64 min_size capacity ≡ ok n
    → rehash hash fuel (s.mask + 1) s.entries 0 zeroed (n - 1) 0 ≡ ok r
    → 1 ≤ n
    → n < word_mod
    → resize hash fuel s capacity
      ≡ ok (record { is_null = false; entries = r.0; mask = n - 1; used = r.1; deleted = 0 })
unfolding resize
resize_run hash fuel s capacity n r there top grown run pos fits =
    rw (le→ltb capacity max_size top, grown, sub64-sub n 1 pos fits, run, there) refl

from_filled :
    {hash : ℕ → ℕ} {fuel : ℕ} {t : Hash} (key value : ℕ)
    → Holds hash fuel (filled t.entries t.mask) key value
    → Holds hash fuel t key value
from_filled key value h = record {
  at = h.at;
  stops = h.stops;
  is_set = h.is_set;
  is_key = h.is_key;
  is_value = h.is_value;
}

-- Resizing a table that has its entries, in which no two entries in use have the same key, to a
-- capacity above their number and up to 2 ^ 63, ends. The new capacity is a power of two and no
-- less than asked for, every key that a search found keeps its value, the count of used entries is
-- the number of those in use, and there is no tombstone. The fuel is 2 ^ 63 or more.
pub resize-Resized :
    (hash : ℕ → ℕ) (fuel : ℕ) (s : Hash) (capacity : ℕ)
    → s.is_null ≡ false
    → IsDistinct s.entries
    → capacity ≤ max_size
    → stored_from s.entries 0 (s.mask + 1) < capacity
    → max_size ≤ fuel
    → Returns (resize hash fuel s capacity) (Resized hash fuel s capacity)
resize-Resized hash fuel s capacity there distinct top room enough =
    let (n, grown, (k, small, is, reaches, least)) =
      grow_capacity-power 64 3 capacity (omega arith) (omega arith) top in
    let size_le : 2 ^ k ≤ 2 ^ 63 = pow-le-pow_right (omega arith) small in
    let mask = n - 1 in
    let (r, run, (moved, used, few)) =
      rehash-Moved hash fuel mask k small (omega arith) (omega arith) s.entries distinct
        (s.mask + 1) 0 0 zeroed (omega (arith, count-zeroed (mask + 1)))
        (λ i h. absurd (omega arith)) in
    let t : Hash = record {
      is_null = false;
      entries = r.0;
      mask = mask;
      used = r.1;
      deleted = 0;
    } in
    (
      t,
      resize_run hash fuel s capacity n r there top grown run (omega arith) (omega arith),
      record {
        bits = k;
        small = small;
        power = omega arith;
        reaches = omega arith;
        keeps = λ key value h.
            let inside = probe-le fuel (free_or key) s.entries s.mask (hash key) 1 h.at h.stops in
            let at_key = moved h.at (omega arith) h.is_set in
            from_filled {t = t} key value (
              subst (λ v. Holds hash fuel (filled t.entries mask) key v) h.is_value
                (subst (λ k. Holds hash fuel (filled t.entries mask) k (s.entries h.at).value)
                  h.is_key at_key));
        counts = omega arith;
        clean = refl;
        vacant =
            let (i, below, empty) =
              vacancy r.0 (mask + 1) (omega (arith, count-zeroed (mask + 1))) in
            (i, omega arith, empty);
      },
    )
