-- ===== src/Hash/Delete.antt =====
-- Deletion from the table of src/hash.c.
use gc.Base.{
  differ, ℕ, ◌+◌, ◌/◌, ◌<◌, ◌≡◌, ◌≢◌, refl, sym, ap, ◌∙◌, inl, inr, Bool, true, false, ◌||◌,
  Bool-cases, ◌==◌, ==_iff, word_mod, add64-add, ok, Returns,
}
use gc.Hash.{deleted, Entry, Hash, is_free, free_or, write, null, search, delete, clear_tombstones}
use gc.Hash.Probe.{probe-transfer}
use gc.Hash.Insert.{Holds, own-free, write_self, write_ne, leb_lt}

abbrev buried : Entry → Entry
buried e = record e { status = deleted }

or_right : (x y : Bool) → (x || y) ≡ false → y ≡ false
or_right true y h = cc
or_right false y h = h

-- A tombstone stops the search for its own key, and no other.
buried-own : (key : ℕ) (e : Entry) → e.key ≡ key → free_or key (buried e) ≡ true
buried-own key e own = (==_iff e.key key).1 own

buried-miss : (key : ℕ) (e : Entry) → free_or key e ≡ false → free_or key (buried e) ≡ false
buried-miss key e miss = or_right (is_free e.status) (e.key == key) miss

abbrev buried_in : Hash → ℕ → Hash
buried_in s at = record s {
  entries = write s.entries at (buried (s.entries at));
  deleted = s.deleted + 1;
}

module _ {hash : ℕ → ℕ} {fuel : ℕ} (s : Hash) (key value : ℕ)
    (h : Holds hash fuel s key value) where
  rejects :
      (k n : ℕ) → free_or k (s.entries n) ≡ false → free_or k ((buried_in s h.at).entries n) ≡ false
  rejects k n miss = elim (Bool-cases (n == h.at)) [
    | inl same ↦
        let e = (==_iff n h.at).0 same in
        rw (ap (buried_in s h.at).entries e ∙ write_self s.entries h.at (buried (s.entries h.at)))
          (buried-miss k (s.entries h.at) (ap (λ x. free_or k (s.entries x)) (sym e) ∙ miss))
    | inr apart ↦
        rw
          (write_ne s.entries h.at (buried (s.entries h.at)) n
            (λ same. differ (sym ((==_iff n h.at).1 same) ∙ apart)))
          miss
  ]

  buried-search : search hash fuel (buried_in s h.at) key ≡ ok null
  unfolding search
  buried-search =
      let there = write_self s.entries h.at (buried (s.entries h.at)) in
      let stops =
        probe-transfer fuel (free_or key) (free_or key) s.entries ((buried_in s h.at).entries)
          s.mask (hash key) 1 h.at h.stops (rejects key)
          (rw there (buried-own key (s.entries h.at) h.is_key)) in
      rw (stops, ap (λ x. x.status) there) refl

  buried-keeps :
      (k v : ℕ) → k ≢ key → Holds hash fuel s k v → Holds hash fuel (buried_in s h.at) k v
  buried-keeps k v ne g =
      let apart : g.at ≢ h.at =
        λ same. ne (sym g.is_key ∙ ap (λ x. (s.entries x).key) same ∙ h.is_key) in
      let same = write_ne s.entries h.at (buried (s.entries h.at)) g.at apart in
      record {
        at = g.at;
        stops =
            probe-transfer fuel (free_or k) (free_or k) s.entries ((buried_in s h.at).entries)
              s.mask (hash k) 1 g.at g.stops (rejects k)
              (rw same (own-free k (s.entries g.at) g.is_set g.is_key));
        is_set = ap (λ x. x.status) same ∙ g.is_set;
        is_key = ap (λ x. x.key) same ∙ g.is_key;
        is_value = ap (λ x. x.value) same ∙ g.is_value;
      }

-- What a deletion owes: the value that was there, a search that finds nothing any more, and every other
-- stored key with its value.
pub record Deleted (hash : ℕ → ℕ) (fuel : ℕ) (s : Hash) (key value : ℕ) (r : Hash × ℕ)
    : Type 0 where
  pub gives : r.1 ≡ value
  pub gone : search hash fuel (r.0) key ≡ ok null
  pub keeps : (k v : ℕ) → k ≢ key → Holds hash fuel s k v → Holds hash fuel (r.0) k v

-- The deletion of a key that a search finds gives its value; a search for the key then gives NULL,
-- and every other key that a search finds keeps its value. The tombstones, with the new one, are
-- fewer than a quarter of the table.
pub delete-Deleted :
    (hash : ℕ → ℕ) (fuel : ℕ) (s : Hash) (key value : ℕ)
    → Holds hash fuel s key value
    → s.deleted + 1 < (s.mask + 1) / 4
    → s.deleted + 1 < word_mod
    → Returns (delete hash fuel s key) (Deleted hash fuel s key value)
unfolding delete clear_tombstones
delete-Deleted hash fuel s key value h few fits = (
  (buried_in s h.at, (s.entries h.at).value),
  rw (h.stops, h.is_set, add64-add s.deleted 1 fits, leb_lt ((s.mask + 1) / 4) (s.deleted + 1) few)
      refl,
  record {
    gives = h.is_value;
    gone = buried-search s key value h;
    keeps = buried-keeps s key value h;
  },
)
