-- ===== src/Hash/Insert.antt =====
-- Insertion into the table of src/hash.c, and what a search finds behind it.
use gc.Base.{
  differ, ℕ, ◌+◌, ◌^◌, ◌≤◌, ◌<◌, ◌≡◌, ◌≢◌, refl, sym, ap, subst, ◌∙◌, ◌⊎◌, inl, inr, Bool, true,
  false, arith, not, ◌||◌, Bool-cases, leb, ◌==◌, ==_iff, sub64, Run, ok, Returns,
}
use gc.Hash.{
  Status, free, allocated, deleted, Entry, Hash, is_allocated, is_free, probe, vacant_or, free_or,
  write, allocate, lookup_for_insert, insert, insert_free, search,
}
use gc.Hash.Probe.{probe-hits, probe-accepts, probe-transfer}

-- A table whose capacity is a power of two, with an entry that was never used.
pub record IsTable (s : Hash) : Type 0 where
  pub bits : ℕ
  pub small : bits ≤ 63
  pub power : s.mask + 1 ≡ 2 ^ bits
  pub spare : ℕ
  pub inside : spare ≤ s.mask
  pub is_spare : (s.entries spare).status ≡ free

-- The value is stored under the key, where the search for the key stops.
pub record Holds (hash : ℕ → ℕ) (fuel : ℕ) (s : Hash) (key value : ℕ) : Type 0 where
  pub at : ℕ
  pub stops : probe fuel (free_or key) s.entries s.mask (hash key) 1 ≡ ok at
  pub is_set : (s.entries at).status ≡ allocated
  pub is_key : (s.entries at).key ≡ key
  pub is_value : (s.entries at).value ≡ value

vacant-free_status :
    (s : Status) (q : Bool) → (not (is_allocated s) || q) ≡ false → (is_free s || q) ≡ false
vacant-free_status free q h = cc
vacant-free_status allocated q h = h
vacant-free_status deleted q h = cc

vacant-free : (key : ℕ) (e : Entry) → vacant_or key e ≡ false → free_or key e ≡ false
vacant-free key e h = vacant-free_status e.status (e.key == key) h

status_cases : (s : Status) → (s ≡ allocated) ⊎ ((s ≡ free) ⊎ (s ≡ deleted))
status_cases free = inr (inl refl)
status_cases allocated = inl refl
status_cases deleted = inr (inr refl)

pub ==_ne : (a b : ℕ) → a ≢ b → (a == b) ≡ false
==_ne a b h = ground arith

-- An entry in use for another key stops neither probe.
other-vacant : (key : ℕ) (e : Entry) → e.status ≡ allocated → e.key ≢ key → vacant_or key e ≡ false
other-vacant key e h ne = rw (h, ==_ne e.key key ne) refl

pub other-free : (key : ℕ) (e : Entry) → e.status ≡ allocated → e.key ≢ key → free_or key e ≡ false
other-free key e h ne = rw (h, ==_ne e.key key ne) refl

pub own-free : (key : ℕ) (e : Entry) → e.status ≡ allocated → e.key ≡ key → free_or key e ≡ true
own-free key e h same = rw (h, (==_iff e.key key).1 same) refl

pub write_self : (entries : ℕ → Entry) (at : ℕ) (e : Entry) → write entries at e at ≡ e
unfolding write
write_self entries at e = ground arith

pub write_ne :
    (entries : ℕ → Entry) (at : ℕ) (e : Entry) (n : ℕ) → n ≢ at → write entries at e n ≡ entries n
unfolding write
write_ne entries at e n h = ground arith

-- The table `t` is `s` with `e` in place of the entry where the probe of an insertion stopped.
pub record Placed (hash : ℕ → ℕ) (fuel : ℕ) (s t : Hash) (key at : ℕ) (e : Entry) : Type 0 where
  pub same_mask : t.mask ≡ s.mask
  pub placed : t.entries at ≡ e
  pub others : (n : ℕ) → n ≢ at → t.entries n ≡ s.entries n
  pub is_set : e.status ≡ allocated
  pub is_key : e.key ≡ key
  pub run : probe fuel (vacant_or key) s.entries s.mask (hash key) 1 ≡ ok at

module _ {hash : ℕ → ℕ} {fuel : ℕ} {s t : Hash} {key at : ℕ} {e : Entry}
    (p : Placed hash fuel s t key at e) where
  at-vacant : vacant_or key (s.entries at) ≡ true
  at-vacant = probe-accepts fuel (vacant_or key) s.entries s.mask (hash key) 1 at p.run

  pub Placed-Holds : Holds hash fuel t key e.value
  Placed-Holds =
      let rejects : (n : ℕ)
          → vacant_or key (s.entries n) ≡ false
          → free_or key (t.entries n) ≡ false =
        λ n h.
          rw
            (p.others n (λ same.
              differ (sym at-vacant ∙ ap (λ x. vacant_or key (s.entries x)) (sym same) ∙ h)))
            (vacant-free key (s.entries n) h) in
      record {
        at = at;
        stops = rw (p.same_mask) (
            probe-transfer fuel (vacant_or key) (free_or key) s.entries t.entries s.mask (hash key)
              1 at p.run rejects (rw (p.placed) (own-free key e p.is_set p.is_key)));
        is_set = ap (λ x. x.status) p.placed ∙ p.is_set;
        is_key = ap (λ x. x.key) p.placed ∙ p.is_key;
        is_value = ap (λ x. x.value) p.placed;
      }

  pub Placed-keeps :
      (key' value' : ℕ) → key' ≢ key → Holds hash fuel s key' value' → Holds hash fuel t key' value'
  Placed-keeps key' value' ne h =
      let apart : h.at ≢ at = λ same. differ (
        sym at-vacant
        ∙ ap (λ x. vacant_or key (s.entries x)) (sym same)
        ∙ other-vacant key (s.entries h.at) h.is_set (λ q. ne (sym h.is_key ∙ q))) in
      let same_entry = p.others h.at apart in
      let rejects : (n : ℕ)
          → free_or key' (s.entries n) ≡ false
          → free_or key' (t.entries n) ≡ false =
        λ n miss. elim (Bool-cases (n == at)) [
          | inl q ↦
              rw (ap t.entries ((==_iff n at).0 q) ∙ p.placed)
                (other-free key' e p.is_set (λ q. ne (sym q ∙ p.is_key)))
          | inr q ↦ rw (p.others n (λ same. differ (sym ((==_iff n at).1 same) ∙ q))) miss
        ] in
      record {
        at = h.at;
        stops = rw (p.same_mask) (
            probe-transfer fuel (free_or key') (free_or key') s.entries t.entries s.mask (hash key')
              1 h.at h.stops rejects
              (rw same_entry (own-free key' (s.entries h.at) h.is_set h.is_key)));
        is_set = ap (λ x. x.status) same_entry ∙ h.is_set;
        is_key = ap (λ x. x.key) same_entry ∙ h.is_key;
        is_value = ap (λ x. x.value) same_entry ∙ h.is_value;
      }

pub Holds-search :
    (hash : ℕ → ℕ) (fuel : ℕ) (s : Hash) (key value : ℕ)
    → Holds hash fuel s key value
    → search hash fuel s key ≡ ok value
unfolding search
Holds-search hash fuel s key value h = rw (h.stops, h.is_set, h.is_value) refl

-- What an insertion owes: a search finds the value, and every other stored key keeps its own.
pub record Inserted (hash : ℕ → ℕ) (fuel : ℕ) (s t : Hash) (key value : ℕ) : Type 0 where
  pub found : search hash fuel t key ≡ ok value
  pub holds : Holds hash fuel t key value
  pub keeps : (k v : ℕ) → k ≢ key → Holds hash fuel s k v → Holds hash fuel t k v

module _ {hash : ℕ → ℕ} {fuel : ℕ} where
  Placed-Inserted :
      {s t : Hash} {key at : ℕ} {e : Entry} (value : ℕ)
      → e.value ≡ value
      → Placed hash fuel s t key at e
      → Inserted hash fuel s t key value
  Placed-Inserted {s} {t} {key} value is p =
      let holds = subst (Holds hash fuel t key) is (Placed-Holds p) in
      record {
        found = Holds-search hash fuel t key value holds;
        holds = holds;
        keeps = Placed-keeps p;
      }

  pub write-Inserted :
      {s t : Hash} {key at : ℕ} {e : Entry} {value : ℕ}
      → probe fuel (vacant_or key) s.entries s.mask (hash key) 1 ≡ ok at
      → t.entries ≡ write s.entries at e
      → t.mask ≡ s.mask
      → e.status ≡ allocated
      → e.key ≡ key
      → e.value ≡ value
      → Inserted hash fuel s t key value
  write-Inserted {s} {t} {key} {at} {e} {value} run written mask set own is =
      Placed-Inserted value is (record {
        same_mask = mask;
        placed = ap (λ f. f at) written ∙ write_self s.entries at e;
        others = λ n ne. ap (λ f. f n) written ∙ write_ne s.entries at e n ne;
        is_set = set;
        is_key = own;
        run = run;
      })

pub leb_lt : (a b : ℕ) → b < a → leb a b ≡ false
leb_lt a b h = ground arith

vacant-own : (key : ℕ) (e : Entry) → vacant_or key e ≡ true → e.status ≡ allocated → e.key ≡ key
vacant-own key e h set = (==_iff e.key key).0 (rw set at h)

-- An insertion, given what it comes to at an entry that was never used.
pub insert-cases :
    (hash : ℕ → ℕ) (fuel : ℕ) (s : Hash) (key value : ℕ)
    → IsTable s
    → s.mask < fuel
    → ((at : ℕ)
        → probe fuel (vacant_or key) s.entries s.mask (hash key) 1 ≡ ok at
        → Returns (insert_free hash fuel s key value at) λ t. Inserted hash fuel s t key value)
    → Returns (insert hash fuel s key value) λ t. Inserted hash fuel s t key value
unfolding insert lookup_for_insert allocate
insert-cases hash fuel s key value w enough unused =
    let (at, run, (inside, good)) =
      probe-hits (vacant_or key) s.entries s.mask w.bits (hash key) w.small w.power fuel w.spare
        w.inside (rw (w.is_spare) refl) enough in
    let e = s.entries at in
    let replaced = record s { entries = write s.entries at (record e { value = value }) } in
    let added = allocate s.entries at key value in
    let reused = record s { entries = added; deleted = sub64 s.deleted 1 } in
    let branch : Status → Run Hash = λ status. elim status [
      | allocated ↦ ok replaced
      | free ↦ insert_free hash fuel s key value at
      | deleted ↦ ok reused
    ] in
    elim (status_cases e.status) [
      | inl is ↦ (
        replaced,
        rw run (ap branch is),
        write-Inserted run refl refl is (vacant-own key e good is) refl,
      )
      | inr (inl is) ↦
          let (t, run', inserted) = unused at run in (t, rw run (ap branch is ∙ run'), inserted)
      | inr (inr is) ↦ (reused, rw (run, is) refl, write-Inserted run refl refl refl refl refl)
    ]
