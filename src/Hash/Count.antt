-- ===== src/Hash/Count.antt =====
-- How many entries of the table of src/hash.c are in use.
use gc.Base.{
  differ, ℕ, zero, suc, ◌+◌, ◌≤◌, ◌<◌, ◌≡◌, ◌≢◌, refl, sym, ◌∙◌, ◌⊎◌, inl, inr, false, arith,
  Bool-cases, ◌==◌, ==_iff, if◌then◌else◌,
}
use gc.Hash.{Status, free, allocated, deleted, Entry, zeroed, is_allocated, write}
use gc.Hash.Insert.{write_ne}

abbrev pub bit : Status → ℕ
bit s = if is_allocated s then 1 else 0

abbrev pub weight : Entry → ℕ
weight e = bit e.status

-- How many of the first entries are in use, and how many of some entries from an index on.
abbrev pub count : (ℕ → Entry) → ℕ → ℕ
count entries zero = 0
count entries (suc n) = weight (entries n) + count entries n

abbrev pub stored_from : (ℕ → Entry) → ℕ → ℕ → ℕ
stored_from entries e zero = 0
stored_from entries e (suc n) = weight (entries e) + stored_from entries (e + 1) n

-- No two entries in use have the same key.
abbrev pub IsDistinct : (ℕ → Entry) → Type 0
IsDistinct entries =
    (i j : ℕ)
    → i ≢ j
    → (entries i).status ≡ allocated
    → (entries j).status ≡ allocated
    → (entries i).key ≢ (entries j).key

status_weight :
    (s : Status) → ((s ≡ allocated) × (bit s ≡ 1)) ⊎ ((is_allocated s ≡ false) × (bit s ≡ 0))
status_weight free = inr (refl, refl)
status_weight allocated = inl (refl, refl)
status_weight deleted = inr (refl, refl)

pub weight_cases :
    (e : Entry)
    → ((e.status ≡ allocated) × (weight e ≡ 1)) ⊎ ((is_allocated e.status ≡ false) × (weight e ≡ 0))
weight_cases e = status_weight e.status

pub vacancy :
    (entries : ℕ → Entry) (n : ℕ)
    → count entries n < n
    → (i : ℕ) × (i < n) × (is_allocated (entries i).status ≡ false)
vacancy entries zero h = absurd (omega arith)
vacancy entries (suc n) h = elim (weight_cases (entries n)) [
  | inl (set, w) ↦
      let (i, below, vacant) = vacancy entries n (omega arith) in (i, omega arith, vacant)
  | inr (vacant, w) ↦ (n, omega arith, vacant)
]

count-frame :
    (entries : ℕ → Entry) (at : ℕ) (e : Entry) (n : ℕ)
    → n ≤ at
    → count (write entries at e) n ≡ count entries n
count-frame entries at e zero h = refl
count-frame entries at e (suc n) h =
    rw (write_ne entries at e n (omega arith), count-frame entries at e n (omega arith)) refl

weight-le : (e : Entry) → weight e ≤ 1
weight-le e = elim (weight_cases e) [ inl (set, w) ↦ omega arith | inr (vacant, w) ↦ omega arith ]

pub count-write :
    (entries : ℕ → Entry) (at : ℕ) (e : Entry) (n : ℕ)
    → count (write entries at e) n ≤ count entries n + 1
count-write entries at e zero = omega arith
count-write entries at e (suc n) = elim (Bool-cases (n == at)) [
  | inl same ↦
      let is = (==_iff n at).0 same in
      omega (arith, count-frame entries at e n (omega arith), weight-le (write entries at e n))
  | inr other ↦
      rw (write_ne entries at e n (λ same. differ (sym ((==_iff n at).1 same) ∙ other)))
        (omega (arith, count-write entries at e n))
]

pub count-zeroed : (n : ℕ) → count zeroed n ≡ 0
count-zeroed zero = refl
count-zeroed (suc n) = omega (arith, count-zeroed n)
