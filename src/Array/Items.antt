-- ===== src/Array/Items.antt =====
-- The array as the list of its items.
use gc.Base.{
  ℕ, zero, suc, ◌+◌, ◌-◌, ◌≤◌, ◌<◌, ◌≡◌, ◌∙◌, refl, ap, ◌⊎◌, inl, inr, List, [], ◌∷◌, ◌++◌, arith,
  get_or, Bool-cases, ltb, ◌==◌, if◌then◌else◌,
}
use mathlib.Core.Path.{ap₂}
use mathlib.Core.List.{foldl, append-nil, append_assoc}
use native.Mathlib.Nat.{zero-add, add-zero}
use gc.Array.{
  Array, null, size, write, resize, init, get, each_loop, each, push, pop, shift_cells, delete_loop,
  delete, clear,
}

-- The `n` cells from `i` on.
abbrev pub cells : (ℕ → ℕ) → ℕ → ℕ → List ℕ
cells f i zero = []
cells f i (suc n) = f i ∷ cells f (i + 1) n

abbrev pub items : Array → List ℕ
items a = cells a.buffer 0 a.cursor

pub record IsValid (a : Array) : Type 0 where
  pub room : 0 < a.capacity
  pub limit : a.limit ≡ a.capacity
  pub within : a.cursor ≤ a.limit

-- The list without the first occurrence of an item.
abbrev pub erase : ℕ → List ℕ → List ℕ
erase x [] = []
erase x (y ∷ ys) = if y == x then ys else y ∷ erase x ys

cells_congr :
    (f g : ℕ → ℕ) (i j n : ℕ)
    → ((k : ℕ) → k < n → f (i + k) ≡ g (j + k))
    → cells f i n ≡ cells g j n
cells_congr f g i j zero same = refl
cells_congr f g i j (suc n) same =
    let head : f i ≡ g j = ground (arith, same 0) in
    let tail : (k : ℕ) → k < n → f (i + 1 + k) ≡ g (j + 1 + k) =
      λ k h. ground (arith, same (suc k)) in
    rw (head, cells_congr f g (i + 1) (j + 1) n tail)

cells-snoc : (f : ℕ → ℕ) (i n : ℕ) → cells f i (suc n) ≡ cells f i n ++ f (i + n) ∷ []
cells-snoc f i zero = ground arith
cells-snoc f i (suc n) = ground (arith, cells-snoc f (i + 1) n)

get_or-cells :
    (f : ℕ → ℕ) (i n k : ℕ) → get_or (cells f i n) k null ≡ (if ltb k n then f (i + k) else null)
get_or-cells f i zero k = ground arith
get_or-cells f i (suc n) zero = ground arith
get_or-cells f i (suc n) (suc k) = ground (arith, get_or-cells f (i + 1) n k)

shift_cells_lem :
    (n : ℕ) (f : ℕ → ℕ) (c q : ℕ)
    → shift_cells n f c q ≡ (if ltb q c then f q else (if ltb q (c + n) then f (q + 1) else f q))
unfolding shift_cells write
shift_cells_lem zero f c q = ground arith
shift_cells_lem (suc n) f c q = ground (arith, shift_cells_lem n (write f c (f (c + 1))) (c + 1) q)

-- From a found item on, the shifted cells are the next ones.
cells-shift :
    (f : ℕ → ℕ) (c n room : ℕ) → n ≤ room → cells (shift_cells room f c) c n ≡ cells f (c + 1) n
cells-shift f c n room h =
    cells_congr (shift_cells room f c) f c (c + 1) n
      (λ k lt. ground (arith, shift_cells_lem room f c (c + k)))

cells-shift_before :
    (f : ℕ → ℕ) (i n c room : ℕ) → i + n ≤ c → cells (shift_cells room f c) i n ≡ cells f i n
cells-shift_before f i n c room h =
    cells_congr (shift_cells room f c) f i i n
      (λ k lt. ground (arith, shift_cells_lem room f c (i + k)))

cells-append : (f : ℕ → ℕ) (i m n : ℕ) → cells f i (m + n) ≡ cells f i m ++ cells f (i + m) n
cells-append f i zero n = rw (zero-add n, add-zero i)
cells-append f i (suc m) n =
    let e : suc m + n ≡ suc (m + n) = omega arith in
    rw e (ground (arith, cells-append f (i + 1) m n))

cells-next : (f : ℕ → ℕ) (c : ℕ) → cells f 0 (c + 1) ≡ cells f 0 c ++ f c ∷ []
cells-next f c =
    ap (cells f 0) {y = suc c} (omega arith)
    ∙ cells-snoc f 0 c
    ∙ ap (λ k. cells f 0 c ++ f k ∷ []) (zero-add c)

-- Cells that agree with those of `f` up to `n`, where they hold `item`.
cells-extend :
    (f g : ℕ → ℕ) (n item : ℕ)
    → ((k : ℕ) → k < n → g k ≡ f k)
    → g n ≡ item
    → cells g 0 (n + 1) ≡ cells f 0 n ++ item ∷ []
cells-extend f g n item same e =
    cells-next g n
    ∙ ap₂ (λ l x. l ++ x ∷ []) (cells_congr g f 0 0 n (λ k h. ground (arith, same k))) e

module _ (self : Array) (item : ℕ) where
  delete_loop-erase :
      (n c : ℕ)
      → c + n ≡ self.cursor
      → self.cursor ≤ self.limit
      → items (delete_loop n self item c)
        ≡ cells self.buffer 0 c ++ erase item (cells self.buffer c n)
  unfolding delete_loop
  delete_loop-erase zero c e h = rw append-nil (ap (cells self.buffer 0) (omega arith))
  delete_loop-erase (suc n) c e h = elim (Bool-cases (self.buffer c == item)) [
    | inl hit ↦
        let g = shift_cells (self.limit - c) self.buffer c in
        let e' : self.cursor - 1 ≡ c + n = omega arith in
        rw hit (
          ap (cells g 0) e'
          ∙ cells-append g 0 c n
          ∙ ap₂ ◌++◌ (cells-shift_before self.buffer 0 c c (self.limit - c) (omega arith)) (
              ap (λ k. cells g k n) (zero-add c)
              ∙ cells-shift self.buffer c n (self.limit - c) (omega arith)))
    | inr miss ↦ rw miss (
        delete_loop-erase n (c + 1) (omega arith) h
        ∙ ap (λ l. l ++ erase item (cells self.buffer (c + 1) n)) (cells-next self.buffer c)
        ∙ append_assoc (cells self.buffer 0 c) (self.buffer c ∷ []) _)
  ]

-- On a valid array, deletion removes the first occurrence of the item, and nothing where there is
-- none.
pub delete-erase :
    (self : Array) (item : ℕ) → IsValid self → items (delete self item) ≡ erase item (items self)
unfolding delete
delete-erase self item v = delete_loop-erase self item self.cursor 0 (omega arith) v.within

-- A push on a valid array, which grows the array if it is full, puts the item behind the others and
-- leaves the array valid.
pub push-append :
    (fresh : ℕ → ℕ) (self : Array) (item : ℕ)
    → IsValid self
    → IsValid (push fresh self item) × (items (push fresh self item) ≡ items self ++ item ∷ [])
unfolding push resize size write
push-append fresh self item v = elim (Bool-cases (self.cursor == self.limit)) [
  | inl full ↦ rw full (
    ground arith,
    cells-extend self.buffer _ self.cursor item (λ k h. ground arith) (ground arith),
  )
  | inr free ↦ rw free (
    ground arith,
    cells-extend self.buffer _ self.cursor item (λ k h. ground arith) (ground arith),
  )
]

-- A pop of a valid array gives the last item and leaves the others, in a valid array; of the empty
-- array it gives NULL and changes nothing.
pub pop-last :
    (self : Array)
    → IsValid self
    → IsValid (pop self).0
      × ((items self ≡ items (pop self).0 ++ (pop self).1 ∷ [])
          ⊎ ((items self ≡ []) × (pop self ≡ (self, null))))
unfolding pop
pop-last self v = elim (Bool-cases (self.cursor == 0)) [
  | inl none_ ↦ rw none_ (v, inr (ap (cells self.buffer 0) {y = 0} (ground arith), refl))
  | inr some_ ↦ rw some_ (
    ground arith,
    inl (
        ap (cells self.buffer 0) {y = self.cursor - 1 + 1} (ground arith)
        ∙ cells-next self.buffer (self.cursor - 1)),
  )
]

-- Reading at an index that is not negative gives the item there, or NULL behind the last item.
pub get-items : (self : Array) (index : ℕ) → get self index ≡ get_or (items self) index null
unfolding get
get-items self index = ground (arith, get_or-cells self.buffer 0 self.cursor index)

each_loop-foldl :
    {S : Type 0} (callback : ℕ → S → S) (n : ℕ) (f : ℕ → ℕ) (i : ℕ) (s : S)
    → each_loop callback n f i s ≡ foldl (λ t x. callback x t) s (cells f i n)
unfolding each_loop
each_loop-foldl callback zero f i s = refl
each_loop-foldl callback (suc n) f i s = each_loop-foldl callback n f (i + 1) (callback (f i) s)

-- The callback sees every item once, in order.
pub each-foldl :
    {S : Type 0} (callback : ℕ → S → S) (self : Array) (s : S)
    → each callback self s ≡ foldl (λ t x. callback x t) s (items self)
unfolding each
each-foldl callback self s = each_loop-foldl callback self.cursor self.buffer 0 s

pub init-IsValid :
    (fresh : ℕ → ℕ) (capacity : ℕ)
    → 0 < capacity
    → IsValid (init fresh capacity) × (items (init fresh capacity) ≡ [])
unfolding init
init-IsValid fresh capacity h = (ground arith, refl)

pub clear-items : (self : Array) → IsValid self → IsValid (clear self) × (items (clear self) ≡ [])
unfolding clear
clear-items self v = elim (Bool-cases (self.cursor == 0)) [
  | inl none_ ↦ rw none_ (v, ap (cells self.buffer 0) {y = 0} (ground arith))
  | inr some_ ↦ rw some_ (ground arith, refl)
]
