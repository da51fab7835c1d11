-- ===== src/BlockList/Queue.antt =====
-- A block list is a queue: `push` adds behind, `shift` takes from the front.
use gc.Base.{
  ℕ, suc, ◌+◌, ◌<◌, ◌≡◌, ◌≢◌, ◌∙◌, refl, sym, false, List, [], ◌∷◌, ◌++◌, arith, length, word_mod,
  add64-add, sub64-sub, length-append, ◌==◌,
}
use gc.Block.{Blocks}
use gc.BlockList.{BlockList, null, set_next, push, shift}

-- The address `a` is none of `xs`.
abbrev pub Fresh : ℕ → List ℕ → Type 0
Fresh a [] = Unit {0}
Fresh a (x ∷ xs) = (a ≢ x) × Fresh a xs

abbrev pub last_of : ℕ → List ℕ → ℕ
last_of before [] = before
last_of before (x ∷ xs) = last_of x xs

last_tail : (l x : ℕ) (xs : List ℕ) → l ≡ last_of x xs → l ≡ last_of l xs
last_tail l x [] h = refl
last_tail l x (y ∷ xs) h = h

last_of-append : (x : ℕ) (xs : List ℕ) (a : ℕ) → a ≡ last_of x (xs ++ a ∷ [])
last_of-append x [] a = refl
last_of-append x (y ∷ xs) a = last_of-append y xs a

-- From `p` the links lead through the distinct blocks `xs` to NULL.
abbrev pub Chain : Blocks → ℕ → List ℕ → Type 0
Chain m p [] = p ≡ null
Chain m p (x ∷ xs) = (p ≡ x) × (x ≢ null) × Fresh x xs × Chain m ((m x).next) xs

-- The list holds the blocks `xs`, in this order. The last pointer of an empty list says nothing.
pub record Holds (m : Blocks) (self : BlockList) (xs : List ℕ) : Type 0 where
  pub chain : Chain m self.first xs
  pub last : self.last ≡ last_of self.last xs
  pub size : self.size ≡ length xs

next_self : (m : Blocks) (a q : ℕ) → (set_next m a q a).next ≡ q
unfolding set_next
next_self m a q = ground arith

pub next_ne : (m : Blocks) (a q x : ℕ) → x ≢ a → set_next m a q x ≡ m x
unfolding set_next
next_ne m a q x h = ground arith

pub ne_symm : {a x : ℕ} → a ≢ x → x ≢ a
ne_symm h e = h (sym e)

Fresh-append : (x : ℕ) (xs : List ℕ) (a : ℕ) → Fresh x xs → x ≢ a → Fresh x (xs ++ a ∷ [])
Fresh-append x [] a f h = (h, tt)
Fresh-append x (y ∷ xs) a f h = (f.0, Fresh-append x xs a f.1 h)

Fresh-last : (x y : ℕ) (xs : List ℕ) → Fresh x (y ∷ xs) → x ≢ last_of y xs
Fresh-last x y [] f = f.0
Fresh-last x y (z ∷ xs) f = Fresh-last x z xs f.1

-- The link of `a` may change where `a` is none of the blocks of a chain.
pub Chain-set_next :
    (m : Blocks) (a q p : ℕ) (xs : List ℕ) → Fresh a xs → Chain m p xs → Chain (set_next m a q) p xs
Chain-set_next m a q p [] f c = c
Chain-set_next m a q p (x ∷ xs) f c = (
  c.0,
  c.1,
  c.2,
  rw (next_ne m a q x (ne_symm f.0)) (Chain-set_next m a q ((m x).next) xs f.1 c.3),
)

-- Behind the last block of a chain one more is linked.
Chain-append :
    (m : Blocks) (p x : ℕ) (xs : List ℕ) (a : ℕ)
    → a ≢ null
    → (m a).next ≡ null
    → Fresh a (x ∷ xs)
    → Chain m p (x ∷ xs)
    → Chain (set_next m (last_of x xs) a) p ((x ∷ xs) ++ a ∷ [])
Chain-append m p x [] a nz e f c =
    (c.0, c.1, (ne_symm f.0, tt), (next_self m x a, nz, tt, rw (next_ne m x a a f.0) e))
Chain-append m p x (y ∷ xs) a nz e f c = (
  c.0,
  c.1,
  Fresh-append x (y ∷ xs) a c.2 (ne_symm f.0),
  rw (next_ne m (last_of y xs) a x (Fresh-last x y xs c.2))
      (Chain-append m ((m x).next) y xs a nz e f.1 c.3),
)

-- Pushing a block that is not NULL and not in the queue yet puts it behind the others, if there are
-- less than 2 ^ 64 - 1.
pub push-Holds :
    (m : Blocks) (self : BlockList) (xs : List ℕ) (a : ℕ)
    → Holds m self xs
    → a ≢ null
    → Fresh a xs
    → length xs + 1 < word_mod
    → Holds (push m self a).0 (push m self a).1 (xs ++ a ∷ [])
unfolding push
push-Holds m self [] a w nz f small =
    simp (w.chain, w.size)
      (record {
        chain = (refl, nz, tt, next_self m a null);
        last = refl;
        size = add64-add 0 1 small;
      })
push-Holds m self (x ∷ xs) a w nz f small =
    let c = Chain-set_next m a null self.first (x ∷ xs) f w.chain in
    let linked = Chain-append (set_next m a null) self.first x xs a nz (next_self m a null) f c in
    let busy : (self.first == null) ≡ false = ground arith in
    simp (busy, w.last, w.size)
      (record {
        chain = linked;
        last = last_of-append x xs a;
        size = add64-add (suc (length xs)) 1 small ∙ sym (length-append (x ∷ xs) (a ∷ []));
      })

-- A shift of a queue that is not empty takes the block in front and leaves the queue of the others.
pub shift-Holds :
    (m : Blocks) (self : BlockList) (x : ℕ) (xs : List ℕ)
    → Holds m self (x ∷ xs)
    → length xs + 1 < word_mod
    → (Holds m (shift m self).0 xs) × ((shift m self).1 ≡ x)
unfolding shift
shift-Holds m self x xs w small =
    let busy : (self.first == null) ≡ false = ground arith in
    rw busy (
      record {
        chain = rw w.chain.0 w.chain.3;
        last = last_tail self.last x xs w.last;
        size = rw w.size (sub64-sub (suc (length xs)) 1 (omega arith) (omega arith) ∙ omega arith);
      },
      w.chain.0,
    )

-- A shift of the empty queue gives NULL and changes nothing.
pub shift-empty : (m : Blocks) (self : BlockList) → Holds m self [] → shift m self ≡ (self, null)
unfolding shift
shift-empty m self w = rw w.chain
