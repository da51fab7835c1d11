-- ===== src/GlobalAllocator/NextBlock/Pushed.antt =====
-- The loop that pushes new blocks on the free list, in growth and at the start.
use gc.Base.{
  ℕ, zero, suc, ◌+◌, ◌*◌, ◌^◌, ◌≤◌, ◌<◌, ◌≡◌, ◌≢◌, ◌∙◌, refl, sym, ap, List, [], ◌∷◌, ◌++◌, arith,
  length, length-append, word_mod, add64-add,
}
use mathlib.Core.List.{append-nil, append_assoc}
use gc.Block
use gc.Block.{Block, Blocks, block_size, write}
use gc.BlockList
use gc.BlockList.{BlockList, null}
use gc.BlockList.Queue.{Fresh, Chain, Holds, push-Holds}
use gc.GlobalAllocator.{GlobalAllocator, push_blocks}

-- Every address of the list lies between the two.
abbrev pub Inside : ℕ → ℕ → List ℕ → Type 0
Inside start stop [] = Unit {0}
Inside start stop (x ∷ xs) = (start ≤ x) × (x < stop) × Inside start stop xs

pub Fresh_of_Inside : (start a : ℕ) (xs : List ℕ) → Inside start a xs → Fresh a xs
Fresh_of_Inside start a [] h = tt
Fresh_of_Inside start a (x ∷ xs) h = (λ e. omega arith, Fresh_of_Inside start a xs h.2)

Inside-later : (start a b : ℕ) (xs : List ℕ) → a ≤ b → Inside start a xs → Inside start b xs
Inside-later start a b [] h k = tt
Inside-later start a b (x ∷ xs) h k = (k.0, omega arith, Inside-later start a b xs h k.2)

Inside-append :
    (start stop a : ℕ) (xs : List ℕ)
    → Inside start stop xs
    → start ≤ a
    → a < stop
    → Inside start stop (xs ++ a ∷ [])
Inside-append start stop a [] h lo hi = (lo, hi, tt)
Inside-append start stop a (x ∷ xs) h lo hi = (h.0, h.1, Inside-append start stop a xs h.2 lo hi)

-- The addresses of `n` blocks from `p` on.
abbrev pub addresses : ℕ → ℕ → List ℕ
addresses zero p = []
addresses (suc n) p = p ∷ addresses n (p + block_size)

pub write_elsewhere : (m : Blocks) (a : ℕ) (b : Block) (x : ℕ) → a ≢ x → write m a b x ≡ m x
unfolding write
write_elsewhere m a b x h = ground arith

-- Writing a block that is not in the queue leaves the queue alone.
pub Chain-write :
    (m : Blocks) (a : ℕ) (b : Block) (p : ℕ) (xs : List ℕ)
    → Fresh a xs
    → Chain m p xs
    → Chain (write m a b) p xs
Chain-write m a b p [] f c = c
Chain-write m a b p (x ∷ xs) f c =
    (c.0, c.1, c.2, rw (write_elsewhere m a b x f.0) (Chain-write m a b ((m x).next) xs f.1 c.3))

-- The free list of the allocator holds the blocks `xs`, all in the small object space, which lies
-- within the mapping that the memory limit gives.
pub record HasBlocks (s : GlobalAllocator) (xs : List ℕ) : Type 0 where
  pub holds : Holds s.blocks s.free_list xs
  pub inside : Inside s.small_heap_start s.small_heap_stop xs
  pub count : length xs * block_size ≤ s.small_heap_size
  pub positive : 0 < s.small_heap_start
  pub extends : s.small_heap_start + s.small_heap_size ≡ s.small_heap_stop
  pub mapped : s.small_heap_start + s.memory_limit < word_mod
  pub limited : s.memory_limit < 2 ^ 46
  pub within : s.small_heap_size + s.large_heap_size ≤ s.memory_limit
  pub nonempty : block_size ≤ s.small_heap_size

-- The state of a loop that pushes blocks: the queue `xs`, and nothing else changed.
pub record Pushed (start stop : ℕ) (s : GlobalAllocator) (xs : List ℕ) (s' : GlobalAllocator)
    : Type 0 where
  pub queue : Holds s'.blocks s'.free_list xs
  pub inside : Inside start stop xs
  pub same : s' ≡ record s { blocks = s'.blocks; free_list = s'.free_list }

unfoldable pub pushed_one : GlobalAllocator → ℕ → GlobalAllocator
pushed_one s cursor =
    let r = BlockList.push (write s.blocks cursor Block.init) s.free_list cursor in
    record s { blocks = r.0; free_list = r.1 }

pub push_blocks-zero : (s : GlobalAllocator) (cursor : ℕ) → push_blocks 0 s cursor ≡ s
unfolding push_blocks
push_blocks-zero s cursor = refl

pub push_blocks-suc :
    (n : ℕ) (s : GlobalAllocator) (cursor : ℕ)
    → cursor + block_size < word_mod
    → push_blocks (suc n) s cursor ≡ push_blocks n (pushed_one s cursor) (cursor + block_size)
unfolding push_blocks pushed_one
push_blocks-suc n s cursor h = rw (add64-add cursor block_size h) refl

pushed_one-Pushed :
    (start : ℕ) (s : GlobalAllocator) (cursor : ℕ) (xs : List ℕ)
    → Holds s.blocks s.free_list xs
    → Inside start cursor xs
    → start ≤ cursor
    → 0 < cursor
    → length xs + 1 < word_mod
    → Pushed start (cursor + block_size) s (xs ++ cursor ∷ []) (pushed_one s cursor)
unfolding pushed_one
pushed_one-Pushed start s cursor xs w below lo pos small =
    let f = Fresh_of_Inside start cursor xs below in
    record {
      queue =
          push-Holds (write s.blocks cursor Block.init) s.free_list xs cursor
            (record {
              chain = Chain-write s.blocks cursor Block.init s.free_list.first xs f w.chain;
              last = w.last;
              size = w.size;
            })
            (omega arith) f small;
      inside =
          Inside-append start (cursor + block_size) cursor xs
            (Inside-later start cursor (cursor + block_size) xs (omega arith) below) lo
            (omega arith);
      same = refl;
    }

Pushed-trans :
    {start stop stop' : ℕ} {s s' s'' : GlobalAllocator} {xs ys : List ℕ}
    → Pushed start stop s xs s'
    → Pushed start stop' s' ys s''
    → Pushed start stop' s ys s''
Pushed-trans {s'' = s''} p q = record {
  queue = q.queue;
  inside = q.inside;
  same =
      q.same
      ∙ ap (λ (t : GlobalAllocator). record t { blocks = s''.blocks; free_list = s''.free_list })
          p.same;
}

pub push_blocks-Pushed :
    (n start : ℕ) (s : GlobalAllocator) (cursor : ℕ) (xs : List ℕ)
    → Holds s.blocks s.free_list xs
    → Inside start cursor xs
    → start ≤ cursor
    → 0 < cursor
    → cursor + n * block_size < word_mod
    → length xs + n < word_mod
    → Pushed start (cursor + n * block_size) s (xs ++ addresses n cursor) (push_blocks n s cursor)
push_blocks-Pushed zero start s cursor xs w below lo pos bound small =
    rw (append-nil xs, push_blocks-zero s cursor)
      (record {
        queue = w;
        inside = Inside-later start cursor (cursor + 0) xs (omega arith) below;
        same = refl;
      })
push_blocks-Pushed (suc n) start s cursor xs w below lo pos bound small =
    let one = pushed_one-Pushed start s cursor xs w below lo pos (omega arith) in
    let rest =
      push_blocks-Pushed n start (pushed_one s cursor) (cursor + block_size) (xs ++ cursor ∷ [])
        one.queue one.inside (omega arith) (omega arith) (omega arith)
        (omega (arith, length-append xs (cursor ∷ []))) in
    let k : cursor + suc n * block_size ≡ cursor + block_size + n * block_size = omega arith in
    rw
      (
        push_blocks-suc n s cursor (omega arith),
        k,
        sym (append_assoc xs (cursor ∷ []) (addresses n (cursor + block_size))),
      )
      (Pushed-trans one rest)
