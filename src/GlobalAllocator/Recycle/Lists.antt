-- ===== src/GlobalAllocator/Recycle/Lists.antt =====
-- The two block lists of the allocator, as `GC_GlobalAllocator_recycleBlocks` fills them.
use gc.Base.{ℕ, ◌+◌, ◌%◌, ◌≤◌, ◌<◌, ◌≡◌, ◌≢◌, ◌∙◌, refl, sym, subst, List, [], ◌∷◌, ◌++◌, word_mod}
use gc.Block
use gc.Block.{Block, BlockFlag, free, recyclable, unavailable, block_size}
use gc.GlobalAllocator.{GlobalAllocator}
use gc.GlobalAllocator.Recycle.Blocks.{Placed, on_free, on_none, on_recyclable}
use gc.GlobalAllocator.Recycle.Queues.{Queue, Queue-skip, Queue-push, Queue-other}

-- The lists hold the free and the recyclable blocks between the two addresses.
pub record Lists (s : GlobalAllocator) (start stop : ℕ) (frees recyclables : List ℕ) : Type 0 where
  pub free_queue : Queue s.blocks s.free_list start stop free frees
  pub recyclable_queue : Queue s.blocks s.recyclable_list start stop recyclable recyclables

flags_apart : free ≢ recyclable
flags_apart e = cc

init_flag : Block.init.flag ≡ free
unfolding Block.init
init_flag = refl

recyclable_flag : (b : Block) (i : ℕ) → (Block.set_recyclable b i).flag ≡ recyclable
unfolding Block.set_recyclable
recyclable_flag b i = refl

unavailable_flag : (b : Block) → (Block.set_unavailable b).flag ≡ unavailable
unfolding Block.set_unavailable
unavailable_flag b = refl

clash : {a b c : BlockFlag} → a ≡ b → b ≢ c → a ≢ c
clash e ne e' = ne (sym e ∙ e')

pub Placed-Lists :
    (s s' : GlobalAllocator) (start block : ℕ) (frees recyclables : List ℕ)
    → block % block_size ≡ 0
    → start ≤ block
    → 0 < start
    → block + block_size < word_mod
    → Placed s block s'
    → Lists s start block frees recyclables
    → (frees' : List ℕ) × (recyclables' : List ℕ) × Lists s' start
        (block + block_size)
        frees'
        recyclables'
Placed-Lists s s' start block frees recyclables al lo pos hi (on_free e) l =
    let m = s.blocks in
    let push =
      Queue-push m start block Block.init al lo pos hi s.free_list free frees l.free_queue in
    let other =
      Queue-other m start block Block.init al lo pos hi s.free_list s.recyclable_list free
        recyclable frees recyclables flags_apart l.free_queue l.recyclable_queue in
    (
      frees ++ block ∷ [],
      recyclables,
      subst (λ x. Lists x start (block + block_size) (frees ++ block ∷ []) recyclables) (sym e)
          (record {
            free_queue = push init_flag;
            recyclable_queue = other (clash init_flag flags_apart);
          }),
    )
Placed-Lists s s' start block frees recyclables al lo pos hi (on_none b holes e) l =
    let m = s.blocks in
    let x = Block.set_unavailable b in
    let skip_free = Queue-skip m start block x al lo pos hi s.free_list free frees l.free_queue in
    let skip_recyclable =
      Queue-skip m start block x al lo pos hi s.recyclable_list recyclable recyclables
        l.recyclable_queue in
    (
      frees,
      recyclables,
      subst (λ y. Lists y start (block + block_size) frees recyclables) (sym e)
          (record {
            free_queue = skip_free (clash (unavailable_flag b) (λ z. cc));
            recyclable_queue = skip_recyclable (clash (unavailable_flag b) (λ z. cc));
          }),
    )
Placed-Lists s s' start block frees recyclables al lo pos hi (on_recyclable b i holes e) l =
    let m = s.blocks in
    let x = Block.set_recyclable b i in
    let push =
      Queue-push m start block x al lo pos hi s.recyclable_list recyclable recyclables
        l.recyclable_queue in
    let other =
      Queue-other m start block x al lo pos hi s.recyclable_list s.free_list recyclable free
        recyclables frees (λ z. flags_apart (sym z)) l.recyclable_queue l.free_queue in
    (
      frees,
      recyclables ++ block ∷ [],
      subst (λ y. Lists y start (block + block_size) frees (recyclables ++ block ∷ [])) (sym e)
          (record {
            free_queue = other (clash (recyclable_flag b i) (λ z. flags_apart (sym z)));
            recyclable_queue = push (recyclable_flag b i);
          }),
    )
