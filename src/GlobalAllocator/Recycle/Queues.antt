-- ===== src/GlobalAllocator/Recycle/Queues.antt =====
-- The two block lists while `GC_GlobalAllocator_recycleBlocks` fills them: each holds the blocks with
-- one flag.
use gc.Base.{
  ne_test, ℕ, ◌+◌, ◌*◌, ◌%◌, ◌≤◌, ◌<◌, ◌≡◌, ◌≢◌, ◌⊎◌, ◌↔◌, refl, sym, ap, subst, ◌∙◌, inl, inr,
  false, List, [], ◌∷◌, ◌++◌, arith, length, length-append, word_mod, ◌==◌, ==_iff, ==_refl,
  Bool-cases,
}
use gc.Block.{Block, Blocks, BlockFlag, block_size, write}
use gc.BlockList
use gc.BlockList.{BlockList, null, set_next}
use gc.BlockList.Queue.{Fresh, Chain, Holds, last_of, push-Holds, Chain-set_next}
use gc.GlobalAllocator.NextBlock.Pushed.{Chain-write}
use gc.GlobalAllocator.Recycle.Blocks.{SameButNext, push-SameButNext}

abbrev pub Member : ℕ → List ℕ → Type 0
Member b [] = ⊥
Member b (x ∷ xs) = (b ≡ x) ⊎ Member b xs

Fresh_of_apart : (a : ℕ) (xs : List ℕ) → ((b : ℕ) → Member b xs → a ≢ b) → Fresh a xs
Fresh_of_apart a [] apart = tt
Fresh_of_apart a (x ∷ xs) apart =
    (apart x (inl refl), Fresh_of_apart a xs (λ b there. apart b (inr there)))

Member-last : (x : ℕ) (xs : List ℕ) → Member (last_of x xs) (x ∷ xs)
Member-last x [] = inl refl
Member-last x (y ∷ xs) = inr (Member-last y xs)

Member-append : (b a : ℕ) (xs : List ℕ) → Member b (xs ++ a ∷ []) ↔ (Member b xs ⊎ (b ≡ a))
Member-append b a [] = (
  λ m. elim m [ inl e ↦ inr e | inr none_there ↦ absurd none_there ],
  λ m. elim m [ inl none_there ↦ absurd none_there | inr e ↦ inl e ],
)
Member-append b a (x ∷ xs) =
    let (to, back) = Member-append b a xs in
    (
      λ m. elim m [
        | inl e ↦ inl (inl e)
        | inr there ↦ elim (to there) [ inl m' ↦ inl (inr m') | inr e ↦ inr e ]
      ],
      λ m. elim m [
        | inl at ↦ elim at [ inl e ↦ inl e | inr there ↦ inr (back (inl there)) ]
        | inr e ↦ inr (back (inr e))
      ],
    )

-- From the address on, and each behind the one before.
abbrev pub Ascending : ℕ → List ℕ → Type 0
Ascending lo [] = Unit {0}
Ascending lo (x ∷ xs) = (lo ≤ x) × Ascending (x + 1) xs

Ascending-append :
    (lo a : ℕ) (xs : List ℕ)
    → lo ≤ a
    → ((x : ℕ) → Member x xs → x < a)
    → Ascending lo xs
    → Ascending lo (xs ++ a ∷ [])
Ascending-append lo a [] le below up = (le, tt)
Ascending-append lo a (x ∷ xs) le below up = (
  up.0,
  Ascending-append (x + 1) a xs (omega (arith, below x (inl refl))) (λ y there. below y (inr there))
      up.1,
)

-- The list holds the blocks between the two addresses that have the flag, in address order.
pub record Queue (m : Blocks) (l : BlockList) (start stop : ℕ) (flag : BlockFlag) (xs : List ℕ)
    : Type 0 where
  pub holds : Holds m l xs
  pub members :
      (b : ℕ)
      → Member b xs ↔ ((b % block_size ≡ 0) × (start ≤ b) × (b < stop) × ((m b).flag ≡ flag))
  pub room : start + length xs * block_size ≤ stop
  pub ascending : Ascending start xs

same_flag : (b b' : Block) → SameButNext b b' → b'.flag ≡ b.flag
same_flag b b' (next, e) = ap (λ x. x.flag) e

module _ (m : Blocks) (start block : ℕ) (b : Block) (aligned : block % block_size ≡ 0)
    (lo : start ≤ block) (positive : 0 < start) (hi : block + block_size < word_mod) where
  abbrev written : Blocks
  written = write m block b

  written_self : written block ≡ b
  unfolding write
  written_self = rw (==_refl block) refl

  written_ne : (x : ℕ) → x ≢ block → written x ≡ m x
  unfolding write
  written_ne x ne = rw (ne_test x block ne) refl

  -- The aligned addresses below the next block.
  next_cases : (x : ℕ) → x % block_size ≡ 0 → x < block + block_size → (x < block) ⊎ (x ≡ block)
  next_cases x al lt = elim (Bool-cases (x == block)) [
    | inl same ↦ inr ((==_iff x block).0 same)
    | inr other ↦ inl (let ne : x ≢ block = ground arith in omega arith)
  ]

  module _ (l : BlockList) (flag : BlockFlag) (xs : List ℕ)
      (q : Queue m l start block flag xs) where
    fresh_block : Fresh block xs
    fresh_block =
        Fresh_of_apart block xs
          (λ x at. let (al, ge, lt, e) = (q.members x).0 at in λ e'. absurd (omega arith))

    Holds-written : Holds written l xs
    Holds-written = record {
      chain = Chain-write m block b l.first xs fresh_block q.holds.chain;
      last = q.holds.last;
      size = q.holds.size;
    }

    -- A block with another flag is passed over.
    pub Queue-skip : b.flag ≢ flag → Queue written l start (block + block_size) flag xs
    Queue-skip ne = record {
      holds = Holds-written;
      members = λ x. (
        λ at.
            let (al, ge, lt, e) = (q.members x).0 at in
            (al, ge, omega arith, ap (λ k. k.flag) (written_ne x (λ e'. absurd (omega arith))) ∙ e),
        λ (al, ge, lt, e). elim (next_cases x al lt) [
          | inl before ↦ (q.members x).1 (
            al,
            ge,
            before,
            sym (ap (λ k. k.flag) (written_ne x (λ e'. absurd (omega arith)))) ∙ e,
          )
          | inr same ↦ absurd (ne (sym (ap (λ k. k.flag) (ap written same ∙ written_self)) ∙ e))
        ],
      );
      room = omega (arith, q.room);
      ascending = q.ascending;
    }

    -- A block with the flag is pushed.
    pub Queue-push :
        b.flag ≡ flag
        → Queue
            (BlockList.push written l block).0
            (BlockList.push written l block).1
            start
            (block + block_size)
            flag
            (xs ++ block ∷ [])
    Queue-push has = record {
      holds =
          push-Holds written l xs block Holds-written (omega arith) fresh_block
            (omega (arith, q.room));
      members = λ x.
          let same = same_flag (written x) _ (push-SameButNext written l block x) in
          let (to, back) = Member-append x block xs in
          (
            λ at. elim (to at) [
              | inl old ↦
                  let (al, ge, lt, e) = (q.members x).0 old in
                  (
                    al,
                    ge,
                    omega arith,
                    same ∙ ap (λ k. k.flag) (written_ne x (λ e'. absurd (omega arith))) ∙ e,
                  )
              | inr new ↦ (
                ap (λ k. k % block_size) new ∙ aligned,
                omega arith,
                omega arith,
                same ∙ ap (λ k. k.flag) (ap written new ∙ written_self) ∙ has,
              )
            ],
            λ (al, ge, lt, e). elim (next_cases x al lt) [
              | inl before ↦ back (
                  inl (
                    (q.members x).1 (
                      al,
                      ge,
                      before,
                      sym (ap (λ k. k.flag) (written_ne x (λ e'. absurd (omega arith))))
                          ∙ sym same
                          ∙ e,
                    )))
              | inr new ↦ back (inr new)
            ],
          );
      room = omega (arith, q.room, length-append xs (block ∷ []));
      ascending = Ascending-append start block xs lo (λ x at. ((q.members x).0 at).2) q.ascending;
    }

  -- The push on one list leaves the other one.
  module _ (l k : BlockList) (flag other : BlockFlag) (xs ys : List ℕ) (apart : flag ≢ other)
      (q : Queue m l start block flag xs) (r : Queue m k start block other ys) where
    last_fresh : (x : ℕ) → Member x xs → Fresh x ys
    last_fresh x at = Fresh_of_apart x ys (λ y there e.
        apart (sym ((q.members x).0 at).3 ∙ ap (λ a. (m a).flag) e ∙ ((r.members y).0 there).3))

    pushed-Chain : Chain (BlockList.push written l block).0 k.first ys
    unfolding BlockList.push BlockList.is_empty
    pushed-Chain =
        let inner =
          Chain-set_next written block null k.first ys (fresh_block k other ys r)
            (Holds-written k other ys r).chain in
        elim (Bool-cases (l.first == null)) [
          | inl none_yet ↦ rw none_yet inner
          | inr some_block ↦ rw some_block (
              Chain-set_next (set_next written block null) l.last block k.first ys
                (fresh_last xs q.holds some_block last_fresh) inner)
        ]
      where
        fresh_last :
            (zs : List ℕ)
            → Holds m l zs
            → (l.first == null) ≡ false
            → ((x : ℕ) → Member x zs → Fresh x ys)
            → Fresh l.last ys
        fresh_last [] h busy fresh = absurd (ground (arith, h.chain))
        fresh_last (z ∷ zs) h busy fresh =
            subst (λ a. Fresh a ys) (sym h.last) (fresh (last_of z zs) (Member-last z zs))

    pub Queue-other :
        b.flag ≢ other
        → Queue (BlockList.push written l block).0 k start (block + block_size) other ys
    Queue-other ne =
        let skip = Queue-skip k other ys r ne in
        record {
          holds = record { chain = pushed-Chain; last = skip.holds.last; size = skip.holds.size };
          members = λ x.
              let same = same_flag (written x) _ (push-SameButNext written l block x) in
              (
                λ at. let (al, ge, lt, e) = (skip.members x).0 at in (al, ge, lt, same ∙ e),
                λ (al, ge, lt, e). (skip.members x).1 (al, ge, lt, sym same ∙ e),
              );
          room = skip.room;
          ascending = skip.ascending;
        }
