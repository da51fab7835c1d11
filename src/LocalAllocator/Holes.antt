-- ===== src/LocalAllocator/Holes.antt =====
-- The bump allocation of src/local_allocator.c over the holes of a block, against first fit.
use gc.Base.{
  ℕ, zero, suc, ◌+◌, ◌%◌, ◌≤◌, ◌<◌, ◌≡◌, refl, sym, ap, subst, ◌∙◌, inl, inr, true, false, Option,
  none, some, List, [], ◌∷◌, arith, length, Bool-cases, word_mod, leb, ltb, ==_refl, ==_lt, leb→le,
  le→ltb, if◌then◌else◌, add64, add64-add, ok, Returns, ◌>>=◌,
}
use gc.LineHeader.{line_size, word_size}
use gc.Block
use gc.Block.{Block, block_size, line_count}
use gc.Block.Address.{IsBlock, InLine, line_index-InLine}
use gc.Block.LineUpdate.{Updated, line_update-Updated}
use gc.Memory.{Hole, LocalAllocator}
use gc.GlobalAllocator.{GlobalAllocator, Environment}
use gc.LocalAllocator.{null, put, clear_next, place_object, find_next_hole, try_allocate_small}

-- Free memory between two addresses.
abbrev pub Gap : Type 0
Gap = ℕ × ℕ

abbrev pub IsGap : ℕ → Gap → Type 0
IsGap block (cursor, limit) =
    (block + line_size ≤ cursor)
    × (cursor ≤ limit)
    × (limit ≤ block + block_size)
    × (cursor % word_size ≡ 0)

-- The holes that are linked from an address on, as gaps of the block.
abbrev pub Chain : (ℕ → Hole) → ℕ → ℕ → List Gap → Type 0
Chain holes block next [] = next ≡ null
Chain holes block next (gap ∷ gaps) =
    (next ≡ gap.0)
    × IsGap block gap
    × ((holes gap.0).limit ≡ gap.1)
    × Chain holes block ((holes gap.0).next) gaps

-- First fit: the object's address, the end of its gap, and the gaps behind that one.
abbrev pub first_fit : ℕ → List Gap → Option (ℕ × ℕ × List Gap)
first_fit size [] = none
first_fit size ((cursor, limit) ∷ gaps) =
    if leb (cursor + size) limit then some (cursor, limit, gaps) else first_fit size gaps

-- What the allocation leaves: no object and the blocks as they were, or an object at the address, with
-- its line updated, the cursor behind it, and the gaps that are left.
abbrev pub Placed :
    GlobalAllocator → ℕ → ℕ → ℕ → Option (ℕ × ℕ × List Gap) → GlobalAllocator × ℕ → Type 0
Placed s self block size none r = (r.1 ≡ null) × ((r.0).blocks ≡ s.blocks)
Placed s self block size (some (at, limit, gaps)) r =
    (r.1 ≡ at)
    × (((r.0).local_allocators self).block ≡ block)
    × (((r.0).local_allocators self).cursor ≡ at + size)
    × (((r.0).local_allocators self).limit ≡ limit)
    × Chain ((r.0).holes) block (((r.0).local_allocators self).next) gaps
    × ((i : ℕ) × InLine block i at × Updated block (s.blocks block) at i ((r.0).blocks block))

clear_next_same :
    (s : GlobalAllocator) (stop limit : ℕ)
    → ((clear_next s stop limit).local_allocators ≡ s.local_allocators)
      × ((clear_next s stop limit).holes ≡ s.holes)
      × ((clear_next s stop limit).blocks ≡ s.blocks)
unfolding clear_next
clear_next_same s stop limit = elim (Bool-cases (ltb stop limit)) [
  | inl inside ↦ rw inside (refl, refl, refl)
  | inr outside ↦ rw outside (refl, refl, refl)
]

block_end : {block : ℕ} → IsBlock block → block + block_size + block_size ≤ word_mod
block_end {block} valid = omega (arith, valid.aligned, valid.inside)

put_self :
    (s : GlobalAllocator) (self : ℕ) (l : LocalAllocator) → (put s self l).local_allocators self ≡ l
unfolding put
put_self s self l = rw (==_refl self) refl

put_rest :
    (s : GlobalAllocator) (self : ℕ) (l : LocalAllocator)
    → ((put s self l).holes ≡ s.holes) × ((put s self l).blocks ≡ s.blocks)
unfolding put
put_rest s self l = (refl, refl)

write_block : (s : GlobalAllocator) (block : ℕ) (b : Block) → Block.write s.blocks block b block ≡ b
unfolding Block.write
write_block s block b = rw (==_refl block) refl

next_none :
    (s : GlobalAllocator) (self : ℕ) (l : LocalAllocator)
    → s.local_allocators self ≡ l
    → l.next ≡ null
    → find_next_hole s self ≡ (s, false)
unfolding find_next_hole
next_none s self l e z = rw (e, z) refl

entered : GlobalAllocator → LocalAllocator → LocalAllocator
entered s l = record l {
  cursor = l.next;
  limit = (s.holes l.next).limit;
  next = (s.holes l.next).next;
}

next_some :
    (s : GlobalAllocator) (self : ℕ) (l : LocalAllocator)
    → s.local_allocators self ≡ l
    → 0 < l.next
    → find_next_hole s self ≡ (put s self (entered s l), true)
unfolding find_next_hole entered
next_some s self l e some_next = rw (e, ==_lt l.next null some_next) refl

gap_line :
    (block cursor limit : ℕ)
    → IsBlock block
    → IsGap block (cursor, limit)
    → cursor < limit
    → (i : ℕ) × InLine block i cursor
gap_line block cursor limit valid is room =
    let (r, run, cases) = line_index-InLine valid cursor (omega arith) (omega arith) in
    elim cases [ inl (i, e, line) ↦ (i, line) | inr (e, before) ↦ absurd (omega arith) ]

-- The object of a gap where it fits.
module _ (s : GlobalAllocator) (self size : ℕ) (l : LocalAllocator) (gaps : List Gap)
    (e : s.local_allocators self ≡ l) where
  place_fit :
      IsBlock l.block
      → IsGap l.block (l.cursor, l.limit)
      → Chain s.holes l.block l.next gaps
      → l.cursor < l.limit
      → Returns
          (place_object s l.block l.cursor (l.cursor + size) l.limit >>= λ t.
            ok (
              put t self (record (t.local_allocators self) { cursor = l.cursor + size }),
              l.cursor,
            ))
          (Placed s self l.block size (some (l.cursor, l.limit, gaps)))
  unfolding place_object put
  place_fit valid is chain room =
      let (i, line) = gap_line l.block l.cursor l.limit valid is room in
      let (b, run, updated) = line_update-Updated valid (s.blocks l.block) l.cursor i line is.3 in
      let t =
        clear_next (record s { blocks = Block.write s.blocks l.block b }) (l.cursor + size)
          l.limit in
      let (same, holes, blocks) =
        clear_next_same (record s { blocks = Block.write s.blocks l.block b }) (l.cursor + size)
          l.limit in
      let l' = record (t.local_allocators self) { cursor = l.cursor + size } in
      let at = put_self t self l' in
      let old : t.local_allocators self ≡ l = ap (λ f. f self) same ∙ e in
      let rest = put_rest t self l' in
      (
        (put t self l', l.cursor),
        rw run refl,
        (
          refl,
          ap (λ x. x.block) at ∙ ap (λ x. x.block) old,
          ap (λ x. x.cursor) at,
          ap (λ x. x.limit) at ∙ ap (λ x. x.limit) old,
          rw (rest.0, holes, ap (λ x. x.next) at ∙ ap (λ x. x.next) old) chain,
          (i, line, rw (rest.1, blocks, write_block s l.block b) updated),
        ),
      )

module _ (env : Environment) (fuel self size : ℕ) (some_size : 0 < size)
    (small : size ≤ line_size) where
  next_gap :
      (rounds : ℕ) (s : GlobalAllocator) (l : LocalAllocator) (gaps : List Gap)
      → ((t : GlobalAllocator) (k : LocalAllocator) (rest : List Gap)
          → t.local_allocators self ≡ k
          → IsBlock k.block
          → IsGap k.block (k.cursor, k.limit)
          → Chain t.holes k.block k.next rest
          → length rest < rounds
          → Returns
              (try_allocate_small env fuel rounds t self size)
              (Placed t self k.block size (first_fit size ((k.cursor, k.limit) ∷ rest))))
      → s.local_allocators self ≡ l
      → IsBlock l.block
      → Chain s.holes l.block l.next gaps
      → length gaps < suc rounds
      → Returns
          (if (find_next_hole s self).1
            then try_allocate_small env fuel rounds ((find_next_hole s self).0) self size
            else ok (s, null))
          (Placed s self l.block size (first_fit size gaps))
  unfolding put entered
  next_gap rounds s l [] again e valid chain enough =
      rw (next_none s self l e chain) ((s, null), refl, (refl, refl))
  next_gap rounds s l (gap ∷ gaps) again e valid (at, is, end, chain) enough =
      let same : Path Gap (l.next, (s.holes l.next).limit) gap =
        λ i. (at i, (ap (λ x. (s.holes x).limit) at ∙ end) i) in
      let k = entered s l in
      rw (next_some s self l e (omega arith)) (
        subst
          (λ g.
            Returns (try_allocate_small env fuel rounds (put s self k) self size)
              (Placed s self l.block size (first_fit size (g ∷ gaps))))
          same
          (again (put s self k) k gaps (put_self s self k) valid
            (subst (IsGap l.block) (sym same) is)
            (subst (λ x. Chain s.holes l.block ((s.holes x).next) gaps) (sym at) chain)
            (omega arith)))

  -- In an aligned block whose holes are linked behind the current gap, the attempt to allocate an
  -- object, of a byte or more and a line or less, ends, with fuel for one step more than there are
  -- holes, and fails no assertion. It is first fit over the gap and the holes: it gives the start
  -- of the first one with room, records the object in its line, and leaves the cursor behind the
  -- object with the later holes still linked; it gives NULL, with the blocks as they were, if none
  -- has room.
  pub try_allocate_small-first_fit :
      (rounds : ℕ) (s : GlobalAllocator) (l : LocalAllocator) (gaps : List Gap)
      → s.local_allocators self ≡ l
      → IsBlock l.block
      → IsGap l.block (l.cursor, l.limit)
      → Chain s.holes l.block l.next gaps
      → length gaps < rounds
      → Returns
          (try_allocate_small env fuel rounds s self size)
          (Placed s self l.block size (first_fit size ((l.cursor, l.limit) ∷ gaps)))
  unfolding try_allocate_small
  try_allocate_small-first_fit zero s l gaps e valid is chain enough = absurd (omega arith)
  try_allocate_small-first_fit (suc rounds) s l gaps e valid is chain enough =
      let stop : add64 l.cursor size ≡ l.cursor + size =
        add64-add l.cursor size (omega (arith, block_end valid)) in
      elim (Bool-cases (leb (l.cursor + size) l.limit)) [
        | inl fits ↦
            let room = leb→le (l.cursor + size) l.limit fits in
            rw (e, stop, fits) (place_fit s self size l gaps e valid is chain (omega arith))
        | inr over ↦
            rw (e, stop, over, le→ltb size line_size small)
              (next_gap rounds s l gaps (try_allocate_small-first_fit rounds) e valid chain enough)
      ]
