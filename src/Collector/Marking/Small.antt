-- ===== src/Collector/Marking/Small.antt =====
-- The small object space as a graph's objects: which object a pointer points into, and what the
-- marking may change in the blocks and in the object headers.
use gc.Base.{
  ℕ, ◌+◌, ◌-◌, ◌*◌, ◌/◌, ◌%◌, ◌≤◌, ◌<◌, ◌≡◌, ◌≢◌, ◌⊎◌, refl, ◌∙◌, Bool, true, false, word_mod,
  arith, ◌==◌, Bool-cases, inl, inr, ==_iff,
}
use gc.Hash.{Hash}
use gc.Object.{Object, object_header}
use gc.LineHeader
use gc.LineHeader.{line_size, contains_object}
use gc.LineHeader.Laws.{offset_bits, mark_lem}
use gc.Block
use gc.Block.{Block, Blocks, block_size, line_count, set_line_header}
use gc.GlobalAllocator.{GlobalAllocator}
use gc.Collector.Small.{large_object_size}
use gc.Collector.Marking.LargeSpace.{Space}

-- The address of a line.
abbrev pub line_at : ℕ → ℕ → ℕ
line_at block i = block + line_size + i * line_size

-- The object at `q` is one of those that stand one behind another in the line from an offset on; the
-- first of size 0 and the end of the line stop them.
pub data Walk (sizes : ℕ → ℕ) (line q : ℕ) : ℕ → Type 0 where
  first : {o : ℕ} → o < line_size → q ≡ line + o → sizes q ≢ 0 → Walk sizes line q o
  later :
      {o : ℕ}
      → o < line_size
      → sizes (line + o) ≢ 0
      → Walk sizes line q (o + sizes (line + o))
      → Walk sizes line q o

pub Walk-le : {sizes : ℕ → ℕ} {line q o : ℕ} → Walk sizes line q o → line + o ≤ q
Walk-le (first h e size) = omega arith
Walk-le (later h size w) = omega (arith, Walk-le w)

pub Walk-ne_zero : {sizes : ℕ → ℕ} {line q o : ℕ} → Walk sizes line q o → sizes q ≢ 0
Walk-ne_zero (first h e size) = size
Walk-ne_zero (later h size w) = Walk-ne_zero w

-- The pointer lies in the program's part of an object of that size.
abbrev pub Covers : ℕ → ℕ → ℕ → Type 0
Covers q size pointer = (q + object_header ≤ pointer) × (pointer < q + size)

-- Which lines of which blocks have an object that starts in them, and where the first one does.
module _ (blocks : Blocks) where
  abbrev pub starts_of : ℕ → ℕ → Bool
  starts_of block i = contains_object ((blocks block).line_headers i)

  abbrev pub offsets_of : ℕ → ℕ → ℕ
  offsets_of block i = offset_bits ((blocks block).line_headers i)

abbrev pub sizes_of : (ℕ → Object) → ℕ → ℕ
sizes_of objects q = (objects q).size

-- The block that an address lies in.
abbrev pub block_of : ℕ → ℕ
block_of pointer = pointer / block_size * block_size

module _ (starts : ℕ → ℕ → Bool) (offsets : ℕ → ℕ → ℕ) where
  abbrev pub first_object : ℕ → ℕ → ℕ
  first_object block i = line_at block i + offsets block i

  -- Of the lines of the block that have a first object at or in front of the pointer, `i` is the last.
  pub record Origin (block pointer i : ℕ) : Type 0 where
    pub within : i < line_count
    pub has : starts block i ≡ true
    pub reached : first_object block i ≤ pointer
    pub nearest :
        (j : ℕ) → i < j → j < line_count → starts block j ≡ true → pointer < first_object block j

  -- The object at `q` covers the pointer, and stands in the line of the last first object in front of
  -- the pointer.
  pub record Found (sizes : ℕ → ℕ) (q pointer : ℕ) : Type 0 where
    pub index : ℕ
    pub origin : Origin (block_of pointer) pointer index
    pub walk : Walk sizes (line_at (block_of pointer) index) q (offsets (block_of pointer) index)
    pub covers : Covers q (sizes q) pointer

-- The block differs in its marks, and at most in those.
pub record Relined (b b' : Block) : Type 0 where
  pub flag : b'.flag ≡ b.flag
  pub first_free : b'.first_free_line_index ≡ b.first_free_line_index
  pub next : b'.next ≡ b.next
  pub same_starts :
      (i : ℕ) → contains_object (b'.line_headers i) ≡ contains_object (b.line_headers i)
  pub same_offsets : (i : ℕ) → offset_bits (b'.line_headers i) ≡ offset_bits (b.line_headers i)
  pub bytes : (i : ℕ) → b'.line_headers i < 256

pub Relined-trans : {a b c : Block} → Relined a b → Relined b c → Relined a c
Relined-trans r s = record {
  flag = s.flag ∙ r.flag;
  first_free = s.first_free ∙ r.first_free;
  next = s.next ∙ r.next;
  same_starts = λ i. s.same_starts i ∙ r.same_starts i;
  same_offsets = λ i. s.same_offsets i ∙ r.same_offsets i;
  bytes = s.bytes;
}

-- Marking one line of a block keeps its object bits.
pub Relined-mark_line :
    (b : Block) (i : ℕ)
    → ((j : ℕ) → b.line_headers j < 256)
    → Relined b (set_line_header b i (LineHeader.mark (b.line_headers i)))
unfolding set_line_header
Relined-mark_line b i bytes = record {
  flag = refl;
  first_free = refl;
  next = refl;
  same_starts = λ j. elim (Bool-cases (j == i)) [
    | inl same ↦ rw same (rw ((==_iff j i).0 same) ((mark_lem (b.line_headers i) (bytes i)).1))
    | inr other ↦ rw other refl
  ];
  same_offsets = λ j. elim (Bool-cases (j == i)) [
    | inl same ↦ rw same (rw ((==_iff j i).0 same) ((mark_lem (b.line_headers i) (bytes i)).2))
    | inr other ↦ rw other refl
  ];
  bytes = λ j. elim (Bool-cases (j == i)) [
    | inl same ↦ rw same ((mark_lem (b.line_headers i) (bytes i)).3)
    | inr other ↦ rw other (bytes j)
  ];
}

-- No line that is free for the recycling meets the bytes of the object, whose block is marked.
pub record Shielded (b : Block) (block q size : ℕ) : Type 0 where
  pub block_marked : Block.is_marked b ≡ true
  pub lines :
      (j : ℕ)
      → 0 < j
      → j < line_count
      → LineHeader.is_marked (b.line_headers j) ≡ false
      → LineHeader.is_marked (b.line_headers (j - 1)) ≡ false
      → (q + size ≤ line_at block j) ⊎ (line_at block j + line_size ≤ q)

-- Marks are only added.
pub record Rising (b b' : Block) : Type 0 where
  pub keeps_block : Block.is_marked b ≡ true → Block.is_marked b' ≡ true
  pub keeps_lines :
      (j : ℕ)
      → LineHeader.is_marked (b.line_headers j) ≡ true
      → LineHeader.is_marked (b'.line_headers j) ≡ true

pub Rising-trans : {a b c : Block} → Rising a b → Rising b c → Rising a c
Rising-trans r s = record {
  keeps_block = λ e. s.keeps_block (r.keeps_block e);
  keeps_lines = λ j e. s.keeps_lines j (r.keeps_lines j e);
}

not_before : {a b : Bool} → (a ≡ true → b ≡ true) → b ≡ false → a ≡ false
not_before {a} up e = elim (Bool-cases a) [ inl set ↦ cc (up set) | inr clear ↦ clear ]

pub Shielded-Rising :
    {b b' : Block} (block q size : ℕ)
    → Rising b b'
    → Shielded b block q size
    → Shielded b' block q size
Shielded-Rising block q size up s = record {
  block_marked = up.keeps_block s.block_marked;
  lines = λ j pos short e e'.
      s.lines j pos short (not_before (up.keeps_lines j) e)
        (not_before (up.keeps_lines (j - 1)) e');
}

pub Rising-mark_line :
    (b : Block) (i : ℕ)
    → ((j : ℕ) → b.line_headers j < 256)
    → Rising b (set_line_header b i (LineHeader.mark (b.line_headers i)))
unfolding set_line_header Block.is_marked
Rising-mark_line b i bytes = record {
  keeps_block = λ e. e;
  keeps_lines = λ j e. elim (Bool-cases (j == i)) [
    | inl same ↦ rw same ((mark_lem (b.line_headers i) (bytes i)).0)
    | inr other ↦ rw other e
  ];
}

-- The small space as it was when the marking began: its blocks, its object headers, the table of
-- finalizers, and which addresses are those of objects. It lies apart from the large space; its objects are not large, and end inside their blocks.
pub record SmallSpace {fuel : ℕ} (space : Space fuel) : Type 0 where
  pub blocks : Blocks
  pub objects : ℕ → Object
  pub is_object : ℕ → Bool
  pub finalizers : Hash
  pub aligned : space.small_start % block_size ≡ 0
  pub room : space.small_stop + 2 * block_size ≤ word_mod
  pub apart : (space.small_stop ≤ space.start) ⊎ (space.stop ≤ space.small_start)
  pub objects_lem :
      (block i q : ℕ)
      → block % block_size ≡ 0
      → space.small_start ≤ block
      → block < space.small_stop
      → i < line_count
      → starts_of blocks block i ≡ true
      → Walk (sizes_of objects) (line_at block i) q (offsets_of blocks block i)
      → is_object q ≡ true
  pub walked :
      (q : ℕ)
      → is_object q ≡ true
      → (block : ℕ) × (i : ℕ) × (block % block_size ≡ 0)
        × (space.small_start ≤ block)
        × (block < space.small_stop)
        × (i < line_count)
        × (starts_of blocks block i ≡ true)
        × Walk (sizes_of objects) (line_at block i) q (offsets_of blocks block i)
  pub limit : (q : ℕ) → is_object q ≡ true → (objects q).size ≤ large_object_size
  pub ends : (q : ℕ) → is_object q ≡ true → q + (objects q).size ≤ block_of q + block_size

module _ {fuel : ℕ} {space : Space fuel} (small : SmallSpace space) where
  abbrev pub PointsSmall : ℕ → ℕ → Type 0
  PointsSmall = Found (starts_of small.blocks) (offsets_of small.blocks) (sizes_of small.objects)

  -- The heap has that small space, with any marks.
  pub record IsSmall (heap : GlobalAllocator) : Type 0 where
    pub sizes : (q : ℕ) → (heap.objects q).size ≡ (small.objects q).size
    pub atomics : (q : ℕ) → (heap.objects q).atomic ≡ (small.objects q).atomic
    pub relined : (block : ℕ) → Relined (small.blocks block) (heap.blocks block)
