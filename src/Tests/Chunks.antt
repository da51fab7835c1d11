-- ===== src/Tests/Chunks.antt =====
-- A large object space of three chunks: one marked, one free, one allocated that is not marked.
use gc.Base.{ℕ, ◌+◌, refl, [], ◌∷◌, ◌++◌, arith, ◌==◌, if◌then◌else◌, Returns}
use gc.Chunk
use gc.Chunk.{Chunk, Chunks, write}
use gc.ChunkList.{ChunkList, find, validate, sweep, push, split}
use gc.ChunkList.Layout.{Cell, Cells, extent, IsLayout, Rewrites}
use gc.ChunkList.Find.{Found, find-Found}
use gc.ChunkList.Validate.{IsSound, Decides, validate-Decides}
use gc.ChunkList.Split.{free_cell, cut, split-Rewrites}
use gc.ChunkList.Push.{push-IsLayout}
use gc.ChunkList.Sweep.{swept}
use gc.ChunkList.Sweep.Loop.{sweep-swept}
use gc.ChunkList.Sweep.Collected.{Collected, sweep-Collected}

abbrev pub base : ℕ
base = 0x100000

abbrev pub end : ℕ
end = 0x100000 + 320

abbrev live : Cell
live = record { allocated = 1; object = record { size = 48; marked = 1; atomic = 0 } }

abbrev hole : Cell
hole = record { allocated = 0; object = record { size = 112; marked = 0; atomic = 0 } }

abbrev dead : Cell
dead = record { allocated = 1; object = record { size = 112; marked = 0; atomic = 1 } }

abbrev pub three : Cells
three = live ∷ hole ∷ dead ∷ []

abbrev memory : Chunks
memory p =
    if p == base
    then record { next = base + 64; allocated = 1; object = live.object }
    else if p == base + 64
    then record { next = base + 192; allocated = 0; object = hole.object }
    else record { next = 0; allocated = 1; object = dead.object }

abbrev pub heap : ChunkList
heap = record { chunks = memory; first = base; last = base + 192; size = 3 }

pub heap-IsLayout : IsLayout heap three base end
heap-IsLayout = record {
  positive = omega arith;
  bounded = omega arith;
  tiles = (refl, omega arith, (refl, omega arith, (refl, omega arith, refl)));
  first = refl;
  last = refl;
  size = refl;
}

sweep-Collected_example :
    Returns (sweep 4 heap) λ s'. (cs' : Cells) × IsLayout s' cs' base end × Collected base three cs'
sweep-Collected_example = sweep-Collected 4 heap-IsLayout (omega arith) (omega arith)

sweep-swept_example : Returns (sweep 4 heap) λ s'. IsLayout s' (swept three) base end
sweep-swept_example = sweep-swept 4 heap-IsLayout (omega arith) (omega arith)

find-Found_example : Returns (find 4 heap (base + 100)) (Found base three (base + 100))
find-Found_example = find-Found 4 (base + 100) heap-IsLayout (omega arith)

-- The list ends 16 bytes in front of that stop.
validate-Decides_example :
    Decides
      (IsSound heap (end + 16) (base ∷ (base + 64) ∷ (base + 192) ∷ []))
      (validate 4 heap (end + 16))
validate-Decides_example =
    validate-Decides heap 4 (end + 16) (base ∷ (base + 64) ∷ (base + 192) ∷ [])
      (
        refl,
        omega arith,
        omega arith,
        (refl, omega arith, omega arith, (refl, omega arith, omega arith, refl)),
      )
      (omega arith) (omega arith)

push-IsLayout_example :
    IsLayout
      (push (record heap { chunks = write heap.chunks end (Chunk.init 240) }) end)
      (three ++ free_cell 240 ∷ [])
      base
      (end + extent (free_cell 240))
push-IsLayout_example = push-IsLayout 240 heap-IsLayout (omega arith) (omega arith)

split-Rewrites_example :
    Returns
      (split heap (base + 64) 48)
      λ r. Rewrites heap r.0 (base + 64) (hole ∷ dead ∷ []) (cut hole 48 (dead ∷ [])) end
split-Rewrites_example =
    split-Rewrites heap (base + 64) end hole 48 (dead ∷ []) (omega arith) (omega arith)
      (omega arith) (omega arith) (refl, omega arith, (refl, omega arith, refl)) refl
