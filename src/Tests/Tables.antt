-- ===== src/Tests/Tables.antt =====
-- A table of eight entries, with one of them in use.
use gc.Base.{
  ℕ, ◌+◌, ◌^◌, ◌≤◌, ltb, ◌≡◌, refl, sym, ◌∙◌, inl, inr, Bool-cases, ==_iff, true, false, arith,
  ◌==◌, if◌then◌else◌, Returns,
}
use gc.Hash.{Hash, Entry, allocated, zeroed, probe, free_or, insert, delete, resize}
use gc.Hash.Probe.{probe-hits}
use gc.Hash.Insert.{IsTable, Holds, Inserted}
use gc.Hash.Growth.{insert-Inserted}
use gc.Hash.Count.{IsDistinct}
use gc.Hash.Resize.{Resized, resize-Resized}
use gc.Hash.Delete.{Deleted, delete-Deleted}

abbrev entries : ℕ → Entry
entries i = if i == 3 then record { status = allocated; key = 11; value = 30 } else zeroed i

abbrev table : Hash
table = record { is_null = false; entries = entries; mask = 7; used = 1; deleted = 0 }

-- Every key has the hash 3.
abbrev hash : ℕ → ℕ
hash key = 3

table-IsTable : IsTable table
table-IsTable = record {
  bits = 3;
  small = omega arith;
  power = refl;
  spare = 0;
  inside = omega arith;
  is_spare = refl;
}

table-Holds : Holds hash 8 table 11 30
unfolding probe
table-Holds = record { at = 3; stops = refl; is_set = refl; is_key = refl; is_value = refl }

probe-hits_example :
    Returns (probe 8 (free_or 19) entries 7 3 1) λ at. (at ≤ 7) × (free_or 19 (entries at) ≡ true)
probe-hits_example =
    probe-hits (free_or 19) entries 7 3 3 (omega arith) refl 8 0 (omega arith) refl (omega arith)

delete-Deleted_example : Returns (delete hash 8 table 11) (Deleted hash 8 table 11 30)
delete-Deleted_example = delete-Deleted hash 8 table 11 30 table-Holds (omega arith) (omega arith)

only_three : (i : ℕ) → (entries i).status ≡ allocated → i ≡ 3
only_three i set = elim (Bool-cases (i == 3)) [
  | inl same ↦ (==_iff i 3).0 same
  | inr other ↦ let empty = rw other at set in cc
]

entries-IsDistinct : IsDistinct entries
entries-IsDistinct i j ne set set' = absurd (ne (only_three i set ∙ sym (only_three j set')))

resize-Resized_example : Returns (resize hash (2 ^ 63) table 16) (Resized hash (2 ^ 63) table 16)
resize-Resized_example =
    resize-Resized hash (2 ^ 63) table 16 refl entries-IsDistinct (omega arith) (omega arith)
      (omega arith)

-- Six of eight entries in use: an insertion doubles the table.
abbrev full_entries : ℕ → Entry
full_entries i =
    if ltb i 6 then record { status = allocated; key = i; value = i + 10 } else zeroed i

abbrev full_table : Hash
full_table = record { is_null = false; entries = full_entries; mask = 7; used = 6; deleted = 0 }

own_key : (i : ℕ) → (full_entries i).status ≡ allocated → (full_entries i).key ≡ i
own_key i set = elim (Bool-cases (ltb i 6)) [
  | inl below ↦ rw below refl
  | inr past ↦ let empty = rw past at set in cc
]

full_entries-IsDistinct : IsDistinct full_entries
full_entries-IsDistinct i j ne set set' same = ne (sym (own_key i set) ∙ same ∙ own_key j set')

full_table-IsTable : IsTable full_table
full_table-IsTable = record {
  bits = 3;
  small = omega arith;
  power = refl;
  spare = 7;
  inside = omega arith;
  is_spare = refl;
}

insert-Inserted_example :
    Returns (insert hash (2 ^ 63) full_table 19 40) λ t. Inserted hash (2 ^ 63) full_table t 19 40
insert-Inserted_example =
    insert-Inserted hash (2 ^ 63) full_table 19 40 full_table-IsTable refl full_entries-IsDistinct
      (omega arith) (omega arith) (omega arith) (omega arith)
