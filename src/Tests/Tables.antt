-- ===== src/Tests/Tables.antt =====
-- A table of sixteen cells with four probes and generations of eight bits.
use bolts_rebuilt.Prelude.{ℕ, ◌≡◌, ◌⊎◌, true, false, none, some, arith, ◌==◌, if◌then◌else◌}
use bolts_rebuilt.AssetTable.{Table, new_table, find, store, clear}
use bolts_rebuilt.AssetTable.Contents.{
  value_of, IsValid, put, store-find, clear-find, new_table-find,
}

abbrev blank : Table ℕ
blank = new_table 0

blank-IsValid : IsValid 16 4 8 blank
blank-IsValid = (new_table-find 16 4 8 0 0 (omega arith) (omega arith)).1

store-find_example :
    ((store 16 blank (find 16 4 blank 77) 5 ≡ (false, blank)) × ((find 16 4 blank 77).slot ≡ 16)
      ⊎ ((store 16 blank (find 16 4 blank 77) 5).0 ≡ true)
        × (value_of 16 4 8 (put 16 4 8 blank 77 5) 77
            ≡ (if 77 == 77 then some 5 else value_of 16 4 8 blank 77)))
    × IsValid 16 4 8 (put 16 4 8 blank 77 5)
store-find_example = store-find 16 4 8 blank 77 5 77 (omega arith) blank-IsValid

clear-find_example :
    (value_of 16 4 8 (clear 16 8 (put 16 4 8 blank 77 5)).1 77 ≡ none)
    × IsValid 16 4 8 (clear 16 8 (put 16 4 8 blank 77 5)).1
clear-find_example =
    clear-find 16 4 8 (put 16 4 8 blank 77 5) 77 (omega arith) (omega arith)
      (store-find 16 4 8 blank 77 5 77 (omega arith) blank-IsValid).1
