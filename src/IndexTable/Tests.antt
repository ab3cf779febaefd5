-- ===== src/IndexTable/Tests.antt =====
-- The theorems on the index table at a concrete table.
use checks.Prelude.{ℕ, ◌≡◌, ◌&&◌, ltb, ◌==◌, if◌then◌else◌, some, [], ◌∷◌, arith}
use checks.IndexTable.{IndexTable, indextable_set, indextable_get}
use checks.IndexTable.Count.{IsValid, indextable_set_lem}

abbrev slots : IndexTable
slots = record { items = some (0 ∷ 5 ∷ 0 ∷ []); count = 1; capacity = 3 }

indextable_set_lem_example :
    IsValid (indextable_set slots 9 2)
    × ((j : ℕ)
        → indextable_get (indextable_set slots 9 2) j
          ≡ (if (2 == j) && ltb 2 3 then 9 else indextable_get slots j))
indextable_set_lem_example = indextable_set_lem slots 9 2 (omega arith)
