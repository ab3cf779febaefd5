-- ===== src/IndexTable.antt =====
-- The index table of src/utils/src/vector.c and src/utils/include/vector.h. A pointer is a number, 0
-- is NULL, and the items are the slots of the block, `none` where `items` is NULL.
pub mod Count
mod Tests
use checks.Prelude.{
  ℕ, zero, suc, ◌+◌, ◌-◌, ◌*◌, ◌/◌, ◌%◌, ◌^◌, Option, none, some, List, [], ◌∷◌, leb, ltb, not,
  ◌==◌, if◌then◌else◌, set, replicate,
}

-- `index_table`.
pub record IndexTable : Type 0 where
  pub items : Option (List ℕ)
  pub count : ℕ
  pub capacity : ℕ

-- `items[index]`; the callers check the index.
abbrev pub item : List ℕ → ℕ → ℕ
item [] index = 0
item (x ∷ xs) zero = x
item (x ∷ xs) (suc index) = item xs index

-- The new count, a `size_t`, to which -1 is added as 2 ^ 64 - 1.
unfoldable pub recount : ℕ → ℕ → ℕ → ℕ
recount count old new =
    if old == 0
    then (if new == 0 then count else (count + 1) % 2 ^ 64)
    else if new == 0
    then (count + (2 ^ 64 - 1)) % 2 ^ 64
    else count

-- `indextable_set`.
unfoldable pub indextable_set : IndexTable → ℕ → ℕ → IndexTable
unfolding recount
indextable_set t value index = elim t.items [
  | none ↦ t
  | some items ↦ if leb t.capacity index then t else record t {
    items = some (set items index value);
    count = recount t.count (item items index) value;
  }
]

-- `indextable_get`.
unfoldable pub indextable_get : IndexTable → ℕ → ℕ
indextable_get t index = elim t.items [
  | none ↦ 0
  | some items ↦ if leb t.capacity index then 0 else item items index
]

-- `indextable_init`, where `allocated` tells whether `malloc` returns a block. The size in bytes wraps
-- as a `size_t`.
unfoldable pub indextable_init : Option (Unit {0}) → ℕ → IndexTable
indextable_init none capacity = record { items = none; count = 0; capacity = 0 }
indextable_init (some allocated) capacity = record {
  items = some (replicate (8 * capacity % 2 ^ 64 / 8) 0);
  count = 0;
  capacity = capacity;
}

-- `indextable_exit`.
unfoldable pub indextable_exit : IndexTable → IndexTable
indextable_exit t = record { items = none; count = 0; capacity = 0 }
