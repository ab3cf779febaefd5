-- ===== src/IndexTable/Count.antt =====
-- The count of the index table of src/utils/src/vector.c, and what its slots hold.
use checks.Prelude.{
  ℕ, zero, suc, ◌+◌, ◌*◌, ◌/◌, ◌%◌, ◌^◌, ◌<◌, ◌≤◌, ◌≡◌, refl, ap, sym, ◌∙◌, Option, none, some,
  List, [], ◌∷◌, leb, ltb, ◌&&◌, ◌==◌, Bool-cases, inl, inr, if◌then◌else◌, set, replicate, length,
  length-set, length-replicate, arith,
}
use checks.IndexTable.{IndexTable, item, recount, indextable_set, indextable_get, indextable_init}

-- The number of slots that are not NULL.
abbrev pub occupied : List ℕ → ℕ
occupied [] = 0
occupied (x ∷ xs) = (if x == 0 then 0 else 1) + occupied xs

-- The block has a slot for each index, and the count is that of the slots in use.
abbrev pub Counts : Option (List ℕ) → ℕ → ℕ → Type 0
Counts none count capacity = (count ≡ 0) × (capacity ≡ 0)
Counts (some items) count capacity =
    (length items ≡ capacity) × (count ≡ occupied items) × (capacity < 2 ^ 61)

abbrev pub IsValid : IndexTable → Type 0
IsValid t = Counts t.items t.count t.capacity

occupied-le-length : (xs : List ℕ) → occupied xs ≤ length xs
occupied-le-length [] = omega arith
occupied-le-length (x ∷ xs) = ground (arith, occupied-le-length xs)

occupied-set :
    (xs : List ℕ) (i v : ℕ)
    → i < length xs
    → occupied (set xs i v) + (if item xs i == 0 then 0 else 1)
      ≡ occupied xs + (if v == 0 then 0 else 1)
occupied-set [] i v h = absurd (omega arith)
occupied-set (x ∷ xs) zero v h = ground arith
occupied-set (x ∷ xs) (suc i) v h = ground (arith, occupied-set xs i v)

occupied-replicate : (n : ℕ) → occupied (replicate n 0) ≡ 0
occupied-replicate zero = refl
occupied-replicate (suc n) = omega (arith, occupied-replicate n)

item-set :
    (xs : List ℕ) (i j v : ℕ)
    → i < length xs
    → item (set xs i v) j ≡ (if i == j then v else item xs j)
item-set [] i j v h = absurd (omega arith)
item-set (x ∷ xs) zero zero v h = refl
item-set (x ∷ xs) zero (suc j) v h = ground arith
item-set (x ∷ xs) (suc i) zero v h = ground arith
item-set (x ∷ xs) (suc i) (suc j) v h = ground (arith, item-set xs i j v)

recount-occupied :
    (xs : List ℕ) (i v : ℕ)
    → i < length xs
    → length xs < 2 ^ 61
    → recount (occupied xs) (item xs i) v ≡ occupied (set xs i v)
unfolding recount
recount-occupied xs i v h b = ground (
  arith,
  occupied-set xs i v,
  occupied-le-length xs,
  occupied-le-length (set xs i v),
  length-set xs i v,
)

set-items :
    (items : Option (List ℕ)) (count capacity value index : ℕ)
    → Counts items count capacity
    → IsValid
        (indextable_set (record { items = items; count = count; capacity = capacity }) value index)
unfolding indextable_set
set-items none count capacity value index h = h
set-items (some xs) count capacity value index h = elim (Bool-cases (leb capacity index)) [
  | inl e ↦ rw e h
  | inr e ↦
      let i : index < length xs = ground arith in
      let c : recount count (item xs index) value ≡ occupied (set xs index value) =
        ap (λ n. recount n (item xs index) value) h.1
        ∙ recount-occupied xs index value i (omega arith) in
      rw e (length-set xs index value ∙ h.0, c, h.2)
]

item-replicate : (n j : ℕ) → item (replicate n 0) j ≡ 0
item-replicate zero j = refl
item-replicate (suc n) zero = refl
item-replicate (suc n) (suc j) = item-replicate n j

get-items :
    (items : Option (List ℕ)) (count capacity value index : ℕ)
    → Counts items count capacity
    → (j : ℕ)
    → let t : IndexTable = record { items = items; count = count; capacity = capacity } in
      indextable_get (indextable_set t value index) j
      ≡ (if (index == j) && ltb index capacity then value else indextable_get t j)
unfolding indextable_set indextable_get
get-items none count capacity value index h j = ground arith
get-items (some xs) count capacity value index h j = elim (Bool-cases (leb capacity index)) [
  | inl e ↦ rw e (ground arith)
  | inr e ↦ rw e (ground (arith, item-set xs index j value))
]

-- A write to a slot of a valid table keeps the count that of the slots that are not NULL, whatever the
-- slot held and whatever is written, and an index out of bounds too; and a read gives the value just
-- written at its index where that is in bounds, and at any other index what it gave before.
-- Condition: the table is valid, with less than 2 ^ 61 slots.
pub indextable_set_lem :
    (t : IndexTable) (value index : ℕ)
    → IsValid t
    → IsValid (indextable_set t value index)
      × ((j : ℕ)
          → indextable_get (indextable_set t value index) j
            ≡ (if (index == j) && ltb index t.capacity then value else indextable_get t j))
indextable_set_lem t value index h = (
  set-items t.items t.count t.capacity value index h,
  get-items t.items t.count t.capacity value index h,
)

-- A fresh table is valid and every read of it gives NULL, also where `malloc` fails. Condition: less
-- than 2 ^ 61 slots, so that the size in bytes does not wrap.
pub indextable_init-IsValid :
    (allocated : Option (Unit {0})) (capacity : ℕ)
    → capacity < 2 ^ 61
    → IsValid (indextable_init allocated capacity)
      × ((j : ℕ) → indextable_get (indextable_init allocated capacity) j ≡ 0)
unfolding indextable_init indextable_get
indextable_init-IsValid none capacity h = ((refl, refl), λ j. refl)
indextable_init-IsValid (some tt) capacity h =
    let n : 8 * capacity % 2 ^ 64 / 8 ≡ capacity = omega arith in
    (
      (length-replicate (8 * capacity % 2 ^ 64 / 8) 0 ∙ n, sym (occupied-replicate _), h),
      λ j. ground (arith, item-replicate (8 * capacity % 2 ^ 64 / 8) j),
    )
