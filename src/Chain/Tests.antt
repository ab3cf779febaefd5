-- ===== src/Chain/Tests.antt =====
-- Runs of the circular lists, and their theorems at a concrete list.
use checks.Prelude.{◌≡◌, refl, [], ◌∷◌, ◌==◌, if◌then◌else◌, true, false, arith}
use checks.Chain.{Memory, init_list_head, list_del, list_empty, is_linked}
use checks.Chain.Ring.{Ring}
use checks.Chain.Delete.{list_del-Ring}

abbrev zeroed : Memory
zeroed a = record { next = 0; prev = 0 }

-- The head 1 with the entries 2 and 3.
abbrev two : Memory
two a =
    if a == 1
    then record { next = 2; prev = 3 }
    else if a == 2
    then record { next = 3; prev = 1 }
    else record { next = 1; prev = 2 }

init_is_empty : list_empty 1 (init_list_head 1 zeroed) ≡ true
unfolding list_empty init_list_head
init_is_empty = refl

deleted_is_not_linked : is_linked 2 (list_del 2 two) ≡ false
unfolding is_linked list_del
deleted_is_not_linked = refl

two-Ring : Ring two 1 (2 ∷ 3 ∷ [])
two-Ring = omega arith

list_del-Ring_example : Ring (list_del 2 two) 1 (3 ∷ []) × (is_linked 2 (list_del 2 two) ≡ false)
list_del-Ring_example = list_del-Ring two 1 2 [] (3 ∷ []) two-Ring (omega arith) (omega arith)
