-- ===== src/Rbt/Tests.antt =====
-- Runs of the red-black tree, and its theorems at concrete trees.
use checks.Prelude.{ℕ, ◌≡◌, refl, Bool, true, false, Option, none, some, ◌==◌, if◌then◌else◌, arith}
use checks.Rbt.{Node, Rbt, Run, ok, fault, endless, rbt_init, right_rotate, left_rotate}
use checks.Rbt.Insert.{insert}
use checks.Rbt.Delete.{find, delete}
use checks.Rbt.Search.{ask}
use checks.Rbt.Lost.{HasRoot, IsFresh, insert-lost}
use checks.Rbt.Tree.{Tree, leaf, branch, inorder, Holds, Turned}
use checks.Rbt.RightRotate.{right_rotate-Holds}
use checks.Rbt.LeftRotate.{left_rotate-Holds}

-- Memory whose nodes have the sentinel, at 1, for links, and the key 7.
abbrev blank : Node
blank = record { parent = 1; right = 1; left = 1; key = 7; payload = 0; red = false }

abbrev empty : Rbt
empty = record { head = 1; sentinel = 1; heap = λ p. blank }

-- The root at 2 with the key 20.
abbrev single : Rbt
single = record {
  head = 2;
  sentinel = 1;
  heap = λ p. if p == 2 then record blank { parent = 0; key = 20 } else blank;
}

-- A black root at 2 with the red children 3 and 4.
abbrev three : Rbt
three = record {
  head = 2;
  sentinel = 1;
  heap = λ p.
      if p == 2
      then record blank { parent = 0; left = 3; right = 4; key = 20 }
      else if p == 3
      then record blank { parent = 2; key = 10; red = true }
      else if p == 4
      then record blank { parent = 2; key = 30; red = true }
      else blank;
}

-- What a run returns, with the key and the colour of the root behind it.
abbrev summary : {A : Type 0} → Run A → Option (A × ℕ × Bool)
summary (ok a r) = some (a, (r.heap r.head).key, (r.heap r.head).red)
summary fault = none
summary endless = none

init_runs : summary (rbt_init 5 empty) ≡ some (true, 7, false)
unfolding rbt_init
init_runs = refl

delete_inner : summary (delete 5 20 three) ≡ some (some 4, 30, false)
unfolding delete
delete_inner = refl

delete_leaf : summary (delete 5 10 three) ≡ some (some 3, 20, false)
unfolding delete
delete_leaf = refl

rotate_runs : summary (right_rotate 2 three) ≡ some (3, 10, true)
unfolding right_rotate
rotate_runs = refl

find_misses : find 2 30 2 single ≡ ok 1 single
unfolding find
find_misses = refl

find_misses_seven : find 2 7 2 single ≡ ok 1 single
unfolding find
find_misses_seven = refl

single-HasRoot : HasRoot single
single-HasRoot = record { nonempty = omega arith; exists = omega arith; black = refl }

single-IsFresh : IsFresh single 3
single-IsFresh = record {
  new = omega arith;
  apart = omega arith;
  other = omega arith;
  left = λ p n. ground arith;
  right = λ p n. ground arith;
}

insert-lost_example :
    (r' : Rbt) × (insert 3 3 30 99 single ≡ ok 3 r')
    × ((n k : ℕ) → ask (find n k r'.head r') ≡ ask (find n k 2 single))
    × (delete 2 30 r' ≡ ok none r')
insert-lost_example =
    insert-lost 2 single 3 30 99 single-HasRoot single-IsFresh (omega arith) find_misses

-- The root 3 with the left child 2, whose right child is 4.
abbrev leaning_left : Rbt
leaning_left = record {
  head = 3;
  sentinel = 1;
  heap = λ p. record {
    parent = if p == 3 then 0 else if p == 2 then 3 else if p == 4 then 2 else 1;
    right = if p == 2 then 4 else 1;
    left = if p == 3 then 2 else 1;
    key = p;
    payload = 0;
    red = false;
  };
}

-- The root 2 with the right child 3, whose left child is 4.
abbrev leaning_right : Rbt
leaning_right = record {
  head = 2;
  sentinel = 1;
  heap = λ p. record {
    parent = if p == 2 then 0 else if p == 3 then 2 else if p == 4 then 3 else 1;
    right = if p == 2 then 3 else 1;
    left = if p == 3 then 4 else 1;
    key = p;
    payload = 0;
    red = false;
  };
}

abbrev four : Tree
four = branch leaf 4 leaf

right_rotate-Holds_example :
    (r' : Rbt) × (right_rotate 3 leaning_left ≡ ok 2 r')
    × Holds r'.heap 1 2 (branch leaf 2 (branch four 3 leaf))
    × (inorder (branch leaf 2 (branch four 3 leaf)) ≡ inorder (branch (branch leaf 2 four) 3 leaf))
    × Turned leaning_left r' 3 2
right_rotate-Holds_example =
    right_rotate-Holds leaning_left 3 2 leaf four leaf (omega arith) (omega arith) (omega arith)
      (omega arith) (omega arith) (omega arith) (omega arith)

left_rotate-Holds_example :
    (r' : Rbt) × (left_rotate 2 leaning_right ≡ ok 3 r')
    × Holds r'.heap 1 3 (branch (branch leaf 2 four) 3 leaf)
    × (inorder (branch (branch leaf 2 four) 3 leaf) ≡ inorder (branch leaf 2 (branch four 3 leaf)))
    × Turned leaning_right r' 2 3
left_rotate-Holds_example =
    left_rotate-Holds leaning_right 2 3 leaf four leaf (omega arith) (omega arith) (omega arith)
      (omega arith) (omega arith) (omega arith) (omega arith)
