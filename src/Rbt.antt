-- ===== src/Rbt.antt =====
-- The red-black tree of project/core/opium_rbt.c and opium_rbt.h, over an explicit heap of nodes.
-- A pointer is an address, 0 is NULL, and a read or write through NULL is a fault. The memory of a
-- node stays readable when its slot is given back.
pub mod Insert
pub mod Delete
pub mod Search
pub mod Lost
pub mod Root
pub mod Tree
pub mod RightRotate
pub mod LeftRotate
mod Tests
use checks.Prelude.{ℕ, zero, suc, Bool, true, false, not, ◌||◌, ltb, ◌==◌, if◌then◌else◌}

abbrev pub Ptr : Type 0
Ptr = ℕ

abbrev pub null : Ptr
null = 0

-- `opium_rbt_node_s`; the colour is 1 for red.
pub record Node : Type 0 where
  pub parent : Ptr
  pub right : Ptr
  pub left : Ptr
  pub key : ℕ
  pub payload : Ptr
  pub red : Bool

-- `opium_rbt_s`, with the memory of its nodes.
pub record Rbt : Type 0 where
  pub head : Ptr
  pub sentinel : Ptr
  pub heap : Ptr → Node

pub data Run (A : Type 0) : Type 0 where
  ok : A → Rbt → Run A
  fault : Run A
  endless : Run A

abbrev pub Cmd : Type 0 → Type 0
Cmd A = Rbt → Run A

abbrev pub pure : {A : Type 0} → A → Cmd A
pure = ok

module _ {A B : Type 0} where
  abbrev pub and_then : Run A → (A → Cmd B) → Run B
  and_then (ok a r) k = k a r
  and_then fault k = fault
  and_then endless k = endless

  infixl 5 ◌>>=◌ ◌>>◌
  abbrev pub ◌>>=◌ : Cmd A → (A → Cmd B) → Cmd B
  m >>= k = λ r. and_then (m r) k

  abbrev pub ◌>>◌ : Cmd A → Cmd B → Cmd B
  m >> n = m >>= λ _. n

abbrev pub Done : Type 0
Done = Unit {0}

abbrev pub update : (Ptr → Node) → Ptr → Node → Ptr → Node
update heap p n q = if q == p then n else heap q

-- `*p`.
unfoldable pub load : Ptr → Cmd Node
load p r = if p == null then fault else ok (r.heap p) r

-- A write of fields of `*p`.
unfoldable pub modify : Ptr → (Node → Node) → Cmd Done
modify p f r =
    if p == null then fault else ok tt (record r { heap = update r.heap p (f (r.heap p)) })

abbrev pub get_head : Cmd Ptr
get_head r = ok r.head r

abbrev pub get_sentinel : Cmd Ptr
get_sentinel r = ok r.sentinel r

abbrev pub set_head : Ptr → Cmd Done
set_head p r = ok tt (record r { head = p })

abbrev pub set_parent : Ptr → Ptr → Cmd Done
set_parent p q = modify p (λ n. record n { parent = q })

abbrev pub set_left : Ptr → Ptr → Cmd Done
set_left p q = modify p (λ n. record n { left = q })

abbrev pub set_right : Ptr → Ptr → Cmd Done
set_right p q = modify p (λ n. record n { right = q })

abbrev pub paint : Ptr → Bool → Cmd Done
paint p red = modify p (λ n. record n { red = red })

abbrev pub skip : Cmd Done
skip = pure tt

-- The links of `x` to the parent of `y`, whose place it takes.
unfoldable pub replace_child : Ptr → Ptr → Cmd Done
unfolding load modify
replace_child y x = do
  n ← load y
  if n.parent == null then set_head x else do
    p ← load n.parent
    if p.right == y then set_right n.parent x else if p.left == y then set_left n.parent x else skip

-- `opium_rbt_right_rotate`.
unfoldable pub right_rotate : Ptr → Cmd Ptr
unfolding load modify replace_child
right_rotate y = do
  sentinel ← get_sentinel
  n ← load y
  let x = n.left
  if x == sentinel then pure y else do
    m ← load x
    set_left y m.right
    if m.right == sentinel then skip else set_parent m.right y
    n' ← load y
    set_parent x n'.parent
    replace_child y x
    set_right x y
    set_parent y x
    pure x

-- `opium_rbt_left_rotate`.
unfoldable pub left_rotate : Ptr → Cmd Ptr
unfolding load modify replace_child
left_rotate y = do
  sentinel ← get_sentinel
  n ← load y
  let x = n.right
  if x == sentinel then pure y else do
    m ← load x
    set_right y m.left
    if m.left == sentinel then skip else set_parent m.left y
    n' ← load y
    set_parent x n'.parent
    replace_child y x
    set_left x y
    set_parent y x
    pure x

-- `opium_rbt_init`, from the sentinel on: `fresh` is what `opium_slab_alloc` returns, and the key
-- and data of the sentinel stay what the memory holds. The result is whether it returned
-- `OPIUM_RET_OK`.
unfoldable pub rbt_init : Ptr → Cmd Bool
unfolding modify
rbt_init fresh r =
    let r' = record r { sentinel = fresh } in
    if fresh == null
    then ok false r'
    else (do
      modify fresh (λ n. record n { red = false; parent = fresh; right = fresh; left = fresh })
      set_head fresh
      pure true)
        r'
