-- ===== src/Rbt/Delete.antt =====
-- Deletion in project/core/opium_rbt.c. The loops run on fuel. The result of `delete` is the node
-- that it gives back to the slab, if any.
use checks.Prelude.{
  ℕ, zero, suc, Bool, true, false, not, ◌||◌, Option, none, some, ltb, ◌==◌, if◌then◌else◌,
}
use checks.Rbt.{
  Ptr, endless, Cmd, pure, ◌>>=◌, ◌>>◌, Done, load, modify, get_head, get_sentinel, set_head,
  set_parent, set_left, set_right, paint, skip, right_rotate, left_rotate,
}

-- The loop that looks for the key: a node with the key, or the sentinel.
unfoldable pub find : ℕ → ℕ → Ptr → Cmd Ptr
unfolding load
find zero key node = λ r. endless
find (suc fuel) key node = do
  sentinel ← get_sentinel
  if node == sentinel then pure node else do
    n ← load node
    if n.key == key then pure node else find fuel key (if ltb n.key key then n.right else n.left)

-- The loop to the leftmost node.
unfoldable pub leftmost : ℕ → Ptr → Cmd Ptr
unfolding load
leftmost zero node = λ r. endless
leftmost (suc fuel) node = do
  sentinel ← get_sentinel
  n ← load node
  if n.left == sentinel then pure node else leftmost fuel n.left

-- `to_delete` and `is_red`. With two children the key and the data of the successor move up.
unfoldable pub choose : ℕ → Ptr → Cmd (Ptr × Bool)
unfolding load modify leftmost
choose fuel node = do
  sentinel ← get_sentinel
  n ← load node
  if (n.left == sentinel) || (n.right == sentinel) then pure (node, n.red) else do
    to_delete ← leftmost fuel n.right
    d ← load to_delete
    modify node (λ m. record m { key = d.key; payload = d.payload })
    pure (to_delete, d.red)

-- A sentinel or a black node.
unfoldable pub is_dark : Ptr → Cmd Bool
unfolding load
is_dark p = do
  sentinel ← get_sentinel
  if p == sentinel then pure true else do n ← load p; pure (not n.red)

unfoldable pub paint_child : Ptr → Cmd Done
unfolding modify
paint_child child = do
  sentinel ← get_sentinel
  if child == sentinel then skip else paint child false

-- How a round of the repair ends: the next `current` and `parent`, or `break`.
pub data Repair : Type 0 where
  go_on : Ptr → Ptr → Repair
  stop : Ptr → Repair

-- Case 2.
unfoldable pub propagate : Ptr → Ptr → Ptr → Cmd Repair
unfolding load modify
propagate current parent sibling = do
  paint sibling true
  p ← load parent
  if p.red then (do paint parent false; pure (stop current)) else pure (go_on parent parent)

-- Case 1 of the left side.
unfoldable pub red_right : Ptr → Ptr → Cmd Ptr
unfolding load modify left_rotate
red_right parent sibling = do
  s ← load sibling
  if s.red
      then (do
        paint parent true
        paint sibling false
        left_rotate parent
        p ← load parent
        pure p.right)
      else pure sibling

-- Cases 3 and 4 of the left side.
unfoldable pub settle_right : Ptr → Ptr → Cmd Repair
unfolding load modify is_dark left_rotate right_rotate
settle_right parent sibling = do
  s ← load sibling
  dark ← is_dark s.right
  outer ←
      if dark
      then (do
        paint sibling true
        paint s.left false
        right_rotate sibling
        p ← load parent
        pure p.right)
      else pure sibling
  p ← load parent
  modify outer (λ n. record n { red = p.red })
  paint parent false
  o ← load outer
  paint o.right false
  left_rotate parent
  head ← get_head
  pure (go_on head parent)

unfoldable pub repair_left : Ptr → Ptr → Cmd Repair
unfolding load red_right is_dark propagate settle_right
repair_left current parent = do
  p ← load parent
  sibling ← red_right parent p.right
  s ← load sibling
  left_dark ← is_dark s.left
  dark ← if left_dark then is_dark s.right else pure false
  if dark then propagate current parent sibling else settle_right parent sibling

-- Case 1 of the right side.
unfoldable pub red_left : Ptr → Ptr → Cmd Ptr
unfolding load modify right_rotate
red_left parent sibling = do
  s ← load sibling
  if s.red
      then (do
        paint parent true
        paint sibling false
        right_rotate parent
        p ← load parent
        pure p.left)
      else pure sibling

-- Cases 3 and 4 of the right side.
unfoldable pub settle_left : Ptr → Ptr → Cmd Repair
unfolding load modify is_dark left_rotate right_rotate
settle_left parent sibling = do
  s ← load sibling
  dark ← is_dark s.left
  outer ←
      if dark
      then (do
        paint sibling true
        paint s.right false
        left_rotate sibling
        p ← load parent
        pure p.left)
      else pure sibling
  p ← load parent
  modify outer (λ n. record n { red = p.red })
  paint parent false
  o ← load outer
  paint o.left false
  right_rotate parent
  head ← get_head
  pure (go_on head parent)

unfoldable pub repair_right : Ptr → Ptr → Cmd Repair
unfolding load red_left is_dark propagate settle_left
repair_right current parent = do
  p ← load parent
  sibling ← red_left parent p.left
  s ← load sibling
  right_dark ← is_dark s.right
  dark ← if right_dark then is_dark s.left else pure false
  if dark then propagate current parent sibling else settle_left parent sibling

-- One round of the loop, behind its test.
unfoldable pub repair_round : Ptr → Ptr → Cmd Repair
unfolding load repair_left repair_right
repair_round current above = do
  sentinel ← get_sentinel
  parent ← if current == sentinel then pure above else (do n ← load current; pure n.parent)
  p ← load parent
  if (current == p.left) || (current == sentinel)
      then repair_left current parent
      else repair_right current parent

-- The loop: the last `current`.
unfoldable pub repair : ℕ → Ptr → Ptr → Cmd Ptr
unfolding is_dark repair_round
repair zero current parent = λ r. endless
repair (suc fuel) current parent = do
  head ← get_head
  dark ← if current == head then pure false else is_dark current
  if not dark then pure current else do
    next ← repair_round current parent
    elim next [ stop last ↦ pure last | go_on current' parent' ↦ repair fuel current' parent' ]

-- What follows where `to_delete` is not the root.
unfoldable pub splice : ℕ → Ptr → Ptr → Ptr → Bool → Cmd Done
unfolding load modify is_dark paint_child repair
splice fuel to_delete child parent is_red = do
  p ← load parent
  if to_delete == p.left then set_left parent child else set_right parent child
  dark ← if is_red then pure false else is_dark child
  if not dark
      then (do paint_child child; head ← get_head; paint head false)
      else do last ← repair fuel child parent; paint_child last; head ← get_head; paint head false

-- From the choice of `to_delete` on.
unfoldable pub remove : ℕ → Ptr → Bool → Cmd Done
unfolding load modify paint_child splice
remove fuel to_delete is_red = do
  sentinel ← get_sentinel
  head ← get_head
  d ← load to_delete
  let child = if d.left == sentinel then d.right else d.left
  if child == sentinel then skip else set_parent child d.parent
  if to_delete == head
      then (do set_head child; paint_child child)
      else splice fuel to_delete child d.parent is_red

-- `opium_rbt_delete`.
unfoldable pub delete : ℕ → ℕ → Cmd (Option Ptr)
unfolding find choose remove
delete fuel key = do
  head ← get_head
  sentinel ← get_sentinel
  node ← find fuel key head
  if node == sentinel
      then pure none
      else do chosen ← choose fuel node; remove fuel chosen.0 chosen.1; pure (some chosen.0)
