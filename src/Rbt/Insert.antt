-- ===== src/Rbt/Insert.antt =====
-- Insertion in project/core/opium_rbt.c. `fresh` is what `opium_slab_alloc` returns for the new
-- node, NULL where it fails. The two loops run on fuel.
use checks.Prelude.{
  ℕ, zero, suc, Option, none, some, true, false, not, ◌||◌, ltb, ◌==◌, if◌then◌else◌,
}
use checks.Rbt.{
  Ptr, null, Node, endless, Cmd, pure, ◌>>=◌, ◌>>◌, Done, load, modify, get_head, get_sentinel,
  set_head, set_left, set_right, paint, right_rotate, left_rotate,
}

-- `opium_rbt_node_init`.
unfoldable pub node_init : Ptr → Ptr → ℕ → Cmd Done
unfolding modify
node_init fresh parent key = do
  sentinel ← get_sentinel
  modify fresh (λ n. record {
    parent = parent;
    right = sentinel;
    left = sentinel;
    key = key;
    payload = null;
    red = true;
  })

-- How the descent ends: at a node with the key, or with `parent` at the sentinel.
pub data Descent : Type 0 where
  present : Ptr → Descent
  below : Ptr → Descent

-- The child on the side of the key, or `none` where the node has the key.
abbrev pub toward : Node → ℕ → Option Ptr
toward n key = if ltb n.key key then some n.right else if ltb key n.key then some n.left else none

-- The loop of `opium_rbt_node_insert`.
unfoldable pub descend : ℕ → ℕ → Ptr → Ptr → Cmd Descent
unfolding load
descend zero key parent current = λ r. endless
descend (suc fuel) key parent current = do
  sentinel ← get_sentinel
  if parent == sentinel then pure (below parent) else do
    n ← load current
    elim (toward n key) [
      | none ↦ pure (present current)
      | some next ↦ descend fuel key current next
    ]

-- Behind the loop: the new node becomes the root, or a child of `parent`.
unfoldable pub attach : Ptr → ℕ → Ptr → Cmd Ptr
unfolding node_init load modify
attach fresh key parent = if fresh == null then pure null else do
  node_init fresh parent key
  sentinel ← get_sentinel
  head ← get_head
  if head == sentinel
      then (do
        modify fresh
            (λ n. record n { parent = null; right = sentinel; left = sentinel; red = false })
        set_head fresh
        pure fresh)
      else do
        p ← load parent
        if ltb key p.key then set_left parent fresh else set_right parent fresh
        pure fresh

unfoldable pub place : Ptr → ℕ → Descent → Cmd Ptr
unfolding attach
place fresh key (present p) = pure p
place fresh key (below parent) = attach fresh key parent

-- `opium_rbt_node_insert`; the parent is NULL at first.
unfoldable pub node_insert : ℕ → Ptr → ℕ → Cmd Ptr
unfolding descend place
node_insert fuel fresh key = do head ← get_head; d ← descend fuel key null head; place fresh key d

-- The uncle is red: recolour, and go on at the grandparent.
unfoldable pub recolour : Ptr → Ptr → Ptr → Cmd Ptr
unfolding modify
recolour parent uncle grandparent = do
  paint parent false
  paint uncle false
  paint grandparent true
  pure grandparent

-- The parent is a right child and the uncle is black.
unfoldable pub fix_right : Ptr → Ptr → Cmd Ptr
unfolding load modify right_rotate left_rotate
fix_right node parent = do
  p ← load parent
  inner ← if node == p.left then (do right_rotate parent; pure parent) else pure node
  n ← load inner
  paint n.parent false
  q ← load n.parent
  paint q.parent true
  left_rotate q.parent
  pure inner

-- The parent is a left child and the uncle is black.
unfoldable pub fix_left : Ptr → Ptr → Cmd Ptr
unfolding load modify right_rotate left_rotate
fix_left node parent = do
  p ← load parent
  inner ← if node == p.right then (do left_rotate parent; pure parent) else pure node
  n ← load inner
  paint n.parent false
  q ← load n.parent
  paint q.parent true
  right_rotate q.parent
  pure inner

-- One round of the loop of `opium_rbt_insert`, behind its two tests.
unfoldable pub fix_round : Ptr → Ptr → Ptr → Cmd Ptr
unfolding load recolour fix_right fix_left
fix_round node parent grandparent = do
  g ← load grandparent
  if parent == g.right
      then (do
        uncle ← load g.left
        if uncle.red then recolour parent g.left grandparent else fix_right node parent)
      else do
        uncle ← load g.right
        if uncle.red then recolour parent g.right grandparent else fix_left node parent

-- The loop; its result is the last `node`.
unfoldable pub fix_insert : ℕ → Ptr → Cmd Ptr
unfolding load fix_round
fix_insert zero node = λ r. endless
fix_insert (suc fuel) node = do
  head ← get_head
  if node == head then pure node else do
    n ← load node
    p ← load n.parent
    if not p.red || (p.parent == null)
        then pure node
        else do next ← fix_round node n.parent p.parent; fix_insert fuel next

-- What stands behind the loop.
unfoldable pub finish : Ptr → Ptr → Cmd Ptr
unfolding modify
finish payload node = do
  modify node (λ n. record n { payload = payload })
  head ← get_head
  paint head false
  pure node

-- `opium_rbt_insert`.
unfoldable pub insert : ℕ → Ptr → ℕ → Ptr → Cmd Ptr
unfolding node_insert fix_insert finish
insert fuel fresh key payload = do
  node ← node_insert fuel fresh key
  if node == null then pure null else do last ← fix_insert fuel node; finish payload last
