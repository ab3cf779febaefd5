-- ===== src/Rbt/LeftRotate.antt =====
-- The left rotation of project/core/opium_rbt.c on the tree that the heap holds.
use checks.Prelude.{◌≡◌, ◌≢◌, refl, sym, ◌==◌, ◌∷◌, append_assoc, if◌then◌else◌, arith}
use mathlib.Core.Path.{subst}
use checks.Rbt.{Ptr, null, Rbt, ok, load, modify, update, replace_child, left_rotate}
use checks.Rbt.Tree.{
  Tree, branch, inorder, Holds, Clear, Holds-frame, Holds-ne_null, Holds-Avoids, Turned, replaced,
  replace_child-replaced,
}

-- The state that the left rotation leaves, `x` being the right child of `y`.
abbrev lifted : Rbt → Ptr → Ptr → Rbt
lifted r y x =
    let inner = (r.heap x).left in
    let h = update r.heap y (record (r.heap y) { right = inner }) in
    let h' = if inner == r.sentinel then h else update h inner (record (h inner) { parent = y }) in
    record r { heap = update h' x (record (h' x) { parent = (h' y).parent }) }

-- The state that the left rotation leaves.
abbrev pub turned_left : Rbt → Ptr → Ptr → Rbt
turned_left r y x =
    let l = lifted r y x in
    let c = replaced l (l.heap y).parent y x in
    let h = update c.heap x (record (c.heap x) { left = y }) in
    record c { heap = update h y (record (h y) { parent = x }) }

left_rotate-turned :
    (r : Rbt) (y x : Ptr)
    → y ≢ null
    → x ≢ null
    → x ≢ r.sentinel
    → (r.heap y).right ≡ x
    → ((r.heap x).left ≢ r.sentinel → (r.heap x).left ≢ null)
    → left_rotate y r ≡ ok x (turned_left r y x)
unfolding left_rotate load modify
left_rotate-turned r y x n m s e b =
    let c : replace_child y x (lifted r y x)
        ≡ ok tt (replaced (lifted r y x) ((lifted r y x).heap y).parent y x) =
      replace_child-replaced (lifted r y x) y x n in
    ground (arith, c)

module _ (r : Rbt) (y x : Ptr) (ne : x ≢ y) (above_x : (r.heap y).parent ≢ x)
    (above_y : (r.heap y).parent ≢ y) (no_loop : (r.heap x).left ≢ y) where
  turned_left-right :
      (q : Ptr)
      → q ≢ x
      → q ≢ y
      → q ≢ (r.heap y).parent
      → ((turned_left r y x).heap q).right ≡ (r.heap q).right
  turned_left-right q a b c = ground arith

  turned_left-left :
      (q : Ptr)
      → q ≢ x
      → q ≢ y
      → q ≢ (r.heap y).parent
      → ((turned_left r y x).heap q).left ≡ (r.heap q).left
  turned_left-left q a b c = ground arith

  turned_left-sentinel : (turned_left r y x).sentinel ≡ r.sentinel
  turned_left-sentinel = ground arith

  turned_left-payload : (q : Ptr) → ((turned_left r y x).heap q).payload ≡ (r.heap q).payload
  turned_left-payload q = ground arith

  turned_left-colour : (q : Ptr) → ((turned_left r y x).heap q).red ≡ (r.heap q).red
  turned_left-colour q = ground arith

  turned_left-key : (q : Ptr) → ((turned_left r y x).heap q).key ≡ (r.heap q).key
  turned_left-key q = ground arith

  turned_left-x_right : ((turned_left r y x).heap x).right ≡ (r.heap x).right
  turned_left-x_right = ground arith

  turned_left-x_left : ((turned_left r y x).heap x).left ≡ y
  turned_left-x_left = ground arith

  turned_left-y_right : ((turned_left r y x).heap y).right ≡ (r.heap x).left
  turned_left-y_right = ground arith

  turned_left-y_left : ((turned_left r y x).heap y).left ≡ (r.heap y).left
  turned_left-y_left = ground arith

  turned_left-parent_y : ((turned_left r y x).heap y).parent ≡ x
  turned_left-parent_y = ground arith

  turned_left-parent_x : ((turned_left r y x).heap x).parent ≡ (r.heap y).parent
  turned_left-parent_x = ground arith

  turned_left-head : (r.heap y).parent ≡ null → (turned_left r y x).head ≡ x
  turned_left-head e = ground arith

  turned_left-link_right :
      (r.heap y).parent ≢ null
      → (r.heap (r.heap y).parent).right ≡ y
      → ((turned_left r y x).heap (r.heap y).parent).right ≡ x
  turned_left-link_right n e = ground arith

  turned_left-link_left :
      (r.heap y).parent ≢ null
      → (r.heap (r.heap y).parent).right ≢ y
      → (r.heap (r.heap y).parent).left ≡ y
      → ((turned_left r y x).heap (r.heap y).parent).left ≡ x
  turned_left-link_left n d e = ground arith

  turned_left-Turned : Turned r (turned_left r y x) y x
  turned_left-Turned = record {
    same_sentinel = turned_left-sentinel;
    same_key = turned_left-key;
    same_payload = turned_left-payload;
    same_colour = turned_left-colour;
    parent_y = turned_left-parent_y;
    parent_x = turned_left-parent_x;
    root = turned_left-head;
    link_right = turned_left-link_right;
    link_left = turned_left-link_left;
  }

  turned_left-Holds :
      (a b c : Tree)
      → Holds r.heap r.sentinel y (branch a y (branch b x c))
      → Clear r y x a
      → Clear r y x b
      → Clear r y x c
      → Holds (turned_left r y x).heap r.sentinel x (branch (branch a y b) x c)
  turned_left-Holds a b c h p q o =
      let r' = turned_left r y x in
      let s = r.sentinel in
      let below : Holds r.heap s x (branch b x c) =
        subst (λ z. Holds r.heap s z (branch b x c)) h.4.0 h.4 in
      let keep : (z : Ptr) (t : Tree) → Clear r y x t → Holds r.heap s z t → Holds r'.heap s z t =
        λ z t v.
          Holds-frame r.heap r'.heap s x y (r.heap y).parent turned_left-left turned_left-right z t
            v.0 v.1 v.2 in
      let inner : Holds r'.heap s (r'.heap y).right b =
        subst (λ z. Holds r'.heap s z b) (sym turned_left-y_right)
          (keep (r.heap x).left b q below.3) in
      let outer : Holds r'.heap s (r'.heap y).left a =
        subst (λ z. Holds r'.heap s z a) (sym turned_left-y_left) (keep (r.heap y).left a p h.3) in
      let down : Holds r'.heap s y (branch a y b) = (refl, h.1, h.2, outer, inner) in
      (
        refl,
        below.1,
        below.2,
        subst (λ z. Holds r'.heap s z (branch a y b)) (sym turned_left-x_left) down,
        subst (λ z. Holds r'.heap s z c) (sym turned_left-x_right)
            (keep (r.heap x).right c o below.4),
      )

-- A left rotation at a node with a right child returns the child, the tree that the heap holds is
-- rotated and has the same nodes in order, each node keeps its key, data and colour, the two
-- parents are right, and the link to the node from its parent, or from the tree where the parent is
-- NULL, now leads to the child.
-- Conditions: the two nodes and the parent are three addresses, none of them in a subtree.
pub left_rotate-Holds :
    (r : Rbt) (y x : Ptr) (a b c : Tree)
    → Holds r.heap r.sentinel y (branch a y (branch b x c))
    → x ≢ y
    → (r.heap y).parent ≢ x
    → (r.heap y).parent ≢ y
    → Clear r y x a
    → Clear r y x b
    → Clear r y x c
    → (r' : Rbt) × (left_rotate y r ≡ ok x r')
      × Holds r'.heap r.sentinel x (branch (branch a y b) x c)
      × (inorder (branch (branch a y b) x c) ≡ inorder (branch a y (branch b x c)))
      × Turned r r' y x
left_rotate-Holds r y x a b c h ne u v p q o =
    let below : Holds r.heap r.sentinel x (branch b x c) =
      subst (λ z. Holds r.heap r.sentinel z (branch b x c)) h.4.0 h.4 in
    let no_loop : (r.heap x).left ≢ y =
      Holds-Avoids r.heap r.sentinel (r.heap x).left y b below.3 q.1 (λ e. h.1 (sym e)) in
    (
      turned_left r y x,
      left_rotate-turned r y x h.2 below.2 below.1 h.4.0
          (Holds-ne_null r.heap r.sentinel (r.heap x).left b below.3),
      turned_left-Holds r y x ne u v no_loop a b c h p q o,
      append_assoc (inorder a) (y ∷ inorder b) (x ∷ inorder c),
      turned_left-Turned r y x ne u v no_loop,
    )
