-- ===== src/Rbt/RightRotate.antt =====
-- The right rotation of project/core/opium_rbt.c on the tree that the heap holds.
use checks.Prelude.{◌≡◌, ◌≢◌, refl, sym, ◌==◌, ◌∷◌, append_assoc, if◌then◌else◌, arith}
use mathlib.Core.Path.{subst}
use checks.Rbt.{Ptr, null, Rbt, ok, load, modify, update, replace_child, right_rotate}
use checks.Rbt.Tree.{
  Tree, branch, inorder, Holds, Clear, Holds-frame, Holds-ne_null, Holds-Avoids, Turned, replaced,
  replace_child-replaced,
}

-- The state that the right rotation leaves, `x` being the left child of `y`.
abbrev lifted : Rbt → Ptr → Ptr → Rbt
lifted r y x =
    let inner = (r.heap x).right in
    let h = update r.heap y (record (r.heap y) { left = inner }) in
    let h' = if inner == r.sentinel then h else update h inner (record (h inner) { parent = y }) in
    record r { heap = update h' x (record (h' x) { parent = (h' y).parent }) }

-- The state that the right rotation leaves.
abbrev pub turned_right : Rbt → Ptr → Ptr → Rbt
turned_right r y x =
    let l = lifted r y x in
    let c = replaced l (l.heap y).parent y x in
    let h = update c.heap x (record (c.heap x) { right = y }) in
    record c { heap = update h y (record (h y) { parent = x }) }

right_rotate-turned :
    (r : Rbt) (y x : Ptr)
    → y ≢ null
    → x ≢ null
    → x ≢ r.sentinel
    → (r.heap y).left ≡ x
    → ((r.heap x).right ≢ r.sentinel → (r.heap x).right ≢ null)
    → right_rotate y r ≡ ok x (turned_right r y x)
unfolding right_rotate load modify
right_rotate-turned r y x n m s e b =
    let c : replace_child y x (lifted r y x)
        ≡ ok tt (replaced (lifted r y x) ((lifted r y x).heap y).parent y x) =
      replace_child-replaced (lifted r y x) y x n in
    ground (arith, c)

module _ (r : Rbt) (y x : Ptr) (ne : x ≢ y) (above_x : (r.heap y).parent ≢ x)
    (above_y : (r.heap y).parent ≢ y) (no_loop : (r.heap x).right ≢ y) where
  turned_right-left :
      (q : Ptr)
      → q ≢ x
      → q ≢ y
      → q ≢ (r.heap y).parent
      → ((turned_right r y x).heap q).left ≡ (r.heap q).left
  turned_right-left q a b c = ground arith

  turned_right-right :
      (q : Ptr)
      → q ≢ x
      → q ≢ y
      → q ≢ (r.heap y).parent
      → ((turned_right r y x).heap q).right ≡ (r.heap q).right
  turned_right-right q a b c = ground arith

  turned_right-sentinel : (turned_right r y x).sentinel ≡ r.sentinel
  turned_right-sentinel = ground arith

  turned_right-payload : (q : Ptr) → ((turned_right r y x).heap q).payload ≡ (r.heap q).payload
  turned_right-payload q = ground arith

  turned_right-colour : (q : Ptr) → ((turned_right r y x).heap q).red ≡ (r.heap q).red
  turned_right-colour q = ground arith

  turned_right-key : (q : Ptr) → ((turned_right r y x).heap q).key ≡ (r.heap q).key
  turned_right-key q = ground arith

  turned_right-x_left : ((turned_right r y x).heap x).left ≡ (r.heap x).left
  turned_right-x_left = ground arith

  turned_right-x_right : ((turned_right r y x).heap x).right ≡ y
  turned_right-x_right = ground arith

  turned_right-y_left : ((turned_right r y x).heap y).left ≡ (r.heap x).right
  turned_right-y_left = ground arith

  turned_right-y_right : ((turned_right r y x).heap y).right ≡ (r.heap y).right
  turned_right-y_right = ground arith

  turned_right-parent_y : ((turned_right r y x).heap y).parent ≡ x
  turned_right-parent_y = ground arith

  turned_right-parent_x : ((turned_right r y x).heap x).parent ≡ (r.heap y).parent
  turned_right-parent_x = ground arith

  turned_right-head : (r.heap y).parent ≡ null → (turned_right r y x).head ≡ x
  turned_right-head e = ground arith

  turned_right-link_right :
      (r.heap y).parent ≢ null
      → (r.heap (r.heap y).parent).right ≡ y
      → ((turned_right r y x).heap (r.heap y).parent).right ≡ x
  turned_right-link_right n e = ground arith

  turned_right-link_left :
      (r.heap y).parent ≢ null
      → (r.heap (r.heap y).parent).right ≢ y
      → (r.heap (r.heap y).parent).left ≡ y
      → ((turned_right r y x).heap (r.heap y).parent).left ≡ x
  turned_right-link_left n d e = ground arith

  turned_right-Turned : Turned r (turned_right r y x) y x
  turned_right-Turned = record {
    same_sentinel = turned_right-sentinel;
    same_key = turned_right-key;
    same_payload = turned_right-payload;
    same_colour = turned_right-colour;
    parent_y = turned_right-parent_y;
    parent_x = turned_right-parent_x;
    root = turned_right-head;
    link_right = turned_right-link_right;
    link_left = turned_right-link_left;
  }

  turned_right-Holds :
      (a b c : Tree)
      → Holds r.heap r.sentinel y (branch (branch a x b) y c)
      → Clear r y x a
      → Clear r y x b
      → Clear r y x c
      → Holds (turned_right r y x).heap r.sentinel x (branch a x (branch b y c))
  turned_right-Holds a b c h p q o =
      let r' = turned_right r y x in
      let s = r.sentinel in
      let below : Holds r.heap s x (branch a x b) =
        subst (λ z. Holds r.heap s z (branch a x b)) h.3.0 h.3 in
      let keep : (z : Ptr) (t : Tree) → Clear r y x t → Holds r.heap s z t → Holds r'.heap s z t =
        λ z t v.
          Holds-frame r.heap r'.heap s x y (r.heap y).parent turned_right-left turned_right-right z
            t v.0 v.1 v.2 in
      let inner : Holds r'.heap s (r'.heap y).left b =
        subst (λ z. Holds r'.heap s z b) (sym turned_right-y_left)
          (keep (r.heap x).right b q below.4) in
      let outer : Holds r'.heap s (r'.heap y).right c =
        subst (λ z. Holds r'.heap s z c) (sym turned_right-y_right)
          (keep (r.heap y).right c o h.4) in
      let down : Holds r'.heap s y (branch b y c) = (refl, h.1, h.2, inner, outer) in
      (
        refl,
        below.1,
        below.2,
        subst (λ z. Holds r'.heap s z a) (sym turned_right-x_left)
            (keep (r.heap x).left a p below.3),
        subst (λ z. Holds r'.heap s z (branch b y c)) (sym turned_right-x_right) down,
      )

-- A right rotation at a node with a left child returns the child, the tree that the heap holds is
-- rotated and has the same nodes in order, each node keeps its key, data and colour, the two
-- parents are right, and the link to the node from its parent, or from the tree where the parent is
-- NULL, now leads to the child.
-- Conditions: the two nodes and the parent are three addresses, none of them in a subtree.
pub right_rotate-Holds :
    (r : Rbt) (y x : Ptr) (a b c : Tree)
    → Holds r.heap r.sentinel y (branch (branch a x b) y c)
    → x ≢ y
    → (r.heap y).parent ≢ x
    → (r.heap y).parent ≢ y
    → Clear r y x a
    → Clear r y x b
    → Clear r y x c
    → (r' : Rbt) × (right_rotate y r ≡ ok x r')
      × Holds r'.heap r.sentinel x (branch a x (branch b y c))
      × (inorder (branch a x (branch b y c)) ≡ inorder (branch (branch a x b) y c))
      × Turned r r' y x
right_rotate-Holds r y x a b c h ne u v p q o =
    let below : Holds r.heap r.sentinel x (branch a x b) =
      subst (λ z. Holds r.heap r.sentinel z (branch a x b)) h.3.0 h.3 in
    let no_loop : (r.heap x).right ≢ y =
      Holds-Avoids r.heap r.sentinel (r.heap x).right y b below.4 q.1 (λ e. h.1 (sym e)) in
    (
      turned_right r y x,
      right_rotate-turned r y x h.2 below.2 below.1 h.3.0
          (Holds-ne_null r.heap r.sentinel (r.heap x).right b below.4),
      turned_right-Holds r y x ne u v no_loop a b c h p q o,
      sym (append_assoc (inorder a) (x ∷ inorder b) (y ∷ inorder c)),
      turned_right-Turned r y x ne u v no_loop,
    )
