-- ===== src/Rbt/Tree.antt =====
-- The tree that the heap of project/core/opium_rbt.c holds, and what the link from the parent comes to
-- in a rotation.
use checks.Prelude.{◌≡◌, ◌≢◌, sym, ◌∙◌, ◌==◌, List, [], ◌∷◌, ◌++◌, if◌then◌else◌, arith}
use mathlib.Core.Path.{subst}
use checks.Rbt.{Ptr, null, Node, Rbt, ok, load, modify, update, replace_child}

-- A tree of addresses.
pub data Tree : Type 0 where
  leaf : Tree
  branch : Tree → Ptr → Tree → Tree

abbrev pub inorder : Tree → List Ptr
inorder leaf = []
inorder (branch l p r) = inorder l ++ (p ∷ inorder r)

-- The heap holds the tree at `p`, with the sentinel in place of each leaf.
abbrev pub Holds : (Ptr → Node) → Ptr → Ptr → Tree → Type 0
Holds h s p leaf = p ≡ s
Holds h s p (branch l q r) =
    (p ≡ q) × (p ≢ s) × (p ≢ null) × Holds h s (h p).left l × Holds h s (h p).right r

-- The address is not in the tree.
abbrev pub Avoids : Ptr → Tree → Type 0
Avoids p leaf = Unit
Avoids p (branch l q r) = (q ≢ p) × Avoids p l × Avoids p r

-- No node of the tree is one of those that a rotation at `y` links anew.
abbrev pub Clear : Rbt → Ptr → Ptr → Tree → Type 0
Clear r y x t = Avoids x t × Avoids y t × Avoids (r.heap y).parent t

-- The tree is as before if no node in it has new children.
pub Holds-frame :
    (h h' : Ptr → Node) (s x y g : Ptr)
    → ((q : Ptr) → q ≢ x → q ≢ y → q ≢ g → (h' q).left ≡ (h q).left)
    → ((q : Ptr) → q ≢ x → q ≢ y → q ≢ g → (h' q).right ≡ (h q).right)
    → (p : Ptr) (t : Tree) → Avoids x t
    → Avoids y t
    → Avoids g t
    → Holds h s p t
    → Holds h' s p t
Holds-frame h h' s x y g l r p leaf a b c k = k
Holds-frame h h' s x y g l r p (branch t q u) a b c k =
    let px : p ≢ x = λ e. a.0 (sym k.0 ∙ e) in
    let py : p ≢ y = λ e. b.0 (sym k.0 ∙ e) in
    let pg : p ≢ g = λ e. c.0 (sym k.0 ∙ e) in
    (
      k.0,
      k.1,
      k.2,
      subst (λ z. Holds h' s z t) (sym (l p px py pg))
          (Holds-frame h h' s x y g l r (h p).left t a.1 b.1 c.1 k.3),
      subst (λ z. Holds h' s z u) (sym (r p px py pg))
          (Holds-frame h h' s x y g l r (h p).right u a.2 b.2 c.2 k.4),
    )

pub Holds-ne_null : (h : Ptr → Node) (s p : Ptr) (t : Tree) → Holds h s p t → p ≢ s → p ≢ null
Holds-ne_null h s p leaf k n = absurd (n k)
Holds-ne_null h s p (branch l q r) k n = k.2

-- The address of a tree that avoids `q` is not `q`, if the sentinel is not.
pub Holds-Avoids :
    (h : Ptr → Node) (s p q : Ptr) (t : Tree) → Holds h s p t → Avoids q t → s ≢ q → p ≢ q
Holds-Avoids h s p q leaf k a n = λ e. n (sym k ∙ e)
Holds-Avoids h s p q (branch l c r) k a n = λ e. a.0 (sym k.0 ∙ e)

-- What a rotation at `y` leaves of the state, `x` being the child that moves up: every key, payload
-- and colour, the two parents, and the link to the place of `y`, from its parent or as the root.
pub record Turned (r r' : Rbt) (y x : Ptr) : Type 0 where
  pub same_sentinel : r'.sentinel ≡ r.sentinel
  pub same_key : (q : Ptr) → (r'.heap q).key ≡ (r.heap q).key
  pub same_payload : (q : Ptr) → (r'.heap q).payload ≡ (r.heap q).payload
  pub same_colour : (q : Ptr) → (r'.heap q).red ≡ (r.heap q).red
  pub parent_y : (r'.heap y).parent ≡ x
  pub parent_x : (r'.heap x).parent ≡ (r.heap y).parent
  pub root : (r.heap y).parent ≡ null → r'.head ≡ x
  pub link_right :
      (r.heap y).parent ≢ null
      → (r.heap (r.heap y).parent).right ≡ y
      → (r'.heap (r.heap y).parent).right ≡ x
  pub link_left :
      (r.heap y).parent ≢ null
      → (r.heap (r.heap y).parent).right ≢ y
      → (r.heap (r.heap y).parent).left ≡ y
      → (r'.heap (r.heap y).parent).left ≡ x

-- The link of the parent `g` to `y` becomes one to `x`; that of `opium_rbt_t` where `g` is NULL.
abbrev pub replaced : Rbt → Ptr → Ptr → Ptr → Rbt
replaced r g y x =
    if g == null
    then record r { head = x }
    else if (r.heap g).right == y
    then record r { heap = update r.heap g (record (r.heap g) { right = x }) }
    else if (r.heap g).left == y
    then record r { heap = update r.heap g (record (r.heap g) { left = x }) }
    else r

pub replace_child-replaced :
    (r : Rbt) (y x : Ptr)
    → y ≢ null
    → replace_child y x r ≡ ok tt (replaced r (r.heap y).parent y x)
unfolding replace_child load modify
replace_child-replaced r y x n = ground arith
