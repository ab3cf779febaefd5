-- ===== src/Rbt/Search.antt =====
-- The search of a key in project/core/opium_rbt.c, by which `opium_rbt_delete` starts, and the
-- descent of `opium_rbt_node_insert`.
use checks.Prelude.{ℕ, zero, suc, ◌≡◌, ◌≢◌, refl, ℕ_discrete, arith}
use checks.Rbt.{Ptr, null, Rbt, Run, ok, fault, endless, load}
use checks.Rbt.Delete.{find}
use checks.Rbt.Insert.{below, descend}

-- Where the search of a key ends at the sentinel, so does the descent to its place.
pub descend-find :
    (fuel key : ℕ) (parent current : Ptr) (r : Rbt)
    → parent ≢ r.sentinel
    → r.sentinel ≢ null
    → (r.heap r.sentinel).key ≢ key
    → find fuel key current r ≡ ok r.sentinel r
    → descend (suc fuel) key parent current r ≡ ok (below r.sentinel) r
unfolding find descend load
descend-find zero key parent current r p s k h = cc
descend-find (suc fuel) key parent current r p s k h = elim (ℕ_discrete current r.sentinel) [
  | yes e ↦ ground arith
  | no ne ↦ ground (
    arith,
    descend-find fuel key current (r.heap current).right r,
    descend-find fuel key current (r.heap current).left r,
  )
]

-- What a search answers, without its state.
pub data Answer : Type 0 where
  answer : Ptr → Answer
  faults : Answer
  loops : Answer

abbrev pub ask : Run Ptr → Answer
ask (ok p r) = answer p
ask fault = faults
ask endless = loops

-- The same tree, seen from the head, whatever stands in the sentinel and in `fresh`.
pub record Agree (r r' : Rbt) (fresh : Ptr) : Type 0 where
  pub head : r'.head ≡ r.head
  pub sentinel : r'.sentinel ≡ r.sentinel
  pub key : (p : Ptr) → p ≢ fresh → p ≢ r.sentinel → (r'.heap p).key ≡ (r.heap p).key
  pub left : (p : Ptr) → p ≢ fresh → p ≢ r.sentinel → (r'.heap p).left ≡ (r.heap p).left
  pub right : (p : Ptr) → p ≢ fresh → p ≢ r.sentinel → (r'.heap p).right ≡ (r.heap p).right

module _ {r r' : Rbt} {fresh : Ptr} (g : Agree r r' fresh)
    (left : (p : Ptr) → p ≢ fresh → (r.heap p).left ≢ fresh)
    (right : (p : Ptr) → p ≢ fresh → (r.heap p).right ≢ fresh) where
  pub find-Agree :
      (fuel key : ℕ) (node : Ptr)
      → node ≢ fresh
      → ask (find fuel key node r') ≡ ask (find fuel key node r)
  unfolding find load
  find-Agree zero key node n = refl
  find-Agree (suc fuel) key node n = elim (ℕ_discrete node r.sentinel) [
    | yes e ↦ ground (arith, g.sentinel)
    | no ne ↦ ground (
      arith,
      g.sentinel,
      g.key node n ne,
      g.left node n ne,
      g.right node n ne,
      left node n,
      right node n,
      find-Agree fuel key (r.heap node).right,
      find-Agree fuel key (r.heap node).left,
    )
  ]

-- A search changes nothing.
pub find-answer :
    (fuel key : ℕ) (node p : Ptr) (r : Rbt)
    → ask (find fuel key node r) ≡ answer p
    → find fuel key node r ≡ ok p r
unfolding find load
find-answer zero key node p r h = cc
find-answer (suc fuel) key node p r h = ground (
  arith,
  find-answer fuel key (r.heap node).left p r,
  find-answer fuel key (r.heap node).right p r,
)

module _ (r r' : Rbt) (sentinel : r'.sentinel ≡ r.sentinel)
    (same_key : (p : Ptr) → (r'.heap p).key ≡ (r.heap p).key)
    (left : (p : Ptr) → (r'.heap p).left ≡ (r.heap p).left)
    (right : (p : Ptr) → (r'.heap p).right ≡ (r.heap p).right) where
  pub find_same :
      (fuel key : ℕ) (node : Ptr) → ask (find fuel key node r') ≡ ask (find fuel key node r)
  unfolding find load
  find_same zero key node = refl
  find_same (suc fuel) key node = ground (
    arith,
    same_key node,
    left node,
    right node,
    find_same fuel key (r.heap node).right,
    find_same fuel key (r.heap node).left,
  )
