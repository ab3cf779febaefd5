-- ===== src/Rbt/Lost.antt =====
-- What insertion in project/core/opium_rbt.c comes to. The loop of `opium_rbt_node_insert` ends with
-- `parent` at the sentinel, never at the last node before it.
use checks.Prelude.{
  ℕ, zero, suc, ◌≡◌, ◌≢◌, refl, sym, ap, ◌∙◌, true, false, none, ltb, if◌then◌else◌, arith,
}
use checks.Rbt.{Ptr, null, Node, Rbt, ok, load, modify, update}
use checks.Rbt.Delete.{find, delete}
use checks.Rbt.Insert.{
  below, descend, attach, place, node_insert, fix_insert, finish, insert, node_init,
}
use checks.Rbt.Search.{ask, Agree, find-Agree, find-answer, descend-find}

-- The node that `opium_rbt_node_init` writes.
abbrev pub new_node : Rbt → Ptr → ℕ → Node
new_node r parent key = record {
  parent = parent;
  right = r.sentinel;
  left = r.sentinel;
  key = key;
  payload = null;
  red = true;
}

-- The heap that the new node is in, and that with the link of `parent` to it.
abbrev pub written : Rbt → Ptr → ℕ → Rbt
written r fresh key = record r { heap = update r.heap fresh (new_node r r.sentinel key) }

abbrev pub linked : Rbt → Ptr → ℕ → Rbt
linked r fresh key =
    let r' = written r fresh key in
    let s = r'.heap r.sentinel in
    record r' {
      heap =
          update r'.heap r.sentinel
            (if ltb key s.key then record s { left = fresh } else record s { right = fresh });
    }

-- What the insertion leaves.
abbrev kept : Rbt → Ptr → ℕ → Ptr → Rbt
kept r fresh key payload =
    let l = linked r fresh key in
    let heap = update l.heap fresh (record (l.heap fresh) { payload = payload }) in
    record l { heap = update heap r.head (record (heap r.head) { red = false }) }

module _ (r : Rbt) (fresh : Ptr) (key : ℕ) (payload : Ptr) (new : fresh ≢ null)
    (apart : fresh ≢ r.sentinel) (other : fresh ≢ r.head) (nonempty : r.head ≢ r.sentinel)
    (exists : r.sentinel ≢ null) (root : r.head ≢ null)
    (black : (r.heap r.sentinel).red ≡ false) where
  attach-linked : attach fresh key r.sentinel r ≡ ok fresh (linked r fresh key)
  unfolding attach node_init load modify
  attach-linked = ground arith

  fix_insert-linked :
      (fuel : ℕ) → fix_insert (suc fuel) fresh (linked r fresh key) ≡ ok fresh (linked r fresh key)
  unfolding fix_insert load
  fix_insert-linked fuel = ground arith

  finish-kept : finish payload fresh (linked r fresh key) ≡ ok fresh (kept r fresh key payload)
  unfolding finish modify
  finish-kept = ground arith

  insert-kept :
      (fuel : ℕ)
      → (r.heap r.sentinel).key ≢ key
      → find fuel key r.head r ≡ ok r.sentinel r
      → insert (suc fuel) fresh key payload r ≡ ok fresh (kept r fresh key payload)
  unfolding insert node_insert place
  insert-kept fuel k h =
      let d : descend (suc fuel) key null r.head r ≡ ok (below r.sentinel) r =
        descend-find fuel key null r.head r (λ e. exists (sym e)) exists k h in
      simp (d, attach-linked) (ground (arith, fix_insert-linked fuel, finish-kept))

-- A node that no node of the tree points to.
pub record IsFresh (r : Rbt) (fresh : Ptr) : Type 0 where
  pub new : fresh ≢ null
  pub apart : fresh ≢ r.sentinel
  pub other : fresh ≢ r.head
  pub left : (p : Ptr) → p ≢ fresh → (r.heap p).left ≢ fresh
  pub right : (p : Ptr) → p ≢ fresh → (r.heap p).right ≢ fresh

-- A tree with a root, and a black sentinel.
pub record HasRoot (r : Rbt) : Type 0 where
  pub nonempty : r.head ≢ r.sentinel
  pub exists : r.sentinel ≢ null
  pub black : (r.heap r.sentinel).red ≡ false

root-ne-null :
    (fuel key : ℕ) (r : Rbt)
    → r.head ≢ r.sentinel
    → find fuel key r.head r ≡ ok r.sentinel r
    → r.head ≢ null
unfolding find load
root-ne-null zero key r n h = cc
root-ne-null (suc fuel) key r n h = ground arith

kept-Agree :
    (r : Rbt) (fresh : Ptr) (key : ℕ) (payload : Ptr)
    → fresh ≢ r.head
    → r.head ≢ r.sentinel
    → Agree r (kept r fresh key payload) fresh
kept-Agree r fresh key payload o n = record {
  head = refl;
  sentinel = refl;
  key = λ p a b. ground arith;
  left = λ p a b. ground arith;
  right = λ p a b. ground arith;
}

-- Where the search misses it still does, so deletion of the key does nothing.
delete-kept :
    (fuel : ℕ) (r r' : Rbt) (key : ℕ)
    → find fuel key r.head r ≡ ok r.sentinel r
    → ask (find fuel key r'.head r') ≡ ask (find fuel key r.head r)
    → r'.sentinel ≡ r.sentinel
    → delete fuel key r' ≡ ok none r'
unfolding delete
delete-kept fuel r r' key h e s =
    let d : find fuel key r'.head r' ≡ ok r.sentinel r' =
      find-answer fuel key r'.head r.sentinel r' (e ∙ ap ask h) in
    rw d (ground arith)

-- Insertion of a new key into a tree with a root reports success and returns the new node, and the
-- key is lost: every search, for every key, answers as before, and deletion of the key frees nothing
-- and changes nothing. Conditions: the search of the key ends at the sentinel, the sentinel is not NULL,
-- is black and does not happen to hold the key, and nothing in the memory points to the new node.
pub insert-lost :
    (fuel : ℕ) (r : Rbt) (fresh : Ptr) (key : ℕ) (payload : Ptr)
    → HasRoot r
    → IsFresh r fresh
    → (r.heap r.sentinel).key ≢ key
    → find fuel key r.head r ≡ ok r.sentinel r
    → (r' : Rbt) × (insert (suc fuel) fresh key payload r ≡ ok fresh r')
      × ((n k : ℕ) → ask (find n k r'.head r') ≡ ask (find n k r.head r))
      × (delete fuel key r' ≡ ok none r')
insert-lost fuel r fresh key payload t f k h =
    let root = root-ne-null fuel key r t.nonempty h in
    let same : (n j : ℕ)
        → ask (find n j r.head (kept r fresh key payload)) ≡ ask (find n j r.head r) =
      λ n j.
        find-Agree (kept-Agree r fresh key payload f.other t.nonempty) f.left f.right n j r.head
          (λ e. f.other (sym e)) in
    (
      kept r fresh key payload,
      insert-kept r fresh key payload f.new f.apart f.other t.nonempty t.exists root t.black fuel k
          h,
      same,
      delete-kept fuel r (kept r fresh key payload) key h (same fuel key) refl,
    )
