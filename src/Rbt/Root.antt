-- ===== src/Rbt/Root.antt =====
-- Insertion in project/core/opium_rbt.c where the tree is empty, and where the key is the one that
-- the memory of the sentinel happens to hold.
use checks.Prelude.{
  ℕ, zero, suc, ◌≡◌, ◌≢◌, refl, sym, ◌∙◌, Bool, false, some, ◌==◌, if◌then◌else◌, arith, ℕ_discrete,
}
use checks.Rbt.{Ptr, null, Node, Rbt, ok, load, modify, update}
use checks.Rbt.Delete.{find, delete, choose, remove, paint_child}
use checks.Rbt.Insert.{
  present, below, descend, attach, place, node_insert, fix_insert, finish, insert, node_init,
}
use checks.Rbt.Search.{ask, find_same, descend-find}
use checks.Rbt.Lost.{new_node}

-- The only node of a tree.
abbrev pub root_node : Rbt → ℕ → Ptr → Node
root_node r key payload = record {
  parent = null;
  right = r.sentinel;
  left = r.sentinel;
  key = key;
  payload = payload;
  red = false;
}

-- The tree that `opium_rbt_node_insert` leaves, and that with the data.
abbrev rooted : Rbt → Ptr → ℕ → Rbt
rooted r fresh key =
    let init = update r.heap fresh (new_node r r.sentinel key) in
    record r {
      head = fresh;
      heap = update init fresh (record (init fresh) {
        parent = null;
        right = r.sentinel;
        left = r.sentinel;
        red = false;
      });
    }

abbrev filled : Rbt → Ptr → ℕ → Ptr → Rbt
filled r fresh key payload =
    let s = rooted r fresh key in
    let heap = update s.heap fresh (record (s.heap fresh) { payload = payload }) in
    record s { heap = update heap fresh (record (heap fresh) { red = false }) }

module _ (r : Rbt) (fresh : Ptr) (key : ℕ) (payload : Ptr) (new : fresh ≢ null)
    (apart : fresh ≢ r.sentinel) (empty : r.head ≡ r.sentinel) (exists : r.sentinel ≢ null) where
  attach-rooted : attach fresh key r.sentinel r ≡ ok fresh (rooted r fresh key)
  unfolding attach node_init load modify
  attach-rooted = ground arith

  fix_insert-rooted :
      (fuel : ℕ) → fix_insert (suc fuel) fresh (rooted r fresh key) ≡ ok fresh (rooted r fresh key)
  unfolding fix_insert load
  fix_insert-rooted fuel = ground arith

  finish-filled : finish payload fresh (rooted r fresh key) ≡ ok fresh (filled r fresh key payload)
  unfolding finish modify
  finish-filled = ground arith

  find-filled :
      (fuel k : ℕ)
      → find (suc (suc fuel)) k fresh (filled r fresh key payload)
        ≡ ok (if k == key then fresh else r.sentinel) (filled r fresh key payload)
  unfolding find load
  find-filled fuel k = ground arith

  filled-node : (filled r fresh key payload).heap fresh ≡ root_node r key payload
  filled-node = ground arith

insert-filled :
    (fuel : ℕ) (r : Rbt) (fresh : Ptr) (key : ℕ) (payload : Ptr)
    → fresh ≢ null
    → fresh ≢ r.sentinel
    → r.head ≡ r.sentinel
    → r.sentinel ≢ null
    → (r.heap r.sentinel).key ≢ key
    → insert (suc (suc fuel)) fresh key payload r ≡ ok fresh (filled r fresh key payload)
unfolding insert node_insert place
insert-filled fuel r fresh key payload f a e s k =
    let find-empty : find (suc fuel) key r.head r ≡ ok r.sentinel r = unfold find in ground arith in
    let d : descend (suc (suc fuel)) key null r.head r ≡ ok (below r.sentinel) r =
      descend-find (suc fuel) key null r.head r (λ e. s (sym e)) s k find-empty in
    simp (d, attach-rooted r fresh key payload f a e s)
      (ground (
        arith,
        fix_insert-rooted r fresh key payload f a e s (suc fuel),
        finish-filled r fresh key payload f a e s,
      ))

-- Insertion into an empty tree makes the new node the root, black and with the key and data, and
-- then a search finds the node for its key and the sentinel for any other key. Conditions: the new
-- node is neither NULL nor the sentinel, and the sentinel is not NULL and does not happen to hold the key.
pub insert-root :
    (fuel : ℕ) (r : Rbt) (fresh : Ptr) (key : ℕ) (payload : Ptr)
    → fresh ≢ null
    → fresh ≢ r.sentinel
    → r.head ≡ r.sentinel
    → r.sentinel ≢ null
    → (r.heap r.sentinel).key ≢ key
    → (r' : Rbt) × (insert (suc (suc fuel)) fresh key payload r ≡ ok fresh r')
      × (r'.head ≡ fresh)
      × (r'.heap fresh ≡ root_node r key payload)
      × ((n k : ℕ)
          → find (suc (suc n)) k r'.head r' ≡ ok (if k == key then fresh else r.sentinel) r')
insert-root fuel r fresh key payload f a e s k = (
  filled r fresh key payload,
  insert-filled fuel r fresh key payload f a e s k,
  refl,
  filled-node r fresh key payload f a e s,
  find-filled r fresh key payload f a e s,
)

choose-leaf :
    (fuel : ℕ) (m : Rbt) (p : Ptr)
    → p ≢ null
    → (m.heap p).left ≡ m.sentinel
    → choose fuel p m ≡ ok (p, (m.heap p).red) m
unfolding choose load
choose-leaf fuel m p n l = ground arith

remove-leaf :
    (fuel : ℕ) (m : Rbt) (p : Ptr) (is_red : Bool)
    → p ≢ null
    → m.head ≡ p
    → (m.heap p).left ≡ m.sentinel
    → (m.heap p).right ≡ m.sentinel
    → remove fuel p is_red m ≡ ok tt (record m { head = m.sentinel })
unfolding remove load paint_child
remove-leaf fuel m p is_red n h l r = ground arith

delete-only :
    (fuel key : ℕ) (m : Rbt) (p : Ptr)
    → find fuel key m.head m ≡ ok p m
    → p ≢ m.sentinel
    → p ≢ null
    → m.head ≡ p
    → (m.heap p).left ≡ m.sentinel
    → (m.heap p).right ≡ m.sentinel
    → delete fuel key m ≡ ok (some p) (record m { head = m.sentinel })
unfolding delete
delete-only fuel key m p f ne n h l r =
    ground (arith, f, choose-leaf fuel m p n l, remove-leaf fuel m p (m.heap p).red n h l r)

-- The key that was just inserted into an empty tree is deleted again: its node is given back to the
-- slab and the tree is empty. Conditions: those of the insertion.
pub delete-insert_root :
    (fuel : ℕ) (r : Rbt) (fresh : Ptr) (key : ℕ) (payload : Ptr)
    → fresh ≢ null
    → fresh ≢ r.sentinel
    → r.head ≡ r.sentinel
    → r.sentinel ≢ null
    → (r.heap r.sentinel).key ≢ key
    → (r' r'' : Rbt) × (insert (suc (suc fuel)) fresh key payload r ≡ ok fresh r')
      × (delete (suc (suc fuel)) key r' ≡ ok (some fresh) r'')
      × (r''.head ≡ r.sentinel)
      × (r''.sentinel ≡ r.sentinel)
delete-insert_root fuel r fresh key payload f a e s k =
    let found : find (suc (suc fuel)) key fresh (filled r fresh key payload)
        ≡ ok fresh (filled r fresh key payload) =
      find-filled r fresh key payload f a e s fuel key ∙ ground arith in
    (
      filled r fresh key payload,
      record (filled r fresh key payload) { head = r.sentinel },
      insert-filled fuel r fresh key payload f a e s k,
      delete-only (suc (suc fuel)) key (filled r fresh key payload) fresh found a f refl
          (ground arith) (ground arith),
      refl,
      refl,
    )

-- The loop meets the sentinel's own key before it sees that it is the sentinel.
descend-sentinel :
    (fuel key : ℕ) (parent current : Ptr) (r : Rbt)
    → parent ≢ r.sentinel
    → r.sentinel ≢ null
    → (r.heap r.sentinel).key ≡ key
    → find fuel key current r ≡ ok r.sentinel r
    → descend (suc fuel) key parent current r ≡ ok (present r.sentinel) r
unfolding find descend load
descend-sentinel zero key parent current r p s k h = cc
descend-sentinel (suc fuel) key parent current r p s k h = elim (ℕ_discrete current r.sentinel) [
  | yes e ↦ ground arith
  | no ne ↦ ground (
    arith,
    descend-sentinel fuel key current (r.heap current).right r,
    descend-sentinel fuel key current (r.heap current).left r,
  )
]

-- The tree with the data in the sentinel.
abbrev spoilt : Rbt → Ptr → Rbt
spoilt r payload =
    let heap = update r.heap r.sentinel (record (r.heap r.sentinel) { payload = payload }) in
    record r { heap = update heap r.head (record (heap r.head) { red = false }) }

find-spoilt :
    (r : Rbt) (payload : Ptr) (fuel key : ℕ)
    → ask (find fuel key r.head (spoilt r payload)) ≡ ask (find fuel key r.head r)
find-spoilt r payload fuel key =
    find_same r (spoilt r payload) refl (λ p. ground arith) (λ p. ground arith) (λ p. ground arith)
      fuel key r.head

-- Where the sentinel happens to hold the key, insertion of that key into a tree without it returns the
-- sentinel, writes the data there, and every search answers as before. Conditions: a black
-- sentinel that is its own parent, as `opium_rbt_init` makes it, it and the root not NULL, and a search
-- that ends at it.
pub insert-sentinel :
    (fuel : ℕ) (r : Rbt) (fresh : Ptr) (key : ℕ) (payload : Ptr)
    → r.head ≢ null
    → r.sentinel ≢ null
    → (r.heap r.sentinel).key ≡ key
    → (r.heap r.sentinel).parent ≡ r.sentinel
    → (r.heap r.sentinel).red ≡ false
    → find fuel key r.head r ≡ ok r.sentinel r
    → (r' : Rbt) × (insert (suc fuel) fresh key payload r ≡ ok r.sentinel r')
      × ((r'.heap r.sentinel).payload ≡ payload)
      × ((n j : ℕ) → ask (find n j r'.head r') ≡ ask (find n j r.head r))
unfolding insert node_insert place fix_insert finish load modify
insert-sentinel fuel r fresh key payload h s k p b m =
    let d : descend (suc fuel) key null r.head r ≡ ok (present r.sentinel) r =
      descend-sentinel fuel key null r.head r (λ e. s (sym e)) s k m in
    (spoilt r payload, simp (d) (ground arith), ground arith, λ n j. find-spoilt r payload n j)
