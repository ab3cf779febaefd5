-- ===== src/Chain/Insert.antt =====
-- `opium_list_add`, `opium_list_add_tail` and `opium_list_del` of project/core/opium_list.h on the
-- list that the memory holds.
use checks.Prelude.{ℕ, ◌≡◌, ◌≢◌, sym, ◌∙◌, List, [], ◌∷◌, ◌++◌, ◌==◌, if◌then◌else◌, arith}
use mathlib.Core.Path.{subst}
use checks.Chain.{Memory, list_add, list_add_tail, list_del, add_between, set_next, set_prev}
use checks.Chain.Ring.{
  Ring, Between, Apart, Distinct, first, last, Between-first, first-Apart, Between-keep,
  Between-last, Between-snoc, last-Apart,
}

-- What linking an entry between two neighbours writes.
abbrev spliced : ℕ → ℕ → ℕ → Memory → Memory
spliced new prev next h =
    set_next prev new (set_prev new prev (set_next new next (set_prev next new h)))

module _ (h : Memory) (new prev next : ℕ) (np : new ≢ prev) (nn : new ≢ next) where
  spliced-next : (a : ℕ) → a ≢ prev → a ≢ new → (spliced new prev next h a).next ≡ (h a).next
  spliced-next a p q = ground arith

  spliced-prev : (a : ℕ) → a ≢ next → a ≢ new → (spliced new prev next h a).prev ≡ (h a).prev
  spliced-prev a p q = ground arith

  spliced-in : (spliced new prev next h prev).next ≡ new
  spliced-in = ground arith

  spliced-back : (spliced new prev next h new).prev ≡ prev
  spliced-back = ground arith

  spliced-out : Between (spliced new prev next h) new next []
  spliced-out = (ground arith, ground arith)

list_add-spliced :
    (h : Memory) (new head n : ℕ)
    → (h head).next ≡ n
    → (h n).prev ≡ head
    → list_add new head h ≡ spliced new head n h
unfolding list_add add_between
list_add-spliced h new head n e b = ground arith

-- An entry that is added to a list stands first, and the others keep their order. Conditions: the
-- entries and the head are different addresses, and the new entry is none of them.
pub list_add-Ring :
    (h : Memory) (head new : ℕ) (xs : List ℕ)
    → Ring h head xs
    → new ≢ head
    → Apart new xs
    → Apart head xs
    → Distinct xs
    → Ring (list_add new head h) head (new ∷ xs)
list_add-Ring h head new [] b n a o d =
    subst (λ m. Ring m head (new ∷ [])) (sym (list_add-spliced h new head head b.0 b.1))
      (
        spliced-in h new head head n n,
        spliced-back h new head head n n,
        spliced-out h new head head n n,
      )
list_add-Ring h head new (x ∷ xs) b n a o d =
    let nx : new ≢ x = λ e. a.0 (sym e) in
    let out = spliced-out h new head x n nx in
    subst (λ m. Ring m head (new ∷ (x ∷ xs))) (sym (list_add-spliced h new head x b.0 b.1))
      (
        spliced-in h new head x n nx,
        spliced-back h new head x n nx,
        (
          out.0,
          out.1,
          Between-keep h (spliced new head x h) head new x new (spliced-next h new head x n nx)
              (spliced-prev h new head x n nx) x head xs o.0 a.0 (λ e. o.0 (sym e)) (λ e. n (sym e))
              o.1 a.1 d.0 a.1 b.2,
        ),
      )

list_add_tail-spliced :
    (h : Memory) (new head p : ℕ)
    → (h head).prev ≡ p
    → (h p).next ≡ head
    → list_add_tail new head h ≡ spliced new p head h
unfolding list_add_tail add_between
list_add_tail-spliced h new head p e b = ground arith

-- An entry that is added at the tail of a list stands last, and the others keep their order.
-- Conditions: the entries and the head are different addresses, and the new entry is none of them.
pub list_add_tail-Ring :
    (h : Memory) (head new : ℕ) (xs : List ℕ)
    → Ring h head xs
    → new ≢ head
    → Apart new xs
    → Apart head xs
    → Distinct xs
    → Ring (list_add_tail new head h) head (xs ++ (new ∷ []))
list_add_tail-Ring h head new xs b n a o d =
    let end = Between-last h head head xs b in
    let p = last head xs in
    let np : new ≢ p = λ e. last-Apart new head xs (λ z. n (sym z)) a (sym e) in
    subst (λ m. Ring m head (xs ++ (new ∷ [])))
      (sym (list_add_tail-spliced h new head p end.1 end.0))
      (Between-snoc h (spliced new p head h) new head head xs (spliced-next h new p head np n)
        (spliced-prev h new p head np n) (spliced-in h new p head np n)
        (spliced-back h new p head np n) (spliced-out h new p head np n) (λ e. n (sym e)) a o o d b)

module _ (m : Memory) (entry prev next : ℕ) (n : (m entry).next ≡ next)
    (p : (m entry).prev ≡ prev) where
  pub list_del-next :
      (a : ℕ) → a ≢ entry → (list_del entry m a).next ≡ (if a == prev then next else (m a).next)
  unfolding list_del
  list_del-next a e = ground arith

  pub list_del-prev :
      (a : ℕ) → a ≢ entry → (list_del entry m a).prev ≡ (if a == next then prev else (m a).prev)
  unfolding list_del
  list_del-prev a e = ground arith

module _ (h : Memory) (new prev next : ℕ) (f : (h prev).next ≡ next) (b : (h next).prev ≡ prev)
    (np : new ≢ prev) (nn : new ≢ next) where
  abbrev with_new : Memory
  with_new = spliced new prev next h

  del-spliced-next : (a : ℕ) → a ≢ new → (list_del new with_new a).next ≡ (h a).next
  del-spliced-next a e =
      list_del-next with_new new prev next (ground arith) (ground arith) a e ∙ ground arith

  del-spliced-prev : (a : ℕ) → a ≢ new → (list_del new with_new a).prev ≡ (h a).prev
  del-spliced-prev a e =
      list_del-prev with_new new prev next (ground arith) (ground arith) a e ∙ ground arith

-- All links but those of `new` are as in `h`.
abbrev pub SameBut : ℕ → Memory → Memory → Type 0
SameBut new h m = (a : ℕ) → a ≢ new → ((m a).next ≡ (h a).next) × ((m a).prev ≡ (h a).prev)

del-spliced :
    (h : Memory) (new prev next : ℕ)
    → (h prev).next ≡ next
    → (h next).prev ≡ prev
    → new ≢ prev
    → new ≢ next
    → SameBut new h (list_del new (spliced new prev next h))
del-spliced h new prev next f b np nn a e =
    (del-spliced-next h new prev next f b np nn a e, del-spliced-prev h new prev next f b np nn a e)

-- Deletion of the entry that was just added, at the front or at the tail, leaves all links but those
-- of the entry as before the addition. Conditions: the new entry is neither the head nor one of the
-- entries.
pub list_del-list_add :
    (h : Memory) (head new : ℕ) (xs : List ℕ)
    → Ring h head xs
    → new ≢ head
    → Apart new xs
    → SameBut new h (list_del new (list_add new head h))
      × SameBut new h (list_del new (list_add_tail new head h))
list_del-list_add h head new xs b n d =
    let end = Between-last h head head xs b in
    let front = Between-first h head xs b in
    let np : new ≢ last head xs = λ e. last-Apart new head xs (λ z. n (sym z)) d (sym e) in
    let nf : new ≢ first head xs = first-Apart new head xs n d in
    (
      subst (λ m. SameBut new h (list_del new m))
          (sym (list_add-spliced h new head (first head xs) front.0 front.1))
          (del-spliced h new head (first head xs) front.0 front.1 n nf),
      subst (λ m. SameBut new h (list_del new m))
          (sym (list_add_tail-spliced h new head (last head xs) end.1 end.0))
          (del-spliced h new (last head xs) head end.0 end.1 np n),
    )
