-- ===== src/Chain/Move.antt =====
-- An entry that moves between two lists of project/core/opium_list.h.
use checks.Prelude.{ℕ, ◌≡◌, ◌≢◌, sym, ◌∙◌, List, [], ◌∷◌, arith}
use checks.Chain.{Memory, list_add, list_del, add_between}
use checks.Chain.Ring.{Ring, Apart, Distinct, first, Between-keep, Between-first}
use checks.Chain.Insert.{list_add-Ring, list_del-list_add, list_del-next, list_del-prev, SameBut}
use checks.Chain.Delete.{list_del-Ring}

-- Two lists, the first of which begins with `e`, at addresses that are all different.
pub record TwoLists (h : Memory) (from to e : ℕ) (xs ys : List ℕ) : Type 0 where
  pub source : Ring h from (e ∷ xs)
  pub target : Ring h to ys
  pub source_apart : Apart from (e ∷ xs)
  pub distinct : Distinct (e ∷ xs)
  pub target_apart : Apart to ys
  pub target_distinct : Distinct ys
  pub entry_away : Apart e ys
  pub from_away : Apart from ys
  pub xs_away : Apart (first from xs) ys
  pub heads : from ≢ to
  pub entry_head : e ≢ to
  pub first_head : first from xs ≢ to

-- A list keeps its entries where the links of an address that is no part of it change.
SameBut-Ring :
    (h m : Memory) (e head : ℕ) (xs : List ℕ)
    → SameBut e h m
    → head ≢ e
    → Apart e xs
    → Ring h head xs
    → Ring m head xs
SameBut-Ring h m e head xs same ne a r =
    Between-keep h m e e e e (λ z p q. (same z p).0) (λ z p q. (same z p).1) head head xs ne ne ne
      ne a a a a r

around :
    (h : Memory) (from e : ℕ) (xs : List ℕ)
    → Ring h from (e ∷ xs)
    → ((h e).next ≡ first from xs) × ((h e).prev ≡ from)
around h from e [] r = (r.2.0, r.1)
around h from e (x ∷ xs) r = (r.2.0, r.1)

module _ (h : Memory) (new head n : ℕ) (f : (h head).next ≡ n) (b : (h n).prev ≡ head) where
  list_add-next : (a : ℕ) → a ≢ head → a ≢ new → (list_add new head h a).next ≡ (h a).next
  unfolding list_add add_between
  list_add-next a p q = ground arith

  list_add-prev : (a : ℕ) → a ≢ n → a ≢ new → (list_add new head h a).prev ≡ (h a).prev
  unfolding list_add add_between
  list_add-prev a p q = ground arith

module _ (h : Memory) (from to e : ℕ) (xs ys : List ℕ) (lists : TwoLists h from to e xs ys) where
  abbrev gone : Memory
  gone = list_del e h

  round : ((h e).next ≡ first from xs) × ((h e).prev ≡ from)
  round = (around h from e xs lists.source)

  -- The deletion does not touch the other list.
  target_kept : Ring gone to ys
  target_kept =
      Between-keep h gone from e (first from xs) e
        (λ z p q. list_del-next h e from (first from xs) round.0 round.1 z q ∙ ground arith)
        (λ z p q. list_del-prev h e from (first from xs) round.0 round.1 z q ∙ ground arith) to to
        ys (λ p. lists.heads (sym p)) (λ p. lists.entry_head (sym p))
        (λ p. lists.first_head (sym p)) (λ p. lists.entry_head (sym p)) lists.from_away
        lists.entry_away lists.xs_away lists.entry_away lists.target

  rest : Ring gone from xs
  rest = (list_del-Ring h from e [] xs lists.source lists.source_apart lists.distinct).0

  abbrev back : Memory
  back = list_del e (list_add e to gone)

  same : SameBut e gone back
  same = (list_del-list_add gone to e ys target_kept lists.entry_head lists.entry_away).0

  rest_back : Ring back from xs
  rest_back =
      SameBut-Ring gone back e from xs same (λ p. lists.source_apart.0 (sym p)) lists.distinct.0
        rest

  target_back : Ring back to ys
  target_back =
      SameBut-Ring gone back e to ys same (λ p. lists.entry_head (sym p)) lists.entry_away
        target_kept

-- An entry that moves from the front of a list to the front of another and back is first in its list
-- again, and both lists are as before. Conditions: the heads and the entries are different addresses.
pub list_del-list_add_twice :
    (h : Memory) (from to e : ℕ) (xs ys : List ℕ)
    → TwoLists h from to e xs ys
    → let there = list_add e to (list_del e h) in
      let m = list_add e from (list_del e there) in
      Ring there to (e ∷ ys) × Ring m from (e ∷ xs) × Ring m to ys
list_del-list_add_twice h from to e xs ys lists =
    let front =
      Between-first (back h from to e xs ys lists) from xs (rest_back h from to e xs ys lists) in
    let m = list_add e from (back h from to e xs ys lists) in
    (
      list_add-Ring (gone h from to e xs ys lists) to e ys (target_kept h from to e xs ys lists)
          lists.entry_head lists.entry_away lists.target_apart lists.target_distinct,
      list_add-Ring (back h from to e xs ys lists) from e xs (rest_back h from to e xs ys lists)
          (λ p. lists.source_apart.0 p) lists.distinct.0 lists.source_apart.1 lists.distinct.1,
      Between-keep (back h from to e xs ys lists) m from e (first from xs) e
          (list_add-next (back h from to e xs ys lists) e from (first from xs) front.0 front.1)
          (list_add-prev (back h from to e xs ys lists) e from (first from xs) front.0 front.1) to
          to ys (λ p. lists.heads (sym p)) (λ p. lists.entry_head (sym p))
          (λ p. lists.first_head (sym p)) (λ p. lists.entry_head (sym p)) lists.from_away
          lists.entry_away lists.xs_away lists.entry_away (target_back h from to e xs ys lists),
    )
