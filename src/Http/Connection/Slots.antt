-- ===== src/Http/Connection/Slots.antt =====
-- Which slot `onion_http_find_free_request` (src/onion/parser.c) chooses.
use checks.Prelude.{
  ℕ, zero, suc, ◌+◌, ◌-◌, ◌%◌, ◌<◌, ◌≤◌, ◌≡◌, refl, sym, ap, ◌∙◌, inl, inr, true, false, Bool-cases,
  Option, none, some, get_elem?, get_elem?-some, leb, length, subst, arith,
}
use checks.Http.Request.{Request}
use checks.Http.Connection.{Parser, max_requests, is_busy, find_from, find_free_request}

-- The slot that is tried in a round.
abbrev pub slot_at : Parser → ℕ → ℕ
slot_at p round = (p.req_pos + round) % max_requests

abbrev pub Busy : Parser → ℕ → Type 0
Busy p pos = is_busy (get_elem? p.requests pos) ≡ true

-- What a search from a round on, with so many rounds left, says.
pub FoundFrom : Parser → ℕ → ℕ → Option ℕ → Type 0
FoundFrom p rounds index none = (j : ℕ) → index ≤ j → j < index + rounds → Busy p (slot_at p j)
FoundFrom p rounds index (some pos) =
    (k : ℕ) × (index ≤ k)
    × (k < index + rounds)
    × (pos ≡ slot_at p k)
    × (is_busy (get_elem? p.requests pos) ≡ false)
    × ((j : ℕ) → index ≤ j → j < k → Busy p (slot_at p j))

find_from-FoundFrom :
    (p : Parser) (rounds index : ℕ) → FoundFrom p rounds index (find_from p rounds index)
unfolding find_from FoundFrom
find_from-FoundFrom p zero index = λ j le lt. absurd (omega arith)
find_from-FoundFrom p (suc rounds) index =
    elim (Bool-cases (is_busy (get_elem? p.requests (slot_at p index)))) [
      | inr free ↦
          rw free (index, omega arith, omega arith, refl, free, λ j le lt. absurd (omega arith))
      | inl busy ↦
          rw busy
            (later (find_from p rounds (suc index)) (find_from-FoundFrom p rounds (suc index)) busy)
    ]
  where
    here : (j : ℕ) → Busy p (slot_at p index) → index ≤ j → ¬ (suc index ≤ j) → Busy p (slot_at p j)
    here j busy le not_later = let same : index ≡ j = omega arith in rw (← same) busy

    later :
        (o : Option ℕ)
        → FoundFrom p rounds (suc index) o
        → Busy p (slot_at p index)
        → FoundFrom p (suc rounds) index o
    later none h busy = λ j le lt. elim (Bool-cases (leb (suc index) j)) [
      | inl up ↦ h j (ground arith) (omega arith)
      | inr low ↦ here j busy le (ground arith)
    ]
    later (some pos) (k, le, lt, e, free, h) busy = (
      k,
      omega arith,
      omega arith,
      e,
      free,
      λ j le' lt'. elim (Bool-cases (leb (suc index) j)) [
        | inl up ↦ h j (ground arith) lt'
        | inr low ↦ here j busy le' (ground arith)
      ],
    )

-- The answer of the search, in terms of the table: `none` says that every slot is busy; `some` gives
-- a slot of the table that is free, and the slots from `req_pos` around to it are busy.
pub IsFirstFree : Parser → Option ℕ → Type 0
IsFirstFree p none = (pos : ℕ) → pos < max_requests → Busy p pos
IsFirstFree p (some pos) =
    (pos < max_requests)
    × (slot : Request) × (get_elem? p.requests pos ≡ some slot)
    × (slot.is_ready ≡ false)
    × (k : ℕ) × (k < max_requests)
    × (pos ≡ slot_at p k)
    × ((j : ℕ) → j < k → Busy p (slot_at p j))

-- The search answers the first slot from `req_pos` on, around the table, that is not ready; and it
-- answers none only if each of the eight is. Condition: the table has its eight slots.
pub find_free_request_lem :
    (p : Parser) → length p.requests ≡ max_requests → IsFirstFree p (find_free_request p)
unfolding find_free_request IsFirstFree FoundFrom
find_free_request_lem p size =
    around (find_from p max_requests 0) (find_from-FoundFrom p max_requests 0)
  where
    around : (o : Option ℕ) → FoundFrom p max_requests 0 o → IsFirstFree p o
    around none h = λ pos lt.
        let k = (pos + 8 - p.req_pos % 8) % 8 in
        let same : slot_at p k ≡ pos = omega arith in rw (← same) (h k (omega arith) (omega arith))
    around (some pos) (k, le, lt, e, free, h) =
        let below : pos < max_requests = omega arith in
        let (slot, there) = get_elem?-some p.requests pos (omega (arith, size)) in
        let waits : slot.is_ready ≡ false = ap is_busy (sym there) ∙ free in
        (below, slot, there, waits, k, lt, e, λ j lt'. h j (omega arith) lt')

-- A slot that is found is one of the table, and free.
pub find_free_request-slot :
    (p : Parser) (pos : ℕ)
    → length p.requests ≡ max_requests
    → find_free_request p ≡ some pos
    → (pos < max_requests)
      × (slot : Request) × (get_elem? p.requests pos ≡ some slot)
      × (slot.is_ready ≡ false)
unfolding IsFirstFree
find_free_request-slot p pos size found =
    let first : IsFirstFree p (some pos) =
      subst (λ o. IsFirstFree p o) found (find_free_request_lem p size) in
    (first.0, first.1, first.2, first.3)
