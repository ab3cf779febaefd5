-- ===== src/Bitmask/Run.antt =====
-- The search for a run of bits: `onion_ffgb` of src/onion/sup.c.
use checks.Prelude.{
  ℕ, zero, suc, ◌+◌, ◌*◌, ◌/◌, ◌<◌, ◌≤◌, ◌≡◌, refl, ap, inl, inr, true, false, Bool-cases, Option,
  none, some, leb, ltb, if◌then◌else◌, arith,
}
use checks.Bitmask.{Bitmask, ffb, Grab, grabbed, no_grab, out_of_fuel, grab_loop, ffgb}
use checks.Bitmask.Search.{is_wanted, Searched, ffb-Searched}
use checks.Bitmask.Marks.{IsValid}

-- No run of so many wanted bits begins at a place.
abbrev pub Missed : Bitmask → ℕ → ℕ → ℕ → Type 0
Missed b grab type s = (j : ℕ) × (s ≤ j) × (j < s + grab) × (is_wanted b type j ≡ false)

-- The bits below this one are searched, as far as they are at most the size.
abbrev pub reach : Bitmask → ℕ
reach b = (b.conv_size + 63) / 64 * 64

-- An answer of the search is the first run of bits of the wanted kind; the search ends; and it answers
-- -1 only if no run lies among the bits that are searched.
pub IsRun : Bitmask → ℕ → ℕ → Grab → Type 0
IsRun b grab type (grabbed pos) =
    ((j : ℕ) → pos ≤ j → j < pos + grab → is_wanted b type j ≡ true)
    × ((s : ℕ) → s < pos → Missed b grab type s)
IsRun b grab type no_grab =
    (s : ℕ) → s + grab ≤ reach b → s + grab ≤ b.size + 1 → Missed b grab type s
IsRun b grab type out_of_fuel = ⊥

-- The search has gone on to `offset` behind `combo` wanted bits, and no run begins before those.
pub record Passed (b : Bitmask) (grab type offset combo last : ℕ) : Type 0 where
  pub few : combo < grab
  pub near : 0 < combo → last ≡ offset + 1
  pub before : (s : ℕ) → s + combo < offset → Missed b grab type s

Passed-Missed :
    (b : Bitmask) (grab type offset combo last pos : ℕ)
    → Passed b grab type offset combo last
    → ((j : ℕ) → offset ≤ j → j < pos → is_wanted b type j ≡ false)
    → (s : ℕ) → s < pos
    → offset < pos
    → Missed b grab type s
Passed-Missed b grab type offset combo last pos p nearer s lt up =
    let few = p.few in
    elim (Bool-cases (ltb (s + combo) offset)) [
      | inl early ↦ p.before s (ground arith)
      | inr late ↦ elim (Bool-cases (leb offset s)) [
        | inl behind ↦ (s, omega arith, omega arith, nearer s (ground arith) lt)
        | inr across ↦ (offset, ground arith, ground arith, nearer offset (omega arith) up)
      ]
    ]

-- With the next wanted bit.
Passed-next :
    (b : Bitmask) (grab type offset combo last pos : ℕ)
    → Passed b grab type offset combo last
    → last ≤ offset + 1
    → offset ≤ pos
    → ((j : ℕ) → offset ≤ j → j < pos → is_wanted b type j ≡ false)
    → (s : ℕ) → s + ((if ltb last (pos + 1) then 0 else combo) + 1) < pos + 1
    → Missed b grab type s
Passed-next b grab type offset combo last pos p behind le nearer s lt =
    elim (Bool-cases (ltb offset pos)) [
      | inl gap ↦
          Passed-Missed b grab type offset combo last pos p nearer s (omega arith) (ground arith)
      | inr next ↦ p.before s (by_cases (ground arith))
    ]
  where
    by_cases : pos ≤ offset → s + combo < offset
    by_cases same = elim (Bool-cases (ltb 0 combo)) [
      | inl some_held ↦ let e = p.near (ground arith) in ground arith
      | inr none_held ↦ ground arith
    ]

-- The `combo` positions up to `last - 2` are wanted.
abbrev pub Held : Bitmask → ℕ → ℕ → ℕ → Type 0
Held b type combo last = (j : ℕ) → j + 2 ≤ last → last < j + 2 + combo → is_wanted b type j ≡ true

module _ (b : Bitmask) (grab type : ℕ) (v : IsValid b) (kind : type ≤ 1) where
  abbrev limit : ℕ
  limit = reach b

  -- A wanted position behind those that are held extends the run, or begins one.
  extended :
      (combo last offset pos : ℕ)
      → Held b type combo last
      → last ≤ offset + 1
      → offset ≤ pos
      → is_wanted b type pos ≡ true
      → Held b type ((if ltb last (pos + 1) then 0 else combo) + 1) (pos + 2)
  extended combo last offset pos h behind le one j low high =
      elim (Bool-cases (ltb last (pos + 1))) [
        | inl gap ↦
            let same : pos ≡ j = omega (arith, ap (λ c. c + 1) (zero_combo gap)) in rw (← same) one
        | inr next ↦ elim (Bool-cases (ltb j pos)) [
          | inl earlier ↦ h j (ground arith) (ground arith)
          | inr here ↦ let same : pos ≡ j = ground arith in rw (← same) one
        ]
      ]
    where
      zero_combo : ltb last (pos + 1) ≡ true → (if ltb last (pos + 1) then 0 else combo) ≡ 0
      zero_combo gap = rw gap refl

  grab_loop-IsRun :
      (fuel offset combo last : ℕ)
      → Held b type combo last
      → last ≤ offset + 1
      → combo ≤ offset
      → offset ≤ limit
      → offset ≤ b.size + 1
      → b.size + 1 < offset + fuel
      → Passed b grab type offset combo last
      → IsRun b grab type (grab_loop b grab type fuel offset combo last)
  unfolding grab_loop IsRun Searched
  grab_loop-IsRun zero offset combo last h behind few inside small fuel passed =
      absurd (omega arith)
  grab_loop-IsRun (suc fuel) offset combo last h behind few inside small enough passed =
      by_search
        (λ offset' combo' last' h' behind' few' inside' small' enough' passed'.
          grab_loop-IsRun fuel offset' combo' last' h' behind' few' inside' small' enough' passed')
        (ffb b offset type) refl (ffb-Searched b offset type v.whole kind inside)
    where
      by_search :
          ((offset' combo' last' : ℕ)
            → Held b type combo' last'
            → last' ≤ offset' + 1
            → combo' ≤ offset'
            → offset' ≤ limit
            → offset' ≤ b.size + 1
            → b.size + 1 < offset' + fuel
            → Passed b grab type offset' combo' last'
            → IsRun b grab type (grab_loop b grab type fuel offset' combo' last'))
          → (o : Option ℕ) → ffb b offset type ≡ o
          → Searched b type offset limit o
          → IsRun b grab type (grab_loop b grab type (suc fuel) offset combo last)
      by_search later none e s = rw (e, grab_loop) none_left
        where
          none_left : (s : ℕ) → s + grab ≤ reach b → s + grab ≤ b.size + 1 → Missed b grab type s
          none_left t low high =
              let short = passed.few in
              elim (Bool-cases (ltb (t + combo) offset)) [
                | inl early ↦ passed.before t (ground arith)
                | inr late ↦
                    Passed-Missed b grab type offset combo last (t + grab) passed
                      (λ j from upto. s j from (omega arith) (omega arith)) t (omega arith)
                      (ground arith)
              ]
      by_search later (some pos) e (le, up, in_size, one, nearer) =
          elim (Bool-cases (leb grab combo')) [
            | inl full ↦
                rw (e, full, grab_loop)
                  (
                    λ j low high. held' j (ground arith) (ground arith),
                    λ t lt. first t (ground (arith, short)),
                  )
            | inr more_bits ↦
                rw (e, more_bits, grab_loop)
                  (later (pos + 1) combo' (pos + 2) held' (omega arith) counted (omega arith)
                    (omega arith) (omega arith)
                    (record { few = ground arith; near = λ held. omega arith; before = first }))
          ]
        where
          combo' : ℕ
          combo' = (if ltb last (pos + 1) then 0 else combo) + 1

          held' : Held b type combo' (pos + 2)
          held' = extended combo last offset pos h behind le one

          first : (t : ℕ) → t + combo' < pos + 1 → Missed b grab type t
          first = Passed-next b grab type offset combo last pos passed behind le nearer

          short : combo' ≤ grab
          short = ground (arith, passed.few)

          counted : combo' ≤ pos + 1
          counted = ground arith

-- The search for a run of bits of one kind in a valid mask ends within its fuel. Where it answers a
-- position, that position and the ones behind it, as many as were asked for, are all of that kind, and it
-- is the first such position. Where it answers -1, no run of so many lies among the bits that it searches,
-- those below 64 for every 64 words and at most the size. Conditions: the kind is 0 or 1, and at least one
-- bit is asked for.
pub ffgb-IsRun :
    (b : Bitmask) (grab type : ℕ)
    → IsValid b
    → type ≤ 1
    → 0 < grab
    → IsRun b grab type (ffgb b grab type)
unfolding ffgb
ffgb-IsRun b grab type v kind some_bits =
    grab_loop-IsRun b grab type v kind (b.size + 2) 0 0 0 (λ j low high. absurd (omega arith))
      (omega arith) (omega arith) (omega arith) (omega arith) (omega arith)
      (record {
        few = some_bits;
        near = λ held. absurd (omega arith);
        before = λ s lt. absurd (omega arith);
      })
