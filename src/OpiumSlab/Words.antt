-- ===== src/OpiumSlab/Words.antt =====
-- The masks of the pages (project/core/opium_slab.c and opium_slab.h).
use checks.Prelude.{
  ℕ, zero, suc, ◌+◌, ◌*◌, ◌/◌, ◌%◌, ◌^◌, ◌<◌, ◌≤◌, ◌≡◌, ◌≢◌, refl, sym, ap, ◌∙◌, inl, inr, true,
  false, ◌&&◌, Bool-cases, Option, none, some, ltb, ◌==◌, ◌↔◌, arith,
}
use checks.Bitmask.{bit_of, with_bit, without_bit, scan_bits}
use checks.Bitmask.Words.{ScannedFrom, scan_bits-ScannedFrom}
use checks.OpiumSlab.{low_bits, without_lowest, page_one_used}

pub without_bit-with_bit :
    (bit word : ℕ) → bit_of bit word ≡ false → without_bit bit (with_bit bit word) ≡ word
unfolding bit_of with_bit without_bit
without_bit-with_bit zero word nil = ground arith
without_bit-with_bit (suc bit) word nil =
    let half : (with_bit bit (word / 2) * 2 + word % 2) / 2 ≡ with_bit bit (word / 2) =
      omega arith in
    let back = without_bit-with_bit bit (word / 2) nil in
    ap (λ n. without_bit bit n * 2 + (with_bit bit (word / 2) * 2 + word % 2) % 2) half
    ∙ omega (arith, back)

-- A word of so many bits, all of which are zero.
pub no_bits :
    (width word : ℕ) → word < 2 ^ width → ((j : ℕ) → j < width → bit_of j word ≡ false) → word ≡ 0
unfolding bit_of
no_bits zero word small nil = omega arith
no_bits (suc width) word small nil =
    let half = no_bits width (word / 2) (omega arith) (λ j lt. nil (suc j) (omega arith)) in
    let low : (word % 2 == 1) ≡ false = nil 0 (omega arith) in ground (arith, half, low)

pub low_bits_small : (count width word : ℕ) → count ≤ width → low_bits count word < 2 ^ width
unfolding low_bits
low_bits_small zero zero word le = omega arith
low_bits_small zero (suc width) word le =
    let rest = low_bits_small zero width word (omega arith) in omega (arith, rest)
low_bits_small (suc count) zero word le = absurd (omega arith)
low_bits_small (suc count) (suc width) word le =
    let rest = low_bits_small count width (word / 2) (omega arith) in omega (arith, rest)

pub bit_of-low_bits :
    (count j word : ℕ) → bit_of j (low_bits count word) ≡ (ltb j count && bit_of j word)
unfolding bit_of low_bits
bit_of-low_bits zero zero word = ground arith
bit_of-low_bits zero (suc j) word = bit_of-low_bits zero j word ∙ ground arith
bit_of-low_bits (suc count) zero word = ground arith
bit_of-low_bits (suc count) (suc j) word =
    let half : (low_bits count (word / 2) * 2 + word % 2) / 2 ≡ low_bits count (word / 2) =
      omega arith in
    ap (bit_of j) half ∙ bit_of-low_bits count j (word / 2) ∙ ground arith

-- A word that is zero has no bit.
bit_of-zero : (j : ℕ) → bit_of j 0 ≡ false
unfolding bit_of
bit_of-zero zero = refl
bit_of-zero (suc j) = bit_of-zero j

bit_nonzero : (i word : ℕ) → bit_of i word ≡ true → word ≢ 0
bit_nonzero i word one = λ e.
    let nil : bit_of i word ≡ false = ap (bit_of i) e ∙ bit_of-zero i in ground (arith, nil, one)

-- Nothing but one bit is set.
unfoldable pub OnlyBit : ℕ → ℕ → ℕ → Type 0
OnlyBit width i word =
    (bit_of i word ≡ true) × ((j : ℕ) → j < width → j ≢ i → bit_of j word ≡ false)

OnlyBit-set : (width i word : ℕ) → OnlyBit width i word → bit_of i word ≡ true
unfolding OnlyBit
OnlyBit-set width i word only = only.0

-- An odd word with another bit keeps it without the lowest one, an even word is halved.
without_lowest-odd :
    (width word j : ℕ)
    → without_lowest (suc width) word ≡ 0
    → (word % 2 == 1) ≡ true
    → bit_of j (word / 2) ≡ true
    → ⊥
unfolding without_lowest
without_lowest-odd width word j z odd one =
    let half : word / 2 ≡ 0 = ground (arith, z, odd) in
    let none : bit_of j (word / 2) ≡ false = ap (bit_of j) half ∙ bit_of-zero j in
    ground (arith, none, one)

without_lowest-even :
    (width word : ℕ)
    → without_lowest (suc width) word ≡ 0
    → (word % 2 == 1) ≡ false
    → without_lowest width (word / 2) ≡ 0
unfolding without_lowest
without_lowest-even width word z even = ground (arith, z, even)

-- What is left without the lowest one is zero only if there was no other.
unique_bit :
    (width word i j : ℕ)
    → i < width
    → j < width
    → without_lowest width word ≡ 0
    → bit_of i word ≡ true
    → bit_of j word ≡ true
    → i ≡ j
unfolding bit_of without_lowest
unique_bit zero word i j li lj z bi bj = absurd (omega arith)
unique_bit (suc width) word zero zero li lj z bi bj = refl
unique_bit (suc width) word zero (suc j) li lj z bi bj =
    absurd (without_lowest-odd width word j z bi bj)
unique_bit (suc width) word (suc i) zero li lj z bi bj =
    absurd (without_lowest-odd width word i z bj bi)
unique_bit (suc width) word (suc i) (suc j) li lj z bi bj = elim (Bool-cases (word % 2 == 1)) [
  | inl odd ↦ absurd (without_lowest-odd width word i z odd bi)
  | inr even ↦ ap suc (
      unique_bit width (word / 2) i j (omega arith) (omega arith)
        (without_lowest-even width word z even) bi bj)
]

without_lowest-only :
    (width word i : ℕ)
    → i < width
    → word < 2 ^ width
    → OnlyBit width i word
    → without_lowest width word ≡ 0
unfolding bit_of without_lowest OnlyBit
without_lowest-only zero word i lt small only = absurd (omega arith)
without_lowest-only (suc width) word zero lt small (one, others) =
    let rest =
      no_bits width (word / 2) (omega arith)
        (λ j lj. others (suc j) (omega arith) (λ e. omega arith)) in
    ground (arith, rest, one)
without_lowest-only (suc width) word (suc i) lt small (one, others) =
    let even : (word % 2 == 1) ≡ false = others 0 (omega arith) (λ e. omega arith) in
    let rest =
      without_lowest-only width (word / 2) i (omega arith) (omega arith)
        (one, λ j lj ne. others (suc j) (omega arith) (λ e. ne (omega arith))) in
    rw even (omega (arith, rest))

module _ (mask count : ℕ) (lt : count < 64) where
  abbrev relevant : ℕ
  relevant = low_bits count mask

  inside : (j : ℕ) → j < count → bit_of j relevant ≡ bit_of j mask
  inside j lj = bit_of-low_bits count j mask ∙ ground arith

  single : page_one_used mask count ≡ true → (relevant ≢ 0) × (without_lowest 64 relevant ≡ 0)
  unfolding page_one_used
  single h = (ground arith, ground arith)

  found :
      without_lowest 64 relevant ≡ 0
      → (i : ℕ) → i < count
      → bit_of i relevant ≡ true
      → OnlyBit count i mask
  unfolding OnlyBit
  found z i li one = (
    sym (inside i li) ∙ one,
    λ j lj ne. elim (Bool-cases (bit_of j mask)) [
      | inr nil ↦ nil
      | inl two ↦
          absurd
            (ne (unique_bit 64 relevant j i (omega arith) (omega arith) z (inside j lj ∙ two) one))
    ],
  )

  some_bit :
      (o : Option ℕ)
      → ScannedFrom count 0 relevant o
      → relevant ≢ 0
      → (i : ℕ) × (i < count) × (bit_of i relevant ≡ true)
  unfolding ScannedFrom
  some_bit none h nonzero = absurd (
      nonzero (
        no_bits count relevant (low_bits_small count count mask (omega arith))
          (λ j lj. h j (omega arith) (omega arith))))
  some_bit (some i) (ge, li, one, first) nonzero = (i, omega arith, one)

  only_relevant : (i : ℕ) → i < count → OnlyBit count i mask → OnlyBit 64 i relevant
  unfolding OnlyBit
  only_relevant i li (one, others) = (
    inside i li ∙ one,
    λ j lj ne. bit_of-low_bits count j mask ∙ elim (Bool-cases (ltb j count)) [
      | inl low ↦ let nil = others j (ground arith) ne in rw (low, nil) refl
      | inr high ↦ rw high refl
    ],
  )

-- The test for one used slot holds exactly if one slot below the count is used and no other is.
-- Condition: the count is below 64.
pub page_one_used_lem :
    (mask count : ℕ)
    → count < 64
    → (page_one_used mask count ≡ true) ↔ ((i : ℕ) × (i < count) × OnlyBit count i mask)
unfolding page_one_used
page_one_used_lem mask count lt = (forth, back)
  where
    forth : page_one_used mask count ≡ true → (i : ℕ) × (i < count) × OnlyBit count i mask
    forth h =
        let (nonzero, z) = single mask count lt h in
        let (i, li, one) =
          some_bit mask count lt (scan_bits count 0 (low_bits count mask))
            (scan_bits-ScannedFrom count 0 (low_bits count mask)) nonzero in
        (i, li, found mask count lt z i li one)

    back : (i : ℕ) × (i < count) × OnlyBit count i mask → page_one_used mask count ≡ true
    back (i, li, only) =
        let z =
          without_lowest-only 64 (low_bits count mask) i (omega arith)
            (low_bits_small count 64 mask (omega arith)) (only_relevant mask count lt i li only) in
        let nonzero =
          bit_nonzero i (low_bits count mask)
            (OnlyBit-set 64 i (low_bits count mask) (only_relevant mask count lt i li only)) in
        ground (arith, z, nonzero)
