-- ===== src/Bitmask/Words.antt =====
-- The bits of a word (src/onion/sup.c).
use checks.Prelude.{
  ℕ, zero, suc, ◌+◌, ◌-◌, ◌*◌, ◌/◌, ◌%◌, ◌<◌, ◌≤◌, ◌≡◌, ◌≢◌, refl, ap, ◌∙◌, inl, inr, true, false,
  not, Bool-cases, Option, none, some, leb, ◌==◌, arith,
}
use checks.Bitmask.{bit_of, with_bit, without_bit, inverted, scan_bits}

pub with_bit-here : (bit word : ℕ) → bit_of bit (with_bit bit word) ≡ true
unfolding bit_of with_bit
with_bit-here zero word = ground arith
with_bit-here (suc bit) word =
    let half : (with_bit bit (word / 2) * 2 + word % 2) / 2 ≡ with_bit bit (word / 2) =
      omega arith in
    ap (bit_of bit) half ∙ with_bit-here bit (word / 2)

pub with_bit-other :
    (bit other word : ℕ) → bit ≢ other → bit_of other (with_bit bit word) ≡ bit_of other word
unfolding bit_of with_bit
with_bit-other zero zero word ne = absurd (ne refl)
with_bit-other zero (suc other) word ne =
    let half : (word / 2 * 2 + 1) / 2 ≡ word / 2 = omega arith in ap (bit_of other) half
with_bit-other (suc bit) zero word ne =
    let low : (with_bit bit (word / 2) * 2 + word % 2) % 2 ≡ word % 2 = omega arith in
    ap (λ n. n == 1) low
with_bit-other (suc bit) (suc other) word ne =
    let half : (with_bit bit (word / 2) * 2 + word % 2) / 2 ≡ with_bit bit (word / 2) =
      omega arith in
    ap (bit_of other) half ∙ with_bit-other bit other (word / 2) (λ e. ne (ap suc e))

pub without_bit-here : (bit word : ℕ) → bit_of bit (without_bit bit word) ≡ false
unfolding bit_of without_bit
without_bit-here zero word = ground arith
without_bit-here (suc bit) word =
    let half : (without_bit bit (word / 2) * 2 + word % 2) / 2 ≡ without_bit bit (word / 2) =
      omega arith in
    ap (bit_of bit) half ∙ without_bit-here bit (word / 2)

pub without_bit-other :
    (bit other word : ℕ) → bit ≢ other → bit_of other (without_bit bit word) ≡ bit_of other word
unfolding bit_of without_bit
without_bit-other zero zero word ne = absurd (ne refl)
without_bit-other zero (suc other) word ne =
    let half : (word / 2 * 2) / 2 ≡ word / 2 = omega arith in ap (bit_of other) half
without_bit-other (suc bit) zero word ne =
    let low : (without_bit bit (word / 2) * 2 + word % 2) % 2 ≡ word % 2 = omega arith in
    ap (λ n. n == 1) low
without_bit-other (suc bit) (suc other) word ne =
    let half : (without_bit bit (word / 2) * 2 + word % 2) / 2 ≡ without_bit bit (word / 2) =
      omega arith in
    ap (bit_of other) half ∙ without_bit-other bit other (word / 2) (λ e. ne (ap suc e))

pub bit_of-inverted :
    (width bit word : ℕ) → bit < width → bit_of bit (inverted width word) ≡ not (bit_of bit word)
unfolding bit_of inverted
bit_of-inverted zero bit word lt = absurd (omega arith)
bit_of-inverted (suc width) zero word lt = ground arith
bit_of-inverted (suc width) (suc bit) word lt =
    let half : (inverted width (word / 2) * 2 + (1 - word % 2)) / 2 ≡ inverted width (word / 2) =
      omega arith in
    ap (bit_of bit) half ∙ bit_of-inverted width bit (word / 2) (omega arith)

-- What a scan of a word says.
unfoldable pub ScannedFrom : ℕ → ℕ → ℕ → Option ℕ → Type 0
ScannedFrom rounds bit word none = (j : ℕ) → bit ≤ j → j < bit + rounds → bit_of j word ≡ false
ScannedFrom rounds bit word (some found) =
    (bit ≤ found)
    × (found < bit + rounds)
    × (bit_of found word ≡ true)
    × ((j : ℕ) → bit ≤ j → j < found → bit_of j word ≡ false)

pub scan_bits-ScannedFrom :
    (rounds bit word : ℕ) → ScannedFrom rounds bit word (scan_bits rounds bit word)
unfolding ScannedFrom scan_bits
scan_bits-ScannedFrom zero bit word = λ j le lt. absurd (omega arith)
scan_bits-ScannedFrom (suc rounds) bit word = elim (Bool-cases (bit_of bit word)) [
  | inl one ↦ rw one (omega arith, omega arith, one, λ j le lt. absurd (omega arith))
  | inr nil ↦
      rw nil
        (later (scan_bits rounds (suc bit) word) (scan_bits-ScannedFrom rounds (suc bit) word) nil)
]
  where
    here : (j : ℕ) → bit_of bit word ≡ false → bit ≤ j → ¬ (suc bit ≤ j) → bit_of j word ≡ false
    here j nil le not_later = let same : bit ≡ j = omega arith in rw (← same) nil

    later :
        (o : Option ℕ)
        → ScannedFrom rounds (suc bit) word o
        → bit_of bit word ≡ false
        → ScannedFrom (suc rounds) bit word o
    later none h nil = λ j le lt. elim (Bool-cases (leb (suc bit) j)) [
      | inl up ↦ h j (ground arith) (omega arith)
      | inr low ↦ here j nil le (ground arith)
    ]
    later (some found) (le, lt, one, h) nil = (
      omega arith,
      omega arith,
      one,
      λ j le' lt'. elim (Bool-cases (leb (suc bit) j)) [
        | inl up ↦ h j (ground arith) lt'
        | inr low ↦ here j nil le' (ground arith)
      ],
    )
