-- ===== src/Bitmask/Marks.antt =====
-- What `onion_bitmask_add`, `onion_bitmask_del` and `onion_bitmask_init` of src/onion/sup.c do to the bits.
use checks.Prelude.{
  ℕ, zero, suc, ◌+◌, ◌*◌, ◌/◌, ◌%◌, ◌<◌, ◌≤◌, ◌≡◌, ◌≢◌, refl, sym, ap, ◌∙◌, inl, inr, Bool, true,
  false, ◌&&◌, Bool-cases, none, some, leb, ltb, ◌==◌, if◌then◌else◌, set, get_elem?-set_self,
  get_elem?-set_ne, length, length-set, arith,
}
use checks.Bitmask.{
  Bitmask, bit_of, with_bit, without_bit, word_at, set_bit, clear_bit, set_bits, bitmask_del,
}
use checks.Bitmask.Words.{with_bit-here, with_bit-other, without_bit-here, without_bit-other}
use checks.Bitmask.Search.{is_set}

-- A mask of words, as `onion_bitmask_init` makes it with frames of a word.
pub record IsValid (b : Bitmask) : Type 0 where
  pub allocated : length b.mask ≡ b.conv_size
  pub words : b.conv_size ≡ (b.size + 63) / 64
  pub whole : b.size_per_frame ≡ 64
  pub some_bits : 0 < b.size

-- A word is written to its frame only.
module _ (b : Bitmask) (pos : ℕ) (f : ℕ → ℕ) (inside : pos < length b.mask * 64) where
  abbrev written : Bitmask
  written = record b { mask = set b.mask (pos / 64) (f (word_at b (pos / 64))) }

  word_written : word_at written (pos / 64) ≡ f (word_at b (pos / 64))
  word_written =
      ap (λ o. elim o [ none ↦ 0 | some word ↦ word ])
        (get_elem?-set_self b.mask (pos / 64) (f (word_at b (pos / 64))) (omega arith))

  word_kept : (frame : ℕ) → pos / 64 ≢ frame → word_at written frame ≡ word_at b frame
  word_kept frame ne =
      ap (λ o. elim o [ none ↦ 0 | some word ↦ word ])
        (get_elem?-set_ne b.mask (f (word_at b (pos / 64))) ne)

  -- A change of one bit of the word changes that bit of the mask.
  written-bits :
      (v : Bool)
      → ((word : ℕ) → bit_of (pos % 64) (f word) ≡ v)
      → ((word other : ℕ) → pos % 64 ≢ other → bit_of other (f word) ≡ bit_of other word)
      → (q : ℕ) → is_set written q ≡ (if q == pos then v else is_set b q)
  written-bits v here others q = elim (Bool-cases (q == pos)) [
    | inl same ↦
        let e : q ≡ pos = ground arith in
        rw same (
          ap (is_set written) e ∙ ap (bit_of (pos % 64)) word_written ∙ here (word_at b (pos / 64)))
    | inr differs ↦ rw differs (elim (Bool-cases (pos / 64 == q / 64)) [
      | inl frame ↦
          let e : q / 64 ≡ pos / 64 = ground arith in
          ap (λ n. bit_of (q % 64) (word_at written n)) e
          ∙ ap (bit_of (q % 64)) word_written
          ∙ others (word_at b (pos / 64)) (q % 64) (λ p. absurd (apart p e differs))
          ∙ ap (λ n. bit_of (q % 64) (word_at b n)) (sym e)
      | inr frame ↦ ap (bit_of (q % 64)) (word_kept (q / 64) (λ e. absurd (ground arith)))
    ])
  ]
    where
      apart : pos % 64 ≡ q % 64 → q / 64 ≡ pos / 64 → (q == pos) ≡ false → ⊥
      apart p e d = let same : q ≡ pos = omega arith in ground arith

pub set_bit-is_set :
    (b : Bitmask) (pos q : ℕ)
    → pos < length b.mask * 64
    → is_set (set_bit b pos) q ≡ (if q == pos then true else is_set b q)
unfolding set_bit
set_bit-is_set b pos q inside =
    written-bits b pos (with_bit (pos % 64)) inside true (with_bit-here (pos % 64))
      (λ word other ne. with_bit-other (pos % 64) other word ne) q

pub clear_bit-is_set :
    (b : Bitmask) (pos q : ℕ)
    → pos < length b.mask * 64
    → is_set (clear_bit b pos) q ≡ (if q == pos then false else is_set b q)
unfolding clear_bit
clear_bit-is_set b pos q inside =
    written-bits b pos (without_bit (pos % 64)) inside false (without_bit-here (pos % 64))
      (λ word other ne. without_bit-other (pos % 64) other word ne) q

-- A position of the run of `count` bits from `pos` on.
abbrev pub in_run : ℕ → ℕ → ℕ → Bool
in_run pos count q = leb pos q && ltb q (pos + count)

set_bits-is_set :
    (b : Bitmask) (pos count q : ℕ)
    → pos + count ≤ length b.mask * 64
    → is_set (set_bits b pos count) q ≡ (if in_run pos count q then true else is_set b q)
unfolding set_bits set_bit
set_bits-is_set b pos zero q inside = let out : in_run pos 0 q ≡ false = ground arith in rw out refl
set_bits-is_set b pos (suc count) q inside =
    set_bits-is_set (set_bit b pos) (suc pos) count q
      (omega (arith, length-set b.mask (pos / 64) _))
    ∙ ap (λ v. if in_run (suc pos) count q then true else v) (set_bit-is_set b pos q (omega arith))
    ∙ ground arith

pub bitmask_del-is_set :
    (b : Bitmask) (pos count q : ℕ)
    → pos + count ≤ length b.mask * 64
    → is_set (bitmask_del b pos count) q ≡ (if in_run pos count q then false else is_set b q)
unfolding bitmask_del clear_bit
bitmask_del-is_set b pos zero q inside =
    let out : in_run pos 0 q ≡ false = ground arith in rw out refl
bitmask_del-is_set b pos (suc count) q inside =
    bitmask_del-is_set (clear_bit b pos) (suc pos) count q
      (omega (arith, length-set b.mask (pos / 64) _))
    ∙ ap (λ v. if in_run (suc pos) count q then false else v)
        (clear_bit-is_set b pos q (omega arith))
    ∙ ground arith
