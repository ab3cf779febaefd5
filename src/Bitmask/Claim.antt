-- ===== src/Bitmask/Claim.antt =====
-- A bit is taken from a mask and given back: `onion_bitmask_add` and `onion_bitmask_del` of
-- src/onion/sup.c with a count of 1, as src/onion/pool.c calls them.
use checks.Prelude.{
  ℕ, zero, suc, ◌+◌, ◌*◌, ◌/◌, ◌%◌, ◌^◌, ◌<◌, ◌≤◌, ◌≡◌, refl, sym, ap, ◌∙◌, inl, inr, true, false,
  Bool-cases, Option, none, some, ◌==◌, if◌then◌else◌, get_elem?, length, length-set,
  length-replicate, replicate, subst, ltb, arith,
}
use checks.Bitmask.{
  Bitmask, bit_of, with_bit, word_at, set_bit, find_bit, set_bits, bitmask_add, bitmask_del,
  bitmask_init,
}
use checks.Bitmask.Search.{is_set, Searched, ffb-Searched}
use checks.Bitmask.Marks.{IsValid, set_bit-is_set, bitmask_del-is_set, in_run}

-- What taking one bit says: a free one is marked and all others are kept, or all are taken.
pub Claimed : Bitmask → Option ℕ × Bitmask → Type 0
Claimed b (none, b') =
    (b' ≡ b) × ((j : ℕ) → j < b.size → j < (b.conv_size + 63) / 64 * 64 → is_set b j ≡ true)
Claimed b (some pos, b') =
    (pos ≤ b.size)
    × (pos < length b'.mask * 64)
    × (is_set b pos ≡ false)
    × ((j : ℕ) → j < pos → is_set b j ≡ true)
    × IsValid b'
    × ((q : ℕ) → is_set b' q ≡ (if q == pos then true else is_set b q))

set_bit-IsValid : (b : Bitmask) (pos : ℕ) → IsValid b → IsValid (set_bit b pos)
unfolding set_bit
set_bit-IsValid b pos v = record {
  allocated = length-set b.mask (pos / 64) _ ∙ v.allocated;
  words = v.words;
  whole = v.whole;
  some_bits = v.some_bits;
}

-- Where the search ends, the bits behind its result are taken.
claim_of :
    (b : Bitmask) (o : Option ℕ)
    → IsValid b
    → find_bit b 0 ≡ o
    → Searched b 0 0 ((b.conv_size + 63) / 64 * 64) o
    → Claimed b (bitmask_add b 1)
unfolding Searched Claimed bitmask_add set_bits
claim_of b none v e h =
    rw (e, bitmask_add) (refl, λ j lt up. ground (arith, h j (omega arith) up (omega arith)))
claim_of b (some pos) v e (low, up, small, free, taken) =
    rw (e, bitmask_add)
      (
        small,
        omega (
          arith,
          v.allocated,
          v.words,
          v.some_bits,
          length-set b.mask (pos / 64) (with_bit (pos % 64) (word_at b (pos / 64))),
        ),
        ground (arith, free),
        λ j lt. ground (arith, taken j (omega arith) lt),
        set_bit-IsValid b pos v,
        λ q. set_bit-is_set b pos q (omega (arith, v.allocated, v.words, v.some_bits)),
      )

-- Taking one bit of a valid mask marks the first free one, at most at the size, and changes no other;
-- it fails only if all bits below the size are taken, as far as the search counts frames: one for each
-- 64 words. The mask stays valid.
pub bitmask_add-Claimed : (b : Bitmask) → IsValid b → Claimed b (bitmask_add b 1)
bitmask_add-Claimed b v =
    claim_of b (find_bit b 0) v refl (ffb-Searched b 0 0 v.whole (omega arith) (omega arith))

-- Giving back the bit that was taken restores every bit.
pub bitmask_del-bitmask_add :
    (b b' : Bitmask) (pos q : ℕ)
    → IsValid b
    → bitmask_add b 1 ≡ (some pos, b')
    → is_set (bitmask_del b' pos 1) q ≡ is_set b q
unfolding Claimed
bitmask_del-bitmask_add b b' pos q v e =
    let (small, inside, free, taken, v', bits) =
      subst (λ r. Claimed b r) e (bitmask_add-Claimed b v) in
    bitmask_del-is_set b' pos 1 q (omega (arith, inside))
    ∙ ap (λ s. if in_run pos 1 q then false else s) (bits q)
    ∙ restored free
  where
    restored :
        is_set b pos ≡ false
        → (if in_run pos 1 q then false else (if q == pos then true else is_set b q)) ≡ is_set b q
    restored free = elim (Bool-cases (q == pos)) [
      | inl same ↦
          let one : in_run pos 1 q ≡ true = ground arith in
          let e : q ≡ pos = ground arith in rw one (sym (ap (is_set b) e ∙ free))
      | inr other ↦ let out : in_run pos 1 q ≡ false = ground arith in rw (out, other) refl
    ]

-- A word of no bits.
bit_of-zero : (bit : ℕ) → bit_of bit 0 ≡ false
unfolding bit_of
bit_of-zero zero = refl
bit_of-zero (suc bit) = bit_of-zero bit

word_at-replicate :
    (b : Bitmask) (words frame : ℕ) → b.mask ≡ replicate words 0 → word_at b frame ≡ 0
word_at-replicate b words frame e =
    ap (λ m. elim (get_elem? m frame) [ none ↦ 0 | some w ↦ w ]) e ∙ zeros words frame
  where
    zeros :
        (words frame : ℕ)
        → elim (get_elem? {A = ℕ} (replicate words 0) frame) as (λ o. ℕ) [ none ↦ 0 | some w ↦ w ]
          ≡ 0
    zeros zero frame = refl
    zeros (suc words) zero = refl
    zeros (suc words) (suc frame) = zeros words frame

abbrev fresh : ℕ → Bitmask
fresh size = record {
  mask = replicate ((size + 63) / 64) 0;
  size = size;
  conv_size = (size + 63) / 64;
  size_per_frame = 64;
}

some_inj : {b c : Bitmask} → some b ≡ some c → b ≡ c
some_inj e = cc

bitmask_init-fresh :
    (size : ℕ) → 0 < size → size < 2 ^ 31 → bitmask_init true true size 8 ≡ some (fresh size)
unfolding bitmask_init
bitmask_init-fresh size pos small =
    let words : (size + 63) % 2 ^ 64 / 64 ≡ (size + 63) / 64 = omega arith in
    let enough : ltb size 1 ≡ false = ground arith in
    rw (enough, bitmask_init)
      (ap
        (λ n.
          some (record { mask = replicate n 0; size = size; conv_size = n; size_per_frame = 64 }))
        words)

-- A mask that `onion_bitmask_init` makes with frames of a word is valid, and none of its bits is set.
-- Conditions: there is memory, and the size is positive and less than 2 ^ 31.
pub bitmask_init-IsValid :
    (size : ℕ) {b : Bitmask}
    → 0 < size
    → size < 2 ^ 31
    → bitmask_init true true size 8 ≡ some b
    → IsValid b × (b.size ≡ size) × ((q : ℕ) → is_set b q ≡ false)
bitmask_init-IsValid size {b} pos small e =
    subst (λ m. IsValid m × (m.size ≡ size) × ((q : ℕ) → is_set m q ≡ false)) same
      (
        record {
          allocated = length-replicate ((size + 63) / 64) 0;
          words = refl;
          whole = refl;
          some_bits = pos;
        },
        refl,
        λ q.
            ap (bit_of (q % 64)) (word_at-replicate (fresh size) ((size + 63) / 64) (q / 64) refl)
            ∙ bit_of-zero (q % 64),
      )
  where
    made : bitmask_init true true size 8 ≡ some (fresh size)
    made = bitmask_init-fresh size pos small

    same : fresh size ≡ b
    same = some_inj (sym made ∙ e)
