-- ===== src/OpiumArena/Index.antt =====
-- The slab that `opium_arena_alloc` of project/core/opium_arena.c chooses.
use checks.Prelude.{
  ℕ, zero, suc, ◌+◌, ◌-◌, ◌*◌, ◌/◌, ◌^◌, ◌<◌, ◌≤◌, ◌≡◌, ◌↔◌, ◌⊎◌, refl, sym, ap, subst, ◌∙◌, inl,
  inr, true, false, Bool-cases, leb, ltb, ◌==◌, positive, power_le, exponent_lt, arith,
}
use checks.OpiumArena.{Arena, bit_length, round_of_two, log2, slab_index}

-- The number of bits of a number above 0.
record HasBits (n bits : ℕ) : Type 0 where
  above : n < 2 ^ bits
  some_bit : 0 < bits
  least : 2 ^ bits ≤ 2 * n

bit_length-zero : (width : ℕ) → bit_length width 0 ≡ 0
unfolding bit_length
bit_length-zero zero = refl
bit_length-zero (suc width) = refl

bit_length-suc : (width n : ℕ) → 0 < n → bit_length (suc width) n ≡ suc (bit_length width (n / 2))
unfolding bit_length
bit_length-suc width n pos = let nonzero : (n == 0) ≡ false = ground arith in rw nonzero refl

bit_length-HasBits : (width n : ℕ) → 0 < n → n < 2 ^ width → HasBits n (bit_length width n)
bit_length-HasBits zero n pos small = absurd (omega arith)
bit_length-HasBits (suc width) n pos small =
    subst (λ bits. HasBits n bits) (sym (bit_length-suc width n pos))
      (elim (Bool-cases (n / 2 == 0)) [
        | inl single ↦
            let one : n ≡ 1 = ground arith in
            let half : n / 2 ≡ 0 = ground arith in
            subst (λ bits. HasBits n (suc bits))
              (sym (ap (bit_length width) half ∙ bit_length-zero width))
              (record { above = omega arith; some_bit = omega arith; least = omega arith })
        | inr more ↦
            let rest = bit_length-HasBits width (n / 2) (ground arith) (omega arith) in
            record {
              above = omega (arith, rest.above);
              some_bit = omega arith;
              least = omega (arith, rest.least);
            }
      ])

exponent_large : (e : ℕ) → 16 ≤ 2 ^ e → 4 ≤ e
exponent_large e le = elim (Bool-cases (leb 4 e)) [
  | inl large ↦ ground arith
  | inr low ↦ absurd (omega (arith, power_le e 3 (ground arith)))
]

bit_length-power : (width e : ℕ) → e < width → bit_length width (2 ^ e) ≡ suc e
bit_length-power zero e lt = absurd (omega arith)
bit_length-power (suc width) zero lt =
    bit_length-suc width 1 (omega arith) ∙ ap suc (bit_length-zero width)
bit_length-power (suc width) (suc e) lt =
    let half : 2 ^ suc e / 2 ≡ 2 ^ e = omega arith in
    bit_length-suc width (2 ^ suc e) (positive (suc e))
    ∙ ap (λ n. suc (bit_length width n)) half
    ∙ ap suc (bit_length-power width e (omega arith))

-- Sizes are rounded up to the least power of two, whose exponent is found again.
record RoundedTo (x exponent : ℕ) : Type 0 where
  round : round_of_two x ≡ 2 ^ exponent
  some_bit : 0 < exponent
  above : x ≤ 2 ^ exponent
  least : 2 ^ exponent < 2 * x

round_of_two-log2 :
    (x : ℕ) → 1 < x → x ≤ 2 ^ 63 → (e : ℕ) × RoundedTo x e × (e < 64) × (log2 (2 ^ e) ≡ e)
unfolding round_of_two log2
round_of_two-log2 x more small =
    let bits = bit_length-HasBits 64 (x - 1) (omega arith) (omega arith) in
    let few = exponent_lt (bit_length 64 (x - 1)) 64 (omega (arith, bits.least)) in
    (
      bit_length 64 (x - 1),
      record {
        round = refl;
        some_bit = bits.some_bit;
        above = omega (arith, bits.above);
        least = omega (arith, bits.least);
      },
      few,
      omega (arith, bit_length-power 64 (bit_length 64 (x - 1)) few),
    )

-- The items of the slab hold the size, no smaller items would, and the arena has the slab exactly if the
-- size is at most 65536.
pub record Chosen (size index : ℕ) : Type 0 where
  pub holds : size ≤ 2 ^ (4 + index)
  pub smallest : (index ≡ 0) ⊎ (2 ^ (4 + index) < 2 * size)
  pub has_slab : (index < 13) ↔ (size ≤ 65536)

log2_sixteen : log2 16 ≡ 4
unfolding log2 bit_length
log2_sixteen = refl

module _ (arena : Arena) (minimum : arena.min_size ≡ 16) (size : ℕ) (more : 1 < size)
    (size_small : size ≤ 2 ^ 63) (e : ℕ) (r : RoundedTo size e) (few : e < 64)
    (exact : log2 (2 ^ e) ≡ e) where
  small_size : 2 ^ e < 16 → (slab_index arena size ≡ 0) × (size < 16)
  unfolding slab_index
  small_size lt =
      let test : ltb (round_of_two size) arena.min_size ≡ true = ground (arith, r.round, minimum) in
      (rw (test, minimum, log2_sixteen) refl, omega (arith, r.above))

  large_size : 16 ≤ 2 ^ e → (4 ≤ e) × (slab_index arena size ≡ e - 4)
  unfolding slab_index
  large_size le =
      let test : ltb (round_of_two size) arena.min_size ≡ false =
        ground (arith, r.round, minimum) in
      let four_bits : 4 ≤ e = exponent_large e le in
      (four_bits, rw (test, r.round, exact) (omega (arith, four_bits, few)))

  below_slabs : size ≤ 65536 → e - 4 < 13
  below_slabs small = elim (Bool-cases (leb 17 e)) [
    | inl high ↦ absurd (omega (arith, r.least, power_le 17 e (ground arith)))
    | inr low ↦ ground arith
  ]

  large-Chosen : 4 ≤ e → Chosen size (e - 4)
  large-Chosen le =
      let same : 4 + (e - 4) ≡ e = omega arith in
      record {
        holds = rw same r.above;
        smallest = inr (rw same r.least);
        has_slab = (
          λ lt. omega (arith, r.above, power_le e 16 (omega (arith, lt))),
          λ small. below_slabs small,
        );
      }

-- An arena looks in the slab with the least items that hold the size, and that is one of its slabs
-- exactly if the size is at most 65536. Conditions: the arena is initialised, the size is above 1 and at
-- most 2 ^ 63.
pub slab_index-Chosen :
    (arena : Arena) (size : ℕ)
    → arena.min_size ≡ 16
    → 1 < size
    → size ≤ 2 ^ 63
    → Chosen size (slab_index arena size)
slab_index-Chosen arena size minimum more small =
    let (e, r, few, exact) = round_of_two-log2 size more small in
    elim (Bool-cases (ltb (2 ^ e) 16)) [
      | inl little ↦
          let (zero_index, below) =
            small_size arena minimum size more small e r few exact (ground arith) in
          rw zero_index (record {
            holds = omega arith;
            smallest = inl refl;
            has_slab = (λ lt. omega arith, λ le. omega arith);
          })
      | inr big ↦
          let (four_bits, index) =
            large_size arena minimum size more small e r few exact (ground arith) in
          rw index (large-Chosen arena minimum size more small e r few exact four_bits)
    ]
