-- ===== src/UtilSlab/Sizes.antt =====
-- `round_size_pow2` of src/utils/include/utils.h and the sizes of `onion_slab_init` of
-- src/utils/src/slab.c.
use native.Mathlib.Nat.{le-div_iff_mul-le, mul-div_cancel, mul-le-mul_right, le_of_mul-le-mul_right}
use checks.Prelude.{
  ℕ, zero, suc, ◌+◌, ◌*◌, ◌/◌, ◌%◌, ◌^◌, ◌<◌, ◌≤◌, ◌≡◌, ◌↔◌, refl, ap, ap₂, ◌∙◌, inl, inr, Bool,
  false, ◌&&◌, Bool-cases, Option, none, some, ltb, ◌==◌, if◌then◌else◌, power_le, positive,
  exponent_lt, arith,
}
use checks.Pool.{round_loop, round_size_pow2}
use checks.UtilSlab.{OnionSlab}
use checks.UtilSlab.Lifecycle.{Allocations, initialised, slab_init}
use checks.UtilSlab.Release.{IsPool}

-- The least power of two that is not below a size.
pub record RoundedUp (size : ℕ) (o : Option ℕ) : Type 0 where
  pub exponent : ℕ
  pub answer : o ≡ some (2 ^ exponent)
  pub above : size ≤ 2 ^ exponent
  pub least : 2 ^ exponent < 2 * size

round_loop-RoundedUp :
    (fuel size e : ℕ)
    → 0 < size
    → size ≤ 2 ^ 63
    → 2 ^ e < 2 * size
    → 64 ≤ e + fuel
    → e < 64
    → RoundedUp size (round_loop fuel size (2 ^ e))
unfolding round_loop
round_loop-RoundedUp zero size e some_size small low enough few = absurd (omega arith)
round_loop-RoundedUp (suc fuel) size e some_size small low enough few =
    elim (Bool-cases (ltb (2 ^ e) size)) [
      | inr done ↦
          rw done (record { exponent = e; answer = refl; above = ground arith; least = low })
      | inl more ↦
          let below : e < 63 = exponent_lt e 63 (ground arith) in
          let limit = power_le (suc e) 63 (omega arith) in
          let next : 2 ^ e * 2 % 2 ^ 64 ≡ 2 ^ suc e = omega (arith, limit) in
          rw (more, next)
            (round_loop-RoundedUp fuel size (suc e) some_size small (ground arith) (omega arith)
              (omega arith))
    ]

-- The rounding of a size from 1 to 2 ^ 63 ends, with the least power of two that is not below it.
pub round_size_pow2-RoundedUp :
    (size : ℕ) → 0 < size → size ≤ 2 ^ 63 → RoundedUp size (round_size_pow2 size)
unfolding round_size_pow2
round_size_pow2-RoundedUp size some_size small =
    let given : (size == 0) ≡ false = ground arith in
    rw given
      (round_loop-RoundedUp 65 size 0 some_size small (omega arith) (omega arith) (omega arith))

abbrev pub all_allocated : Allocations → Bool
all_allocated ok = ok.allocator && (ok.pool && (ok.blocks && ok.bitmask))

-- What an initialisation makes of a size.
pub record Made (size : ℕ) (memory : OnionSlab) (a : OnionSlab) : Type 0 where
  pub is_pool : IsPool a
  pub power : (k : ℕ) × (a.pool_size ≡ 2 ^ k)
  pub room : size ≤ a.pool_size
  pub shared : a.block_capacity * a.block_size ≡ a.pool_size
  pub inside :
      (i : ℕ) → (8 * (i * a.block_size) + a.block_size ≤ a.pool_size) ↔ (8 * i < a.block_capacity)
  pub unused : a.block_used ≡ 0
  pub uncounted : a.memory_allocated ≡ memory.memory_allocated

abbrev pub at_least : ℕ → ℕ
at_least size = if ltb size 128 then 128 else size

thirty_two : (k : ℕ) → 128 ≤ 2 ^ k → (m : ℕ) × (2 ^ k ≡ 32 * 2 ^ m)
thirty_two zero h = absurd (omega arith)
thirty_two (suc zero) h = absurd (omega arith)
thirty_two (suc (suc zero)) h = absurd (omega arith)
thirty_two (suc (suc (suc zero))) h = absurd (omega arith)
thirty_two (suc (suc (suc (suc zero)))) h = absurd (omega arith)
thirty_two (suc (suc (suc (suc (suc k))))) h = (k, omega arith)

module _ (memory : OnionSlab) (size k : ℕ) (known : memory.memory_allocated < 2 ^ 64)
    (above : at_least size ≤ 2 ^ k) (small : 2 ^ k ≤ 2 ^ 63) where
  abbrev count : ℕ
  count = 2 ^ k / 32

  abbrev blocks : ℕ
  blocks = if ltb count 32 then 32 else count

  large : 128 ≤ 2 ^ k
  large = ground (arith, above)

  several : 32 ≤ blocks
  several = ground arith

  few : blocks < 2 ^ k
  few = ground (arith, large)

  some_byte : 0 < 2 ^ k / blocks
  some_byte =
      let one =
        (le-div_iff_mul-le {k = blocks} {x = 1} {y = 2 ^ k} (omega (arith, several))).1
          (omega (arith, few)) in
      omega (arith, one)

  whole : blocks * (2 ^ k / blocks) ≡ 2 ^ k
  whole =
      let (m, e) = thirty_two k large in
      elim (Bool-cases (ltb count 32)) [
        | inl few_units ↦ rw few_units (omega (arith, e))
        | inr many_units ↦ rw many_units (
            let units : 2 ^ k / 32 ≡ 2 ^ m = omega (arith, e) in
            let each : 2 ^ k / (2 ^ k / 32) ≡ 32 =
              ap₂ ◌/◌ e units ∙ mul-div_cancel 32 (positive m) in
            omega (arith, each, ap (λ n. 2 ^ k / 32 * n) each))
      ]

  -- Only the blocks of the first eighth have addresses in the pool.
  addressed : (i : ℕ) → (8 * (i * (2 ^ k / blocks)) + 2 ^ k / blocks ≤ 2 ^ k) ↔ (8 * i < blocks)
  addressed i = (
    λ h. omega (
      arith,
      le_of_mul-le-mul_right {m = 8 * i + 1} {n = blocks} {k = 2 ^ k / blocks}
          (omega (arith, h, whole)) some_byte,
    ),
    λ h. omega (
      arith,
      whole,
      mul-le-mul_right {m = 8 * i + 1} {n = blocks} (2 ^ k / blocks) (omega (arith, h)),
    ),
  )

  capacity_below : blocks < 2 ^ 63
  capacity_below = omega (arith, few, small)

  made : Made size memory (initialised memory (2 ^ k))
  unfolding initialised
  made = record {
    is_pool = record {
      words = omega (arith, several);
      enough_blocks = omega (arith, several);
      some_bytes = some_byte;
      counted = omega arith;
      capacity_small = capacity_below;
      memory_small = known;
    };
    power = (k, refl);
    room = ground (arith, above);
    shared = whole;
    inside = addressed;
    unused = refl;
    uncounted = refl;
  }

slab_init-initialised :
    (ok : Allocations) (memory : OnionSlab) (size n : ℕ)
    → round_size_pow2 (at_least size) ≡ some n
    → slab_init ok memory size
      ≡ some (if all_allocated ok then some (initialised memory n) else none)
unfolding slab_init
slab_init-initialised ok memory size n e =
    ap
      (λ o. elim o [
        | none ↦ none
        | some t ↦ some (if all_allocated ok then some (initialised memory t) else none)
      ])
      e

-- An initialisation with a size of at most 2 ^ 62 ends, with NULL where one of its allocations fails, and
-- else with an allocator whose pool is a power of two that is not below the size, whose blocks are at
-- least 32, have a byte each and share the pool, and that counts no block; its count of memory is what the
-- allocation contained. Of the addresses that the blocks are given, those of the first eighth, and no
-- others, leave room for a block in the pool.
pub slab_init-Made :
    (ok : Allocations) (memory : OnionSlab) (size : ℕ)
    → memory.memory_allocated < 2 ^ 64
    → size ≤ 2 ^ 62
    → (a : OnionSlab) × (slab_init ok memory size
        ≡ some (if all_allocated ok then some a else none))
      × Made size memory a
slab_init-Made ok memory size known small =
    go (round_size_pow2-RoundedUp (at_least size) (ground arith) (ground arith)) (ground arith)
  where
    go :
        RoundedUp (at_least size) (round_size_pow2 (at_least size))
        → at_least size ≤ 2 ^ 62
        → (a : OnionSlab) × (slab_init ok memory size
            ≡ some (if all_allocated ok then some a else none))
          × Made size memory a
    go r limit = (
      initialised memory (2 ^ r.exponent),
      slab_init-initialised ok memory size (2 ^ r.exponent) r.answer,
      made memory size r.exponent known r.above (omega (arith, r.least)),
    )
