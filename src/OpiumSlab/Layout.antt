-- ===== src/OpiumSlab/Layout.antt =====
-- The sizes that `opium_slab_init` of project/core/opium_slab.c chooses.
use native.Mathlib.Nat.{div-mul-le_self, le-div_iff_mul-le, div-lt_iff_lt-mul}
use checks.Prelude.{
  ℕ, zero, suc, ◌+◌, ◌-◌, ◌*◌, ◌/◌, ◌%◌, ◌^◌, ◌<◌, ◌≤◌, ◌≡◌, refl, ◌∙◌, true, false, ltb, ◌==◌,
  arith,
}
use checks.OpiumSlab.{Sizes, choose_sizes, data_offset}

-- What the source relies on of `1ULL << (size_t) ceil(log2(n))`: the least power of two that is not below
-- the number, where the logarithm is exact enough: for numbers below 2 ^ 32.
pub record RoundsUp (round_up : ℕ → ℕ) : Type 0 where
  pub exponent : ℕ → ℕ
  pub power : (n : ℕ) → 0 < n → n < 2 ^ 32 → round_up n ≡ 2 ^ exponent n
  pub above : (n : ℕ) → 0 < n → n < 2 ^ 32 → n ≤ round_up n
  pub least : (n : ℕ) → 0 < n → n < 2 ^ 32 → round_up n < 2 * n

-- A page of this size holds its header and its items, and a mask of 64 bits has one for each.
pub record Fits (z : Sizes) (item_size : ℕ) : Type 0 where
  pub item : z.item ≡ item_size + 1
  pub power : (k : ℕ) × (z.page ≡ 2 ^ k)
  pub room : data_offset + z.count * z.item ≤ z.page
  pub some_items : 8 ≤ z.count
  pub few_items : z.count < 64

-- A large power of two is a multiple of 16.
sixteen : (k : ℕ) → 16 ≤ 2 ^ k → (m : ℕ) × (2 ^ k ≡ 16 * 2 ^ m)
sixteen zero h = absurd (omega arith)
sixteen (suc zero) h = absurd (omega arith)
sixteen (suc (suc zero)) h = absurd (omega arith)
sixteen (suc (suc (suc zero))) h = absurd (omega arith)
sixteen (suc (suc (suc (suc k)))) h = (k, omega arith)

eight : (m : ℕ) → 2 ^ suc (suc (suc m)) ≡ 8 * 2 ^ m
eight m = omega arith

module _ (round_up : ℕ → ℕ) (law : RoundsUp round_up) (item_size : ℕ) (some_bytes : 0 < item_size)
    (small : item_size < 2 ^ 24) where
  abbrev item : ℕ
  item = item_size + 1

  abbrev needed : ℕ
  needed = 40 + 64 * item

  abbrev page : ℕ
  page = round_up needed

  abbrev room : ℕ
  room = page / 2 - 40

  above : needed ≤ page
  above = law.above needed (omega arith) (omega arith)

  least : page < 2 * needed
  least = law.least needed (omega arith) (omega arith)

  page_power : (m : ℕ) × (page ≡ 16 * 2 ^ m)
  page_power =
      let p = law.power needed (omega arith) (omega arith) in
      let (m, e) = sixteen (law.exponent needed) (omega (arith, p, above)) in (m, p ∙ e)

  shrinks :
      choose_sizes round_up item_size ≡ record { page = page / 2; item = item; count = room / item }
  unfolding choose_sizes
  shrinks = rw (whole_item, whole_needed, uneven, behind, enough, choose_sizes) refl
    where
      whole_item : (item_size + 1) % 2 ^ 64 ≡ item
      whole_item = omega arith

      whole_needed : (40 + 64 * item) % 2 ^ 64 ≡ needed
      whole_needed = omega arith

      uneven : (page == needed) ≡ false
      uneven = let (m, e) = page_power in ground (arith, e)

      behind : ltb data_offset (page / 2) ≡ true
      behind = ground (arith, above)

      enough : ltb ((item * 8) % 2 ^ 64) room ≡ true
      enough = ground (arith, above)

-- The page that is chosen for items of a positive size below 2 ^ 24 is a power of two, holds its header and all its
-- items, and has at least 8 and fewer than 64 of them, so that the mask never has to count 64. Condition:
-- the rounding gives the least power of two that is not below its argument, for arguments below 2 ^ 32.
pub choose_sizes-Fits :
    (round_up : ℕ → ℕ) (item_size : ℕ)
    → RoundsUp round_up
    → 0 < item_size
    → item_size < 2 ^ 24
    → Fits (choose_sizes round_up item_size) item_size
choose_sizes-Fits round_up item_size law some_bytes small =
    let (m, e) = page_power round_up law item_size some_bytes small in
    let x = room round_up law item_size some_bytes small in
    rw (shrinks round_up law item_size some_bytes small) (record {
      item = refl;
      power = (suc (suc (suc m)), omega (arith, e, eight m));
      room =
          omega (
            arith,
            div-mul-le_self x (item_size + 1),
            above round_up law item_size some_bytes small,
          );
      some_items =
          (le-div_iff_mul-le {k = item_size + 1} {x = 8} {y = x} (omega arith)).1
            (omega (arith, above round_up law item_size some_bytes small));
      few_items =
          (div-lt_iff_lt-mul {k = item_size + 1} {x = x} {y = 64} (omega arith)).1
            (omega (arith, least round_up law item_size some_bytes small));
    })
