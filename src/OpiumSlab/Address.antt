-- ===== src/OpiumSlab/Address.antt =====
-- The addresses of the slots of a page (project/core/opium_slab.c and opium_slab.h).
use native.Mathlib.Nat.{div-eq_of_lt-le, mul-div_cancel, mul-le-mul_right}
use checks.Prelude.{ℕ, suc, ◌+◌, ◌-◌, ◌*◌, ◌/◌, ◌%◌, ◌^◌, ◌<◌, ◌≤◌, ◌≡◌, ap, ◌∙◌, arith}
use checks.OpiumSlab.{Slab, slab_init, slot_address, data_offset}
use checks.OpiumSlab.Free.{page_of, slot_of}
use checks.OpiumSlab.Layout.{RoundsUp, choose_sizes-Fits}

-- A slab whose pages hold their items.
pub record IsLaid (s : Slab) : Type 0 where
  pub some_bytes : 1 < s.item_size
  pub room : data_offset + s.item_count * s.item_size ≤ s.page_size
  pub some_items : 8 ≤ s.item_count
  pub few_items : s.item_count < 64

pub slab_init-IsLaid :
    (round_up : ℕ → ℕ) (s : Slab) (item_size : ℕ)
    → RoundsUp round_up
    → 0 < item_size
    → item_size < 2 ^ 24
    → IsLaid (slab_init round_up s item_size)
unfolding slab_init
slab_init-IsLaid round_up s item_size law some_bytes small =
    let fits = choose_sizes-Fits round_up item_size law some_bytes small in
    record {
      some_bytes = omega (arith, fits.item);
      room = fits.room;
      some_items = fits.some_items;
      few_items = fits.few_items;
    }

module _ (s : Slab) (laid : IsLaid s) (k index : ℕ) (inside : index < s.item_count)
    (small : k * s.page_size + s.page_size ≤ 2 ^ 64) where
  abbrev start : ℕ
  start = k * s.page_size

  abbrev slot_ptr : ℕ
  slot_ptr = slot_address s start index - 1

  below : index * s.item_size + s.item_size ≤ s.item_count * s.item_size
  below =
      omega (arith, mul-le-mul_right {m = index + 1} {n = s.item_count} s.item_size (omega arith))

  page_back : page_of s slot_ptr ≡ start
  page_back =
      ap (λ q. q * s.page_size)
        (div-eq_of_lt-le {k = k} s.page_size {m = slot_ptr} (omega (arith, below))
          (omega (arith, below, laid.room, laid.some_bytes)))

  slot_back : slot_of s slot_ptr ≡ index
  slot_back =
      let distance : (slot_ptr + 2 ^ 64 - (page_of s slot_ptr + data_offset)) % 2 ^ 64
          ≡ index * s.item_size =
        omega (arith, page_back, below, laid.room, laid.some_bytes) in
      ap (λ d. d / s.item_size) distance ∙ mul-div_cancel index (omega (arith, laid.some_bytes))

-- From the address of an item, the free finds the page and the slot. Conditions: the page is aligned
-- and lies in the address space, the slot is one of its items.
pub slot_address-slot_of :
    (s : Slab) (k index : ℕ)
    → IsLaid s
    → index < s.item_count
    → k * s.page_size + s.page_size ≤ 2 ^ 64
    → (page_of s (slot_address s (k * s.page_size) index - 1) ≡ k * s.page_size)
      × (slot_of s (slot_address s (k * s.page_size) index - 1) ≡ index)
slot_address-slot_of s k index laid inside small =
    (page_back s laid k index inside small, slot_back s laid k index inside small)

-- From one byte too low, the free finds the slot before.
module _ (s : Slab) (laid : IsLaid s) (k index : ℕ) (inside : suc index < s.item_count)
    (small : k * s.page_size + s.page_size ≤ 2 ^ 64) where
  abbrev low_ptr : ℕ
  low_ptr = slot_address s (k * s.page_size) (suc index) - 1 - 1

  reach : index * s.item_size + s.item_size + s.item_size ≤ s.item_count * s.item_size
  reach =
      omega (arith, mul-le-mul_right {m = index + 2} {n = s.item_count} s.item_size (omega arith))

  flat : suc index * s.item_size ≡ index * s.item_size + s.item_size
  flat = omega arith

  pub page_before : page_of s low_ptr ≡ k * s.page_size
  page_before =
      ap (λ q. q * s.page_size)
        (div-eq_of_lt-le {k = k} s.page_size {m = low_ptr} (omega (arith, flat, laid.some_bytes))
          (omega (arith, flat, reach, laid.room, laid.some_bytes)))

  pub slot_before : slot_of s low_ptr ≡ index
  slot_before =
      let distance : (low_ptr + 2 ^ 64 - (page_of s low_ptr + data_offset)) % 2 ^ 64
          ≡ index * s.item_size + (s.item_size - 1) =
        omega (arith, page_before, flat, reach, laid.room, laid.some_bytes) in
      ap (λ d. d / s.item_size) distance
      ∙ div-eq_of_lt-le {k = index} s.item_size {m = index * s.item_size + (s.item_size - 1)}
          (omega arith) (omega (arith, laid.some_bytes))
