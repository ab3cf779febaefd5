-- ===== src/OpiumSlab/Fresh.antt =====
-- The first slot of a page that `opium_slab_alloc` of project/core/opium_slab.c has just set up.

use checks.Prelude.{
  ℕ, zero, suc, ◌+◌, ◌-◌, ◌/◌, ◌%◌, ◌^◌, ◌<◌, ◌≤◌, ◌≡◌, ◌≢◌, refl, sym, ap, ◌∙◌, inl, inr, true,
  false, not, ◌||◌, subst, Bool-cases, some, leb, ltb, ◌==◌, positive, arith,
}
use checks.Bitmask.{bit_of, with_bit, inverted}
use checks.Bitmask.Words.{bit_of-inverted, with_bit-here, with_bit-other}
use checks.OpiumSlab.{Slab, page_busy, page_init, slot_address, set_page, set_header, slot_header}
use checks.OpiumSlab.Alloc.{new_slot, take_slot}
use checks.OpiumSlab.Slot.{IsMask, LowestFree, new_slot-LowestFree}

ones : (count j : ℕ) → bit_of j (2 ^ count - 1) ≡ ltb j count
unfolding bit_of
ones zero zero = ground arith
ones zero (suc j) = ones zero j ∙ ground arith
ones (suc count) zero =
    let odd : (2 ^ suc count - 1) % 2 ≡ 1 = omega (arith, positive count) in ground (arith, odd)
ones (suc count) (suc j) =
    let half : (2 ^ suc count - 1) / 2 ≡ 2 ^ count - 1 = omega (arith, positive count) in
    ap (bit_of j) half ∙ ones count j ∙ ground arith

inverted_small : (width word : ℕ) → inverted width word < 2 ^ width
unfolding inverted
inverted_small zero word = omega arith
inverted_small (suc width) word = let rest = inverted_small width (word / 2) in omega (arith, rest)

bit_of-page_init : (count j : ℕ) → j < 64 → bit_of j (page_init count) ≡ not (ltb j count)
unfolding page_init
bit_of-page_init count j lt = bit_of-inverted 64 j (2 ^ count - 1) lt ∙ ap not (ones count j)

pub page_init-IsMask : (count : ℕ) → IsMask count (page_init count)
unfolding page_init
page_init-IsMask count = record {
  small = inverted_small 64 (2 ^ count - 1);
  high = λ j ge lt. bit_of-page_init count j lt ∙ ground arith;
}

pub self : (p : ℕ) → (p == p) ≡ true
self p = ground arith

-- A page with its first slot taken.
abbrev pub with_first : Slab → ℕ → Slab
with_first t page = record t {
  stats = record t.stats { used = (t.stats.used + 1) % 2 ^ 64 };
  pages = set_page page (record (t.pages page) { mask = with_bit 0 (t.pages page).mask }) t.pages;
  headers = set_header (slot_address t page 0 - slot_header) 0 t.headers;
}

module _ (count : ℕ) (some_items : 8 ≤ count) where
  free_at : (j : ℕ) → j < 8 → bit_of j (page_init count) ≡ false
  free_at j lt = bit_of-page_init count j (omega arith) ∙ ground arith

  not_busy : page_init count ≢ page_busy
  unfolding bit_of
  not_busy e =
      let busy : bit_of 0 (page_init count) ≡ true = ap (bit_of 0) e in
      let nil = free_at 0 (omega arith) in ground (arith, busy, nil)

  still_free : (with_bit 0 (page_init count) == page_busy) ≡ false
  unfolding bit_of
  still_free = elim (Bool-cases (with_bit 0 (page_init count) == page_busy)) [
    | inr differ ↦ differ
    | inl same ↦
        let e : with_bit 0 (page_init count) ≡ page_busy = ground arith in
        let busy : bit_of 1 (with_bit 0 (page_init count)) ≡ true = ap (bit_of 1) e in
        let nil =
          with_bit-other 0 1 (page_init count) (λ d. omega arith) ∙ free_at 1 (omega arith) in
        absurd (ground (arith, busy, nil))
  ]

  pub first_bits :
      (j : ℕ) → j < 64 → bit_of j (with_bit 0 (page_init count)) ≡ ((j == 0) || leb count j)
  first_bits zero lt = with_bit-here 0 (page_init count)
  first_bits (suc j) lt =
      with_bit-other 0 (suc j) (page_init count) (λ d. omega arith)
      ∙ bit_of-page_init count (suc j) lt
      ∙ ground arith

slot_zero : (count mask slot : ℕ) → LowestFree count mask slot → bit_of 0 mask ≡ false → slot ≡ 0
slot_zero count mask zero low nil = refl
slot_zero count mask (suc slot) low nil =
    let one = low.below 0 (omega arith) in absurd (ground (arith, one, nil))

take_slot-first :
    (t : Slab) (page : ℕ)
    → (with_bit 0 (t.pages page).mask == page_busy) ≡ false
    → take_slot t page 0 ≡ (slot_address t page 0, with_first t page)
unfolding take_slot
take_slot-first t page free = rw free refl

-- A page that is just set up gives its first slot.
pub new_slot-first :
    (t : Slab) (page : ℕ)
    → 8 ≤ t.item_count
    → (t.pages page).mask ≡ page_init t.item_count
    → new_slot t page ≡ some (slot_address t page 0, with_first t page)
new_slot-first t page some_items e =
    let m = subst (λ mask. IsMask t.item_count mask) (sym e) (page_init-IsMask t.item_count) in
    let (slot, low, taken) =
      new_slot-LowestFree t page m (λ b. not_busy t.item_count some_items (sym e ∙ b)) in
    let start =
      slot_zero t.item_count (t.pages page).mask slot low
        (ap (bit_of 0) e ∙ free_at t.item_count some_items 0 (omega arith)) in
    taken
    ∙ ap (λ n. some (take_slot t page n)) start
    ∙ ap some (
        take_slot-first t page
          (ap (λ mask. with_bit 0 mask == page_busy) e ∙ still_free t.item_count some_items))
