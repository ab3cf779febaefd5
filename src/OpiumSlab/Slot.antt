-- ===== src/OpiumSlab/Slot.antt =====
-- The slot that `opium_slab_new_slot` of project/core/opium_slab.c takes.
use checks.Prelude.{
  ℕ, zero, suc, ◌-◌, ◌/◌, ◌%◌, ◌^◌, ◌<◌, ◌≤◌, ◌≡◌, ◌≢◌, refl, sym, ap, ◌∙◌, inl, inr, Bool, true,
  false, not, Bool-cases, Option, none, some, leb, ◌==◌, arith,
}
use checks.Bitmask.{bit_of, with_bit, inverted, scan_bits}
use checks.Bitmask.Words.{
  ScannedFrom, scan_bits-ScannedFrom, bit_of-inverted, with_bit-here, with_bit-other,
}
use checks.OpiumSlab.{Slab, page_busy}
use checks.OpiumSlab.Alloc.{new_slot, take_slot}

-- A mask of 64 bits, all of which are ones above the first `count`.
pub record IsMask (count mask : ℕ) : Type 0 where
  pub small : mask < 2 ^ 64
  pub high : (j : ℕ) → count ≤ j → j < 64 → bit_of j mask ≡ true

-- A word of so many bits, all of which are ones.
all_bits :
    (width word : ℕ)
    → word < 2 ^ width
    → ((j : ℕ) → j < width → bit_of j word ≡ true)
    → word ≡ 2 ^ width - 1
unfolding bit_of
all_bits zero word small one = omega arith
all_bits (suc width) word small one =
    let half = all_bits width (word / 2) (omega arith) (λ j lt. one (suc j) (omega arith)) in
    let low : (word % 2 == 1) ≡ true = one 0 (omega arith) in ground (arith, half, low)

with_bit_small :
    (width bit word : ℕ) → bit < width → word < 2 ^ width → with_bit bit word < 2 ^ width
unfolding with_bit
with_bit_small zero bit word lt small = absurd (omega arith)
with_bit_small (suc width) zero word lt small = omega arith
with_bit_small (suc width) (suc bit) word lt small =
    let rest = with_bit_small width bit (word / 2) (omega arith) (omega arith) in
    omega (arith, rest)

-- The mask of a page is as required after a slot is taken.
pub with_bit-IsMask :
    (count slot mask : ℕ) → slot < 64 → IsMask count mask → IsMask count (with_bit slot mask)
with_bit-IsMask count slot mask lt m = record {
  small = with_bit_small 64 slot mask lt m.small;
  high = λ j ge lj. elim (Bool-cases (slot == j)) [
    | inl same ↦
        let e : slot ≡ j = ground arith in
        ap (λ b. bit_of b (with_bit slot mask)) (sym e) ∙ with_bit-here slot mask
    | inr other ↦ with_bit-other slot j mask (λ e. absurd (ground arith)) ∙ m.high j ge lj
  ];
}

-- The lowest slot that is free, among the first `count`.
pub record LowestFree (count mask slot : ℕ) : Type 0 where
  pub inside : slot < count
  pub free : bit_of slot mask ≡ false
  pub below : (j : ℕ) → j < slot → bit_of j mask ≡ true

free_inside :
    (count mask slot : ℕ) → IsMask count mask → slot < 64 → bit_of slot mask ≡ false → slot < count
free_inside count mask slot m lt nil = elim (Bool-cases (leb count slot)) [
  | inl high ↦ let one = m.high slot (ground arith) lt in absurd (ground (arith, nil, one))
  | inr low ↦ ground arith
]

not_back : (a b : Bool) → not a ≡ b → a ≡ not b
not_back true b e = ap not e
not_back false b e = ap not e

-- A page that is not full gives its lowest free slot, which is one of its items. Conditions: the bits
-- of the mask above the items are ones, and there are at most 64 items.
pub new_slot-LowestFree :
    (s : Slab) (page : ℕ)
    → IsMask s.item_count (s.pages page).mask
    → (s.pages page).mask ≢ page_busy
    → (slot : ℕ) × LowestFree s.item_count (s.pages page).mask slot
      × (new_slot s page ≡ some (take_slot s page slot))
unfolding new_slot ScannedFrom
new_slot-LowestFree s page m free =
    go (scan_bits 64 0 (inverted 64 mask)) (scan_bits-ScannedFrom 64 0 (inverted 64 mask)) refl
  where
    mask : ℕ
    mask = (s.pages page).mask

    flipped : (j : ℕ) (b : Bool) → j < 64 → bit_of j (inverted 64 mask) ≡ b → bit_of j mask ≡ not b
    flipped j b lt e = not_back (bit_of j mask) b (sym (bit_of-inverted 64 j mask lt) ∙ e)

    go :
        (o : Option ℕ)
        → ScannedFrom 64 0 (inverted 64 mask) o
        → scan_bits 64 0 (inverted 64 mask) ≡ o
        → (slot : ℕ) × LowestFree s.item_count mask slot
          × (new_slot s page ≡ some (take_slot s page slot))
    go none h e = absurd (
        free
          (all_bits 64 mask m.small (λ j lt. flipped j false lt (h j (omega arith) (omega arith)))))
    go (some slot) (ge, lt, one, first) e = (
      slot,
      record {
        inside = free_inside s.item_count mask slot m lt (flipped slot true lt one);
        free = flipped slot true lt one;
        below = λ j lj. flipped j false (omega arith) (first j (omega arith) lj);
      },
      ap (λ o. elim o [ none ↦ none | some found ↦ some (take_slot s page found) ]) e,
    )
