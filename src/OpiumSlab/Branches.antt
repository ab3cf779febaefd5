-- ===== src/OpiumSlab/Branches.antt =====
-- The branches of `opium_slab_free` of project/core/opium_slab.c that leave an item on the page.
use checks.Prelude.{
  ℕ, suc, ◌+◌, ◌-◌, ◌*◌, ◌%◌, ◌^◌, ◌<◌, ◌≤◌, ◌≡◌, ◌≢◌, refl, sym, ap, ap₂, ◌∙◌, inl, inr, true,
  false, Bool-cases, none, ◌==◌, arith,
}
use checks.Bitmask.{bit_of, with_bit, without_bit}
use checks.Bitmask.Words.{with_bit-here, with_bit-other}
use checks.Chain.{list_add, list_del}
use checks.OpiumSlab.{Page, Slab, page_busy, page_one_used, slot_address, set_mask, set_page}
use checks.OpiumSlab.Free.{slab_free, free_slot, count_free}
use checks.OpiumSlab.Words.{OnlyBit, page_one_used_lem}
use checks.OpiumSlab.Address.{page_before, slot_before, IsLaid, slot_address-slot_of}

-- Another slot of the page is used.
pub two_used :
    (count mask slot j : ℕ)
    → count < 64
    → slot < count
    → j < count
    → bit_of slot mask ≡ false
    → bit_of j mask ≡ true
    → page_one_used (with_bit slot mask) count ≡ false
unfolding OnlyBit
two_used count mask slot j few ls lj nil one =
    elim (Bool-cases (page_one_used (with_bit slot mask) count)) [
      | inr several ↦ several
      | inl single ↦
          let (i, li, (one', others)) =
            (page_one_used_lem (with_bit slot mask) count few).0 single in
          let apart : j ≢ slot = λ e.
            let same : bit_of j mask ≡ false = ap (λ b. bit_of b mask) e ∙ nil in
            ground (arith, same, one) in
          let here = with_bit-here slot mask in
          let there = with_bit-other slot j mask (λ e. apart (sym e)) ∙ one in
          elim (Bool-cases (slot == i)) [
            | inl same ↦
                let no = others j lj (λ e. apart (e ∙ ground arith)) in
                absurd (ground (arith, no, there))
            | inr differ ↦
                let no = others slot ls (λ e. absurd (ground arith)) in
                absurd (ground (arith, no, here))
          ]
    ]

-- The two branches of a free that leave another item on the page.
module _ (t : Slab) (page slot : ℕ) where
  abbrev pub cleared : Slab
  cleared = set_mask t page (without_bit slot (t.pages page).mask)

  pub free_slot-kept :
      ((t.pages page).mask == page_busy) ≡ false
      → page_one_used (t.pages page).mask t.item_count ≡ false
      → free_slot t page slot ≡ (none, cleared)
  unfolding free_slot
  free_slot-kept busy several = rw (busy, several) refl

  pub free_slot-moved :
      ((t.pages page).mask == page_busy) ≡ true
      → free_slot t page slot
        ≡ (none, record cleared { links = list_add page t.partial (list_del page t.links) })
  unfolding free_slot
  free_slot-moved busy = rw busy refl

abbrev pub requested : Slab → Slab
requested t = record t { stats = record t.stats { reqs = (t.stats.reqs + 1) % 2 ^ 64 } }

-- A free of an address that is one too low finds the slot before.
pub slab_free-previous :
    (t : Slab) (k slot : ℕ)
    → IsLaid t
    → suc slot < t.item_count
    → k * t.page_size + t.page_size ≤ 2 ^ 64
    → slab_free t (slot_address t (k * t.page_size) (suc slot) - 1)
      ≡ count_free (free_slot (requested t) (k * t.page_size) slot)
unfolding slab_free
slab_free-previous t k slot laid inside small =
    ap₂ (λ p i. count_free (free_slot (requested t) p i)) (page_before t laid k slot inside small)
      (slot_before t laid k slot inside small)

-- A free finds the page and the slot.
pub slab_free-free_slot :
    (t : Slab) (k slot : ℕ)
    → IsLaid t
    → slot < t.item_count
    → k * t.page_size + t.page_size ≤ 2 ^ 64
    → slab_free t (slot_address t (k * t.page_size) slot)
      ≡ count_free (free_slot (requested t) (k * t.page_size) slot)
unfolding slab_free
slab_free-free_slot t k slot laid inside small =
    let back = slot_address-slot_of t k slot laid inside small in
    ap₂ (λ p i. count_free (free_slot (requested t) p i)) back.0 back.1

pub self : (p : ℕ) → (p == p) ≡ true
self p = ground arith

-- A mask that is written and written back.
pub written_back :
    (pages : ℕ → Page) (p m m' : ℕ)
    → m' ≡ (pages p).mask
    → (a : ℕ)
    → set_page p
        (record (set_page p (record (pages p) { mask = m }) pages p) { mask = m' })
        (set_page p (record (pages p) { mask = m }) pages)
        a
      ≡ pages a
written_back pages p m m' e a = elim (Bool-cases (a == p)) [
  | inl here ↦ let at : p ≡ a = ground arith in rw (here, self p, e) (ap pages at)
  | inr away ↦ rw (away) refl
]
