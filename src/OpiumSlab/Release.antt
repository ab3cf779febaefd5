-- ===== src/OpiumSlab/Release.antt =====
-- A slot that is taken and given back (project/core/opium_slab.c).
use checks.Prelude.{
  ℕ, ◌+◌, ◌-◌, ◌*◌, ◌%◌, ◌^◌, ◌<◌, ◌≤◌, ◌≡◌, ◌≢◌, refl, ap, ◌∙◌, inl, inr, true, false, Bool-cases,
  Option, none, some, List, ◌∷◌, ◌==◌, arith,
}
use checks.Bitmask.{bit_of, with_bit, without_bit}
use checks.Chain.{Memory, list_add, list_del}
use checks.Chain.Ring.{Ring}
use checks.Chain.Move.{TwoLists, list_del-list_add_twice}
use checks.OpiumSlab.{
  Slab, page_busy, page_one_used, slot_address, set_page, set_header, slot_header,
}
use checks.OpiumSlab.Alloc.{new_slot, take_slot}
use checks.OpiumSlab.Free.{slab_free}
use checks.OpiumSlab.Words.{without_bit-with_bit}
use checks.OpiumSlab.Address.{IsLaid}
use checks.OpiumSlab.Slot.{IsMask, LowestFree, new_slot-LowestFree}
use checks.OpiumSlab.Branches.{
  two_used, free_slot-kept, free_slot-moved, requested, slab_free-free_slot, self, written_back,
}

-- What taking a slot of a page and giving it back leaves: all pages, the number of used items and the two lists.
pub record Restored (s t : Slab) (page : ℕ) (xs ys : List ℕ) : Type 0 where
  pub pages : (a : ℕ) → t.pages a ≡ s.pages a
  pub used : t.stats.used ≡ s.stats.used
  pub partial : Ring t.links s.partial (page ∷ xs)
  pub full : Ring t.links s.full ys

abbrev pub Released : Slab → ℕ → List ℕ → List ℕ → Option ℕ × Slab → Type 0
Released s page xs ys (chunk, t) = (chunk ≡ none) × Restored s t page xs ys

module _ (s : Slab) (k slot j : ℕ) (xs ys : List ℕ) (laid : IsLaid s)
    (small : k * s.page_size + s.page_size ≤ 2 ^ 64) (few_used : s.stats.used < 2 ^ 64 - 1)
    (lists : TwoLists s.links s.partial s.full (k * s.page_size) xs ys)
    (low : LowestFree s.item_count (s.pages (k * s.page_size)).mask slot) (lj : j < s.item_count)
    (other : bit_of j (s.pages (k * s.page_size)).mask ≡ true) where
  abbrev page : ℕ
  page = k * s.page_size

  abbrev mask : ℕ
  mask = with_bit slot (s.pages page).mask

  -- The slab with the slot taken, its links aside.
  abbrev held : Memory → Slab
  held links = record s {
    stats = record s.stats { used = (s.stats.used + 1) % 2 ^ 64 };
    pages = set_page page (record (s.pages page) { mask = mask }) s.pages;
    headers = set_header (slot_address s page slot - slot_header) slot s.headers;
    links = links;
  }

  abbrev there : Memory
  there = list_add page s.full (list_del page s.links)

  taken-busy :
      (mask == page_busy) ≡ true → take_slot s page slot ≡ (slot_address s page slot, held there)
  unfolding take_slot
  taken-busy busy = rw busy refl

  taken-partial :
      (mask == page_busy) ≡ false → take_slot s page slot ≡ (slot_address s page slot, held s.links)
  unfolding take_slot
  taken-partial busy = rw busy refl

  marked : ((held there).pages page).mask ≡ mask
  marked = rw (self page) refl

  emptied : without_bit slot ((held there).pages page).mask ≡ (s.pages page).mask
  emptied = ap (without_bit slot) marked ∙ without_bit-with_bit slot (s.pages page).mask low.free

  restored :
      (a : ℕ)
      → set_page page
          (record (set_page page (record (s.pages page) { mask = mask }) s.pages page) {
            mask = without_bit slot ((held there).pages page).mask;
          })
          (set_page page (record (s.pages page) { mask = mask }) s.pages)
          a
        ≡ s.pages a
  restored =
      written_back s.pages page mask (without_bit slot ((held there).pages page).mask) emptied

  held-IsLaid : (links : Memory) → IsLaid (held links)
  held-IsLaid links = record {
    some_bytes = laid.some_bytes;
    room = laid.room;
    some_items = laid.some_items;
    few_items = laid.few_items;
  }

  counted : ((s.stats.used + 1) % 2 ^ 64 + 2 ^ 64 - 1) % 2 ^ 64 ≡ s.stats.used
  counted = omega (arith, few_used)

  busy-Released :
      (mask == page_busy) ≡ true
      → Released s page xs ys (slab_free (held there) (slot_address s page slot))
  busy-Released busy =
      rw
        (
          slab_free-free_slot (held there) k slot (held-IsLaid there) low.inside small,
          free_slot-moved (requested (held there)) page slot
              (ap (λ m. m == page_busy) marked ∙ busy),
        )
        (
          refl,
          record {
            pages = restored;
            used = counted;
            partial = (list_del-list_add_twice s.links s.partial s.full page xs ys lists).1;
            full = (list_del-list_add_twice s.links s.partial s.full page xs ys lists).2;
          },
        )

  partial-Released :
      (mask == page_busy) ≡ false
      → Released s page xs ys (slab_free (held s.links) (slot_address s page slot))
  partial-Released busy =
      let several =
        two_used s.item_count (s.pages page).mask slot j laid.few_items low.inside lj low.free
          other in
      rw
        (
          slab_free-free_slot (held s.links) k slot (held-IsLaid s.links) low.inside small,
          free_slot-kept (requested (held s.links)) page slot
              (ap (λ m. m == page_busy) marked ∙ busy)
              (ap (λ m. page_one_used m s.item_count) marked ∙ several),
        )
        (
          refl,
          record { pages = restored; used = counted; partial = lists.source; full = lists.target },
        )

  released :
      (ptr : ℕ) × (r : Slab) × (some (take_slot s page slot) ≡ some (ptr, r))
      × Released s page xs ys (slab_free r ptr)
  released = elim (Bool-cases (mask == page_busy)) [
    | inl busy ↦
        (slot_address s page slot, held there, ap some (taken-busy busy), busy-Released busy)
    | inr busy ↦ (
      slot_address s page slot,
      held s.links,
      ap some (taken-partial busy),
      partial-Released busy,
    )
  ]

-- A page that is not full gives an item, and the free of that item undoes it: it gives no chunk back,
-- and leaves all pages, the number of used items and the lists as before, the page first among the
-- partial ones, also where the item was the last that was free. Conditions: the sizes are those of an
-- initialised slab, the page is aligned and first in the partial list, the lists are disjoint, the bits
-- of its mask above the items are ones, and another item of the page is used.
pub new_slot-slab_free :
    (s : Slab) (k j : ℕ) (xs ys : List ℕ)
    → IsLaid s
    → k * s.page_size + s.page_size ≤ 2 ^ 64
    → s.stats.used < 2 ^ 64 - 1
    → TwoLists s.links s.partial s.full (k * s.page_size) xs ys
    → IsMask s.item_count (s.pages (k * s.page_size)).mask
    → (s.pages (k * s.page_size)).mask ≢ page_busy
    → j < s.item_count
    → bit_of j (s.pages (k * s.page_size)).mask ≡ true
    → (ptr : ℕ) × (r : Slab) × (new_slot s (k * s.page_size) ≡ some (ptr, r))
      × Released s (k * s.page_size) xs ys (slab_free r ptr)
new_slot-slab_free s k j xs ys laid small few_used lists m free lj other =
    let (slot, low, e) = new_slot-LowestFree s (k * s.page_size) m free in
    let (ptr, r, took, back) = released s k slot j xs ys laid small few_used lists low lj other in
    (ptr, r, e ∙ took, back)
