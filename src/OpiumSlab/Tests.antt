-- ===== src/OpiumSlab/Tests.antt =====
-- Runs of the slab allocator of project/core/opium_slab.c, and the theorems on it at an example.
use checks.Prelude.{
  ℕ, leb, ◌+◌, ◌-◌, ◌*◌, ◌^◌, ◌<◌, ◌≡◌, ◌↔◌, refl, true, ◌==◌, if◌then◌else◌, Option, none, some,
  List, [], length, arith,
}
use checks.Bitmask.{bit_of, with_bit, without_bit, scan_bits, inverted}
use checks.Chain.{Link, Memory}
use checks.Chain.Move.{TwoLists}
use checks.OpiumSlab.{
  Slab, choose_sizes, zero_stats, page_init, page_one_used, slot_address, system_page,
}
use checks.OpiumSlab.Alloc.{item, null, undefined, new_slot, slab_alloc, take_slot}
use checks.OpiumSlab.Free.{page_of, slot_of, slab_free}
use checks.OpiumSlab.Walk.{slab_traverse, traverse_mask}
use checks.OpiumSlab.Words.{OnlyBit, page_one_used_lem}
use checks.OpiumSlab.Layout.{Fits, choose_sizes-Fits}
use checks.OpiumSlab.Rounding.{rounded_up, rounded_up-RoundsUp}
use checks.OpiumSlab.Address.{IsLaid}
use checks.OpiumSlab.Slot.{IsMask, LowestFree, with_bit-IsMask, new_slot-LowestFree}
use checks.OpiumSlab.Release.{Released, new_slot-slab_free}
use checks.OpiumSlab.Fresh.{page_init-IsMask}
use checks.OpiumSlab.Chunk.{NewChunk, slab_alloc-NewChunk}

-- Items of ten bytes: pages of 512 bytes with 42 items.
sizes_of_ten : choose_sizes rounded_up 10 ≡ record { page = 512; item = 11; count = 42 }
unfolding choose_sizes
sizes_of_ten = refl

choose_sizes-Fits_example : Fits (choose_sizes rounded_up 10) 10
choose_sizes-Fits_example =
    choose_sizes-Fits rounded_up 10 rounded_up-RoundsUp (omega arith) (omega arith)

-- The mask of a page of 42 items with the first one used.
abbrev first_used : ℕ
first_used = 2 ^ 64 - 2 ^ 42 + 1

first_used_is : first_used ≡ with_bit 0 (page_init 42)
unfolding with_bit page_init inverted
first_used_is = refl

first_used-IsMask : IsMask 42 first_used
first_used-IsMask =
    rw first_used_is (with_bit-IsMask 42 0 (page_init 42) (omega arith) (page_init-IsMask 42))

-- The heads stand at 1, 2 and 3, the page at 4096 is partial.
abbrev looped : ℕ → Link
looped a = record { next = a; prev = a }

abbrev one_partial : Memory
one_partial a = if a == 2 then looped 4096 else if a == 4096 then looped 2 else looped a

abbrev slab : Memory → Slab
slab links = record {
  page_size = 512;
  pages_per_alloc = 4096;
  item_size = 11;
  item_count = 42;
  alignment_mask = 2 ^ 64 - 512;
  empty = 1;
  partial = 2;
  full = 3;
  stats = zero_stats;
  links = links;
  pages = λ a. record { boss = 0; mask = first_used; refcount = 1 };
  headers = λ a. 0;
}

slab-IsLaid : (links : Memory) → IsLaid (slab links)
slab-IsLaid links = record {
  some_bytes = omega arith;
  room = omega arith;
  some_items = omega arith;
  few_items = omega arith;
}

slab-TwoLists : TwoLists one_partial 2 3 4096 [] []
slab-TwoLists = record {
  source = (refl, refl, (refl, refl));
  target = (refl, refl);
  source_apart = (omega arith, tt);
  distinct = (tt, tt);
  target_apart = tt;
  target_distinct = tt;
  entry_away = tt;
  from_away = tt;
  xs_away = tt;
  heads = omega arith;
  entry_head = omega arith;
  first_head = omega arith;
}

second_item : (page_of (slab one_partial) 4147 ≡ 4096) × (slot_of (slab one_partial) 4147 ≡ 1)
second_item = (refl, refl)

new_slot-LowestFree_example :
    (slot : ℕ) × LowestFree 42 first_used slot
    × (new_slot (slab one_partial) 4096 ≡ some (take_slot (slab one_partial) 4096 slot))
new_slot-LowestFree_example =
    new_slot-LowestFree (slab one_partial) 4096 first_used-IsMask (omega arith)

first_bit : bit_of 0 first_used ≡ true
unfolding bit_of
first_bit = refl

new_slot-slab_free_example :
    (ptr : ℕ) × (r : Slab) × (new_slot (slab one_partial) (8 * 512) ≡ some (ptr, r))
    × Released (slab one_partial) (8 * 512) [] [] (slab_free r ptr)
new_slot-slab_free_example =
    new_slot-slab_free (slab one_partial) 8 0 [] [] (slab-IsLaid one_partial) (omega arith)
      (omega arith) slab-TwoLists first_used-IsMask (omega arith) (omega arith) first_bit

page_one_used_lem_example :
    (page_one_used first_used 42 ≡ true) ↔ ((i : ℕ) × (i < 42) × OnlyBit 42 i first_used)
page_one_used_lem_example = page_one_used_lem first_used 42 (omega arith)

slab_alloc-NewChunk_example :
    ((r : Slab) × (slab_alloc (slab looped) (some 8192)
        ≡ item (slot_address (slab looped) 8192 0) r)
      × NewChunk (slab looped) 8192 r)
    × (slab_alloc (slab looped) none ≡ (
        if leb (slab looped).page_size system_page
        then undefined
        else null (record (slab looped) { stats = record zero_stats { reqs = 1; fails = 1 } })))
slab_alloc-NewChunk_example =
    slab_alloc-NewChunk (slab looped) 8192
      (record { laid = slab-IsLaid looped; small_pages = omega arith; whole = refl })
      (record {
        no_partial = (refl, refl);
        no_empty = (refl, refl);
        heads = omega arith;
        page_partial = omega arith;
        page_empty = omega arith;
        slave_partial = omega arith;
        slave_empty = omega arith;
      })

abbrev visit_count : Option (List ℕ) → ℕ
visit_count none = 0
visit_count (some visits) = length visits

-- A traversal of the page with its one item also visits the 22 slots that the page does not have.
visited : visit_count (slab_traverse 2 (slab one_partial)) ≡ 23
unfolding slab_traverse traverse_mask scan_bits without_bit bit_of
visited = refl
