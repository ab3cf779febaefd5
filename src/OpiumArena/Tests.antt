-- ===== src/OpiumArena/Tests.antt =====
-- Runs of the arena of project/core/opium_arena.c, and the theorems on it at an example.
use checks.Prelude.{ℕ, ◌-◌, ◌*◌, ◌^◌, ◌<◌, ◌≡◌, refl, true, some, arith}
use checks.Chain.{Link}
use checks.OpiumSlab.{Slab, zero_stats, slot_address}
use checks.OpiumSlab.Address.{IsLaid}
use checks.OpiumSlab.Free.{free_slot, count_free}
use checks.OpiumSlab.Branches.{requested}
use checks.OpiumSlab.Rounding.{rounded_up, rounded_up-RoundsUp}
use checks.OpiumArena.{
  Arena, round_of_two, bit_length, log2, slab_index, arena_init, arena_free, set_slab,
}
use checks.OpiumArena.Index.{Chosen, slab_index-Chosen}
use checks.OpiumArena.Lifetime.{arena_init-slab_index, arena_free-previous}

rounded : round_of_two 100 ≡ 128
unfolding round_of_two bit_length
rounded = refl

log2_of_128 : log2 128 ≡ 7
unfolding log2 bit_length
log2_of_128 = refl

abbrev looped : ℕ → Link
looped a = record { next = a; prev = a }

-- A slab of items of ten bytes with a page at 4096.
abbrev slab : Slab
slab = record {
  page_size = 512;
  pages_per_alloc = 4096;
  item_size = 11;
  item_count = 42;
  alignment_mask = 2 ^ 64 - 512;
  empty = 1;
  partial = 2;
  full = 3;
  stats = zero_stats;
  links = looped;
  pages = λ a. record { boss = 0; mask = 7; refcount = 1 };
  headers = λ a. 0;
}

abbrev arena : Arena
arena = record {
  shift_count = 13;
  min_shift = 4;
  max_shift = 16;
  min_size = 16;
  slabs = λ i. slab;
  headers = λ a. 0;
}

slab-IsLaid : IsLaid (record slab { headers = λ a. 0 })
slab-IsLaid = record {
  some_bytes = omega arith;
  room = omega arith;
  some_items = omega arith;
  few_items = omega arith;
}

slab_index-Chosen_example : Chosen 100 (slab_index arena 100)
slab_index-Chosen_example = slab_index-Chosen arena 100 refl (omega arith) (omega arith)

arena_init-slab_index_example :
    let made = (arena_init rounded_up true (λ i. slab) arena).1 in
    let s = made.slabs (slab_index made 100) in IsLaid s × (100 < s.item_size)
arena_init-slab_index_example =
    arena_init-slab_index rounded_up (λ i. slab) arena 100 rounded_up-RoundsUp (omega arith)
      (omega arith)

arena_free-previous_example :
    let (chunk, end) = count_free (free_slot (requested slab) (8 * 512) 1) in
    arena_free arena (slot_address slab (8 * 512) 2)
    ≡ some (chunk, record arena { slabs = set_slab 0 end arena.slabs })
arena_free-previous_example =
    arena_free-previous arena 0 8 1 slab-IsLaid (omega arith) (omega arith) (omega arith) refl
