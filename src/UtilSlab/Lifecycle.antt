-- ===== src/UtilSlab/Lifecycle.antt =====
-- `onion_slab_realloc` and `onion_slab_init` of src/utils/src/slab.c.
use checks.Prelude.{
  ℕ, zero, suc, ◌+◌, ◌-◌, ◌*◌, ◌/◌, ◌%◌, ◌^◌, Bool, true, false, not, ◌&&◌, ◌||◌, Option, none,
  some, leb, ltb, ◌==◌, if◌then◌else◌,
}
use checks.Pool.{round_size_pow2}
use checks.UtilSlab.{
  OnionSlab, set_bit64, clear_bit64, busy_bit, set_block, copy_bytes, index_of, blocks_for, in_pool,
  Given, null, pointer, undefined, slab_malloc, slab_free,
}

-- The loops of `onion_slab_realloc` over the blocks that are cleared, tested and set.
unfoldable pub shrink_loop : OnionSlab → ℕ → ℕ → OnionSlab
unfolding clear_bit64
shrink_loop a i zero = a
shrink_loop a i (suc rounds) =
    shrink_loop
      (record a {
        bitmask = clear_bit64 a.bitmask i;
        blocks = set_block i (record (a.blocks i) { used = 0 }) a.blocks;
      })
      (suc i) rounds

-- `none` is a shift that C leaves open.
unfoldable pub can_expand : OnionSlab → ℕ → ℕ → Option Bool
unfolding busy_bit
can_expand a next_bit zero = some true
can_expand a next_bit (suc rounds) =
    let rest = can_expand a (suc next_bit) rounds in
    if leb a.block_capacity next_bit then some false else elim (busy_bit a.bitmask next_bit) [
      | none ↦ none
      | some true ↦ some false
      | some false ↦ rest
    ]

unfoldable pub expand_loop : OnionSlab → ℕ → ℕ → OnionSlab
unfolding set_bit64
expand_loop a bit_index zero = a
expand_loop a bit_index (suc rounds) =
    expand_loop
      (record a {
        bitmask = set_bit64 a.bitmask bit_index;
        blocks = set_block bit_index (record (a.blocks bit_index) { used = 0 }) a.blocks;
      })
      (suc bit_index) rounds

abbrev pub set_allocation_size : OnionSlab → ℕ → ℕ → OnionSlab
set_allocation_size a start n = record a {
  blocks = set_block start (record (a.blocks start) { allocation_size = n }) a.blocks;
}

-- The branch with fewer blocks, or as many.
unfoldable pub shrink : OnionSlab → ℕ → ℕ → ℕ → OnionSlab
unfolding shrink_loop
shrink a start old_blocks new_blocks =
    let b =
      shrink_loop (set_allocation_size a start new_blocks) (start + new_blocks)
        (old_blocks - new_blocks) in
    record b { block_used = (b.block_used + 2 ^ 64 - (old_blocks - new_blocks)) % 2 ^ 64 }

-- The branch where the blocks behind are free.
unfoldable pub expand : OnionSlab → ℕ → ℕ → ℕ → OnionSlab
unfolding expand_loop
expand a start old_blocks new_blocks =
    let b =
      set_allocation_size (expand_loop a (start + old_blocks) (new_blocks - old_blocks)) start
        new_blocks in
    record b { block_used = (b.block_used + (new_blocks - old_blocks)) % 2 ^ 64 }

-- The branch with a new place. The allocation has copied `new_size` bytes from the old one already.
unfoldable pub move : OnionSlab → ℕ → ℕ → ℕ → Given
move a ptr new_size old_blocks = elim (slab_malloc a (some ptr) new_size) [
  | null b ↦ null b
  | pointer new_ptr b ↦
      let copy_size = old_blocks * a.block_size in
      let count = if ltb new_size copy_size then new_size else copy_size in
      if in_pool b new_ptr count
      then elim (slab_free (record b { bytes = copy_bytes new_ptr ptr count b.bytes }) ptr) [
        | none ↦ undefined
        | some c ↦ pointer new_ptr c
      ]
      else undefined
  | undefined ↦ undefined
]

-- `onion_slab_realloc`.
unfoldable pub slab_realloc : OnionSlab → Option ℕ → ℕ → Given
unfolding shrink expand can_expand move
slab_realloc a none new_size = slab_malloc a none new_size
slab_realloc a (some ptr) new_size =
    let start = index_of a ptr in
    let old_blocks = (a.blocks start).allocation_size in
    let new_blocks = blocks_for a new_size in
    if new_size == 0
    then elim (slab_free a ptr) [ none ↦ undefined | some b ↦ null b ]
    else if leb a.block_capacity start || not (a.blocks start).is_start
    then null a
    else if leb new_blocks old_blocks
    then pointer ptr (shrink a start old_blocks new_blocks)
    else elim (can_expand a (start + old_blocks) (new_blocks - old_blocks)) [
      | none ↦ undefined
      | some true ↦ pointer ptr (expand a start old_blocks new_blocks)
      | some false ↦ move a ptr new_size old_blocks
    ]

-- `multiply` of `onion_slab_init`.
abbrev pub unit_size : ℕ
unit_size = 32

-- `memset` of so many bytes from the start of the bitmask on to 0, the low bytes of a word first.
unfoldable pub clear_bytes : ℕ → (ℕ → ℕ) → ℕ → ℕ
clear_bytes count words w =
    if leb (8 * (w + 1)) count
    then 0
    else if leb count (8 * w)
    then words w
    else words w / 256 ^ (count - 8 * w) * 256 ^ (count - 8 * w)

-- Which calls of `malloc` of `onion_slab_init` succeed.
pub record Allocations : Type 0 where
  pub allocator : Bool
  pub pool : Bool
  pub blocks : Bool
  pub bitmask : Bool

-- An allocator with its fields set. It allocates and clears one byte of the bitmask for each word;
-- `memory` holds what the allocations contain, and stays as it is where the source writes nothing.
unfoldable pub initialised : OnionSlab → ℕ → OnionSlab
unfolding clear_bytes
initialised memory total_pool_size =
    let count = total_pool_size / unit_size in
    let blocks = if ltb count unit_size then unit_size else count in
    record memory {
      pool_size = total_pool_size;
      block_capacity = blocks;
      block_size = total_pool_size / blocks;
      block_used = 0;
      bitmask_size = (blocks + 63) / 64;
      blocks = λ i.
          if ltb i blocks
          then record { used = 0; allocation_size = 0; is_start = false }
          else memory.blocks i;
      bitmask = clear_bytes ((blocks + 63) / 64) memory.bitmask;
    }

-- `onion_slab_init`. The inner `none` is NULL, the outer one a loop without end.
unfoldable pub slab_init : Allocations → OnionSlab → ℕ → Option (Option OnionSlab)
unfolding round_size_pow2 initialised
slab_init ok memory size =
    let least = unit_size * 4 in
    elim (round_size_pow2 (if ltb size least then least else size)) [
      | none ↦ none
      | some total_pool_size ↦ some (
          if ok.allocator && (ok.pool && (ok.blocks && ok.bitmask))
          then some (initialised memory total_pool_size)
          else none)
    ]
