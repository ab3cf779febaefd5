-- ===== src/UtilSlab.antt =====
-- The slab allocator of src/utils/src/slab.c, with the functions on bits and sizes that it takes from
-- src/utils/include/utils.h. Pointers are addresses of bytes, none of them below the pool.
pub mod Lifecycle
pub mod Find
pub mod Bits
pub mod Release
pub mod Sizes
mod Tests
use checks.Prelude.{
  ℕ, zero, suc, ◌+◌, ◌-◌, ◌*◌, ◌/◌, ◌%◌, ◌^◌, Bool, true, false, not, ◌&&◌, ◌||◌, Option, none,
  some, leb, ltb, ◌==◌, if◌then◌else◌,
}
use checks.Bitmask.{bit_of, with_bit, without_bit}

-- `struct onion_slab_block`.
pub record Block : Type 0 where
  pub used : ℕ
  pub allocation_size : ℕ
  pub is_start : Bool

-- `struct onion_slab`, with the memory that its pointers lead to: the bytes of the pool, the blocks and
-- the words of the bitmask.
pub record OnionSlab : Type 0 where
  pub pool : ℕ
  pub pool_size : ℕ
  pub block_capacity : ℕ
  pub block_size : ℕ
  pub block_used : ℕ
  pub bitmask_size : ℕ
  pub memory_allocated : ℕ
  pub bytes : ℕ → ℕ
  pub blocks : ℕ → Block
  pub bitmask : ℕ → ℕ

-- `onion_set_bit64` and `onion_clear_bit64`.
unfoldable pub set_bit64 : (ℕ → ℕ) → ℕ → ℕ → ℕ
set_bit64 bitmap offset w = if w == offset / 64 then with_bit (offset % 64) (bitmap w) else bitmap w

unfoldable pub clear_bit64 : (ℕ → ℕ) → ℕ → ℕ → ℕ
clear_bit64 bitmap offset w =
    if w == offset / 64 then without_bit (offset % 64) (bitmap w) else bitmap w

-- `bitmap[i / 64] & (1 << i % 64)`. The shift is that of an `int`: from bit 31 on C leaves it open.
unfoldable pub busy_bit : (ℕ → ℕ) → ℕ → Option Bool
unfolding bit_of
busy_bit bitmap i = if ltb (i % 64) 31 then some (bit_of (i % 64) (bitmap (i / 64))) else none

-- How the search for free blocks ends.
pub data Search : Type 0 where
  start_at : ℕ → Search
  not_found : Search
  open_shift : Search

-- The loop of `find_consecutive_free_bits` from bit `i` on.
unfoldable pub find_loop : (ℕ → ℕ) → ℕ → ℕ → ℕ → ℕ → ℕ → Search
find_loop bitmap needed zero i consecutive start = not_found
find_loop bitmap needed (suc rounds) i consecutive start =
    let first = if consecutive == 0 then i else start in
    let more = find_loop bitmap needed rounds (suc i) (consecutive + 1) first in
    let anew = find_loop bitmap needed rounds (suc i) 0 0 in
    elim (busy_bit bitmap i) [
      | none ↦ open_shift
      | some true ↦ anew
      | some false ↦ if leb needed (consecutive + 1) then start_at first else more
    ]

-- `find_consecutive_free_bits`; `not_found` is -1.
unfoldable pub find_consecutive_free_bits : (ℕ → ℕ) → ℕ → ℕ → Search
unfolding find_loop
find_consecutive_free_bits bitmap bitmask_size needed =
    find_loop bitmap needed (bitmask_size * 64) 0 0 0

-- `clear_consecutive_busy_bits`, with the number of bits.
unfoldable pub clear_bits : (ℕ → ℕ) → ℕ → ℕ → ℕ → ℕ
unfolding clear_bit64
clear_bits bitmap start zero = bitmap
clear_bits bitmap start (suc count) = clear_bits (clear_bit64 bitmap start) (suc start) count

-- `onion_slab_get_endpoint`.
abbrev pub get_endpoint : OnionSlab → ℕ → ℕ
get_endpoint slab start = start + (slab.blocks start).allocation_size

abbrev pub set_block : ℕ → Block → (ℕ → Block) → ℕ → Block
set_block i block blocks j = if j == i then block else blocks j

-- One round of `onion_slab_write_blocks`.
abbrev pub write_block : OnionSlab → ℕ → ℕ → ℕ → ℕ → Bool → OnionSlab
write_block a start index real_size needed set_bits =
    let at = start + index in
    let old = a.blocks at in
    record a {
      bitmask = if set_bits then set_bit64 a.bitmask at else a.bitmask;
      blocks =
          set_block at
            (record {
              used = if ltb a.block_size real_size then a.block_size else real_size;
              allocation_size = if index == 0 then needed else old.allocation_size;
              is_start = index == 0;
            })
            a.blocks;
    }

-- Its loop, from `index` on with its rounds left.
unfoldable pub write_loop : OnionSlab → ℕ → ℕ → ℕ → ℕ → ℕ → Bool → OnionSlab
unfolding set_bit64
write_loop a start index zero real_size needed set_bits = a
write_loop a start index (suc rounds) real_size needed set_bits =
    write_loop (write_block a start index real_size needed set_bits) start (suc index) rounds
      (real_size - a.block_size) needed set_bits

-- `memcpy` of `size` bytes.
abbrev pub copy_bytes : ℕ → ℕ → ℕ → (ℕ → ℕ) → ℕ → ℕ
copy_bytes to from size bytes a =
    if leb to a && ltb a (to + size) then bytes (from + (a - to)) else bytes a

-- The address of a block: the pool is taken for words of 8 bytes.
abbrev pub block_address : OnionSlab → ℕ → ℕ
block_address a start = a.pool + 8 * (start * a.block_size)

-- Whether so many bytes from an address on lie in the pool. Behind it lie other allocations.
abbrev pub in_pool : OnionSlab → ℕ → ℕ → Bool
in_pool a ptr count = leb (ptr + count) (a.pool + a.pool_size)

-- `onion_slab_write_blocks`; `source` is `none` for NULL, and else so many bytes can be read there. `none` is
-- a `memcpy` behind the pool.
unfoldable pub write_blocks : OnionSlab → ℕ → Option ℕ → ℕ → ℕ → Bool → Option OnionSlab
unfolding write_loop
write_blocks a start source size needed set_bits =
    let b = write_loop a start 0 needed size needed set_bits in
    let counted = record b { memory_allocated = (b.memory_allocated + needed) % 2 ^ 64 } in
    elim source [
      | none ↦ some counted
      | some from ↦
          if in_pool a (block_address a start) size
          then some
              (record counted { bytes = copy_bytes (block_address a start) from size b.bytes })
          else none
    ]

abbrev pub zero_bytes : ℕ → ℕ → (ℕ → ℕ) → ℕ → ℕ
zero_bytes at size bytes a = if leb at a && ltb a (at + size) then 0 else bytes a

-- `onion_slab_del`, where `stop` is `end + 1`. `none` is a `memset` behind the pool.
unfoldable pub slab_del : OnionSlab → ℕ → ℕ → Option OnionSlab
unfolding clear_bits
slab_del a start stop =
    let count = stop - start in
    if leb stop start || ltb a.block_capacity stop
    then some a
    else if ltb a.block_used count
    then some a
    else if in_pool a (block_address a start) (count * a.block_size)
    then some (record a {
      bitmask = clear_bits a.bitmask start count;
      bytes = zero_bytes (block_address a start) (count * a.block_size) a.bytes;
      block_used = a.block_used - count;
      memory_allocated = (a.memory_allocated + 2 ^ 64 - count) % 2 ^ 64;
    })
    else none

-- How an allocation ends.
pub data Given : Type 0 where
  null : OnionSlab → Given
  pointer : ℕ → OnionSlab → Given
  undefined : Given

abbrev pub blocks_for : OnionSlab → ℕ → ℕ
blocks_for a size = (size + a.block_size - 1) % 2 ^ 64 / a.block_size

-- The end of `onion_slab_malloc`, from the search on.
unfoldable pub give : OnionSlab → Option ℕ → ℕ → Search → Given
unfolding write_blocks
give a source size not_found = null a
give a source size open_shift = undefined
give a source size (start_at start) =
    let needed = blocks_for a size in
    elim (write_blocks a start source size needed true) [
      | none ↦ undefined
      | some b ↦
          pointer (block_address a start)
            (record b { block_used = (b.block_used + needed) % 2 ^ 64 })
    ]

-- `onion_slab_malloc`.
unfoldable pub slab_malloc : OnionSlab → Option ℕ → ℕ → Given
unfolding give find_consecutive_free_bits
slab_malloc a source size =
    let needed = blocks_for a size in
    if size == 0
    then null a
    else if ltb ((a.block_capacity + 2 ^ 64 - a.block_used) % 2 ^ 64) needed
    then null a
    else give a source size (find_consecutive_free_bits a.bitmask a.bitmask_size needed)

-- The block of a pointer; the division rounds down.
abbrev pub index_of : OnionSlab → ℕ → ℕ
index_of a ptr = (ptr - a.pool) / 8 / a.block_size

-- `onion_slab_free` of a pointer that is not NULL.
unfoldable pub slab_free : OnionSlab → ℕ → Option OnionSlab
unfolding slab_del
slab_free a ptr =
    let start = index_of a ptr in
    if leb a.block_capacity start
    then some a
    else if not (a.blocks start).is_start
    then some a
    else slab_del a start (start + (a.blocks start).allocation_size)

-- `onion_slab_free_and_null`: the pointer that is left.
abbrev pub free_and_null : OnionSlab → Option ℕ → Option (Option ℕ × OnionSlab)
free_and_null a none = some (none, a)
free_and_null a (some ptr) = elim (slab_free a ptr) [ none ↦ none | some b ↦ some (none, b) ]
