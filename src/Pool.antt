-- ===== src/Pool.antt =====
-- `struct onion_block` of src/onion/pool.c, a pool of blocks of one size, with the map of bytes and the
-- rounding of src/utils/include/utils.h.
mod Tests
pub mod Map
pub mod Marks
pub mod Alloc
pub mod Release
use checks.Prelude.{
  ℕ, zero, suc, ◌+◌, ◌-◌, ◌*◌, ◌/◌, ◌%◌, ◌^◌, Bool, true, false, not, Option, none, some, List, leb,
  ltb, ◌==◌, if◌then◌else◌, get_elem?, set, replicate,
}
use checks.Bitmask.{Bitmask, bit_of, with_bit, without_bit, bitmask_add, bitmask_del, bitmask_init}

-- The loop of `round_size_pow2`; `none` means that the fuel ran out.
unfoldable pub round_loop : ℕ → ℕ → ℕ → Option ℕ
round_loop zero size multiply = none
round_loop (suc fuel) size multiply =
    let rest = round_loop fuel size ((multiply * 2) % 2 ^ 64) in
    if ltb multiply size then rest else some multiply

-- `round_size_pow2`. A size of at most 2 ^ 63 takes at most 64 rounds.
unfoldable pub round_size_pow2 : ℕ → Option ℕ
round_size_pow2 size = if size == 0 then some 1 else round_loop 65 size 1

-- What the search of a map of bytes ends with: an index, -1, or a read behind the map.
pub data Found : Type 0 where
  found : ℕ → Found
  none_free : Found
  reads_wild : Found

-- The first clear bit of a byte from a bit on, with the rounds left.
unfoldable pub scan_clear : ℕ → ℕ → ℕ → Option ℕ
unfolding bit_of
scan_clear zero bit byte = none
scan_clear (suc rounds) bit byte =
    let rest = scan_clear rounds (suc bit) byte in if bit_of bit byte then rest else some bit

-- The loop of `ffb` over the bytes. An index outside the count leaves the inner loop only.
unfoldable pub ffb_loop : List ℕ → ℕ → ℕ → ℕ → Found
ffb_loop bitmap count zero byte = none_free
ffb_loop bitmap count (suc rounds) byte =
    let rest = ffb_loop bitmap count rounds (suc byte) in
    elim (get_elem? bitmap byte) [
      | none ↦ reads_wild
      | some w ↦ if w == 255 then rest else elim (scan_clear 8 0 w) [
        | none ↦ rest
        | some bit ↦ if leb count (byte * 8 + bit) then rest else found (byte * 8 + bit)
      ]
    ]

-- `ffb` of src/utils/include/utils.h.
unfoldable pub ffb : List ℕ → ℕ → Found
ffb bitmap count = ffb_loop bitmap count ((count + 7) / 8) 0

-- `set_bit` and `clear_bit` of the same file; `none` where they write behind the map.
unfoldable pub set_bit : List ℕ → ℕ → Option (List ℕ)
set_bit bitmap offset = elim (get_elem? bitmap (offset / 8)) [
  | none ↦ none
  | some w ↦ some (set bitmap (offset / 8) (with_bit (offset % 8) w))
]

unfoldable pub clear_bit : List ℕ → ℕ → Option (List ℕ)
clear_bit bitmap offset = elim (get_elem? bitmap (offset / 8)) [
  | none ↦ none
  | some w ↦ some (set bitmap (offset / 8) (without_bit (offset % 8) w))
]

-- Less the list that links the pools, the unused `max_size` and the bytes of the blocks: a pointer to a
-- block is its offset in `data`.
pub record Pool : Type 0 where
  pub current_size : ℕ
  pub block_max : ℕ
  pub block_size : ℕ
  pub block_count : ℕ
  pub block_free : ℕ
  pub bitmap : List ℕ
  pub bitmask : Bitmask

-- `onion_block_init` with memory for every part. `none` is -1, a size that the rounding does not end
-- for, or a block size of 0, for which the division traps.
unfoldable pub block_init : ℕ → ℕ → Option Pool
unfolding round_size_pow2
block_init max_size block_size = if block_size == 0 then none else elim (round_size_pow2 max_size) [
  | none ↦ none
  | some rounded ↦
      let block_max = rounded / block_size in
      elim (bitmask_init true true block_max 8) [
        | none ↦ none
        | some bitmask ↦ some (record {
          current_size = 0;
          block_max = block_max;
          block_size = block_size;
          block_count = 0;
          block_free = block_max;
          bitmap = replicate ((block_max + 63) / 64) 0;
          bitmask = bitmask;
        })
      ]
]

-- `onion_block_isFull`.
abbrev pub is_full : Pool → Bool
is_full p = p.block_free == 0

-- How an allocation or a release ends: with NULL, with the offset of a block, with the pool alone, or
-- by an access behind the map.
pub data Ended : Type 0 where
  null : Pool → Ended
  block : ℕ → Pool → Ended
  released : Pool → Ended
  wild : Ended

-- From the index of the free block on. Sizes wrap at 2 ^ 64.
unfoldable pub take_block : Pool → Found → Ended
take_block p none_free = null p
take_block p reads_wild = wild
take_block p (found index) = elim (set_bit p.bitmap index) [
  | none ↦ wild
  | some bitmap ↦ block (index * p.block_size) (record p {
    bitmap = bitmap;
    block_free = p.block_free - 1;
    block_count = p.block_count + 1;
    current_size = (p.current_size + p.block_size) % 2 ^ 64;
  })
]

-- `onion_block_alloc` of a pool. What the bitmask answers is not used, and the counter of all the pools
-- is left out.
unfoldable pub block_alloc : Pool → Ended
block_alloc p =
    let q = record p { bitmask = (bitmask_add p.bitmask 1).1 } in
    if is_full p then null p else take_block q (ffb p.bitmap p.block_max)

-- `int offset` of a difference of pointers, and what it is as a `size_t` again: a negative one is large.
abbrev pub int_offset : ℕ → ℕ
int_offset offset =
    let low = offset % 2 ^ 32 in if ltb low (2 ^ 31) then low else 2 ^ 64 - 2 ^ 32 + low

-- `onion_block_free` of the block at an offset.
unfoldable pub block_free_at : Pool → ℕ → Ended
block_free_at p offset =
    let index = int_offset offset / p.block_size in
    if leb p.block_max index then released p else elim (clear_bit p.bitmap index) [
      | none ↦ wild
      | some bitmap ↦ released (record p {
        bitmask = bitmask_del p.bitmask index 1;
        bitmap = bitmap;
        block_free = (p.block_free + 1) % 2 ^ 64;
        block_count = (p.block_count + 2 ^ 64 - 1) % 2 ^ 64;
        current_size = (p.current_size + 2 ^ 64 - p.block_size) % 2 ^ 64;
      })
    ]
