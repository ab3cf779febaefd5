-- ===== src/Pool/Tests.antt =====
-- Runs of the pool of blocks, and its theorems at concrete inputs.
use checks.Prelude.{ℕ, zero, suc, ◌*◌, ◌<◌, ◌≡◌, refl, true, false, some, [], ◌∷◌, length, arith}
use checks.Bitmask.{bit_of}
use checks.Pool.{
  Pool, wild, block, released, round_size_pow2, round_loop, block_alloc, block_free_at,
}
use checks.Pool.Map.{is_taken}
use checks.Pool.Alloc.{Allocated, block_alloc-Allocated, block_alloc-overrun}
use checks.Pool.Release.{Counts, Restored, block_alloc-block_free_at}

rounds_up : round_size_pow2 100 ≡ some 128
unfolding round_size_pow2 round_loop
rounds_up = refl

-- Sixteen blocks, of which the eight of the one byte of the map are taken.
abbrev half_taken : Pool
half_taken = record {
  current_size = 256;
  block_max = 16;
  block_size = 32;
  block_count = 8;
  block_free = 8;
  bitmap = 255 ∷ [];
  bitmask = record { mask = 255 ∷ []; size = 16; conv_size = 1; size_per_frame = 64 };
}

byte_taken : (j : ℕ) → j < length half_taken.bitmap * 8 → is_taken half_taken.bitmap j ≡ true
unfolding bit_of
byte_taken zero lt = refl
byte_taken (suc zero) lt = refl
byte_taken (suc (suc zero)) lt = refl
byte_taken (suc (suc (suc zero))) lt = refl
byte_taken (suc (suc (suc (suc zero)))) lt = refl
byte_taken (suc (suc (suc (suc (suc zero))))) lt = refl
byte_taken (suc (suc (suc (suc (suc (suc zero)))))) lt = refl
byte_taken (suc (suc (suc (suc (suc (suc (suc zero))))))) lt = refl
byte_taken (suc (suc (suc (suc (suc (suc (suc (suc j)))))))) lt = absurd (omega arith)

block_alloc-overrun_example : block_alloc half_taken ≡ wild
block_alloc-overrun_example =
    block_alloc-overrun half_taken refl (omega arith) (omega arith) byte_taken

block_alloc-Allocated_example : Allocated half_taken (block_alloc half_taken)
block_alloc-Allocated_example = block_alloc-Allocated half_taken

-- Eight blocks, of which the third is free.
abbrev third_free : Pool
third_free = record {
  current_size = 224;
  block_max = 8;
  block_size = 32;
  block_count = 7;
  block_free = 1;
  bitmap = 251 ∷ [];
  bitmask = record { mask = 251 ∷ []; size = 8; conv_size = 1; size_per_frame = 64 };
}

third_free-Counts : Counts third_free
third_free-Counts = record {
  some_bytes = omega arith;
  some_free = omega arith;
  free_small = omega arith;
  count_small = omega arith;
  size_small = omega arith;
  block_small = omega arith;
  int_blocks = omega arith;
}

third_is_free : is_taken third_free.bitmap 2 ≡ false
unfolding bit_of
third_is_free = refl

block_alloc-block_free_at_example :
    (offset : ℕ) × (p' : Pool) × (p'' : Pool) × (block_alloc third_free ≡ block offset p')
    × (block_free_at p' offset ≡ released p'')
    × Restored third_free p''
block_alloc-block_free_at_example =
    block_alloc-block_free_at third_free 2 third_free-Counts (omega arith) (omega arith)
      third_is_free
