-- ===== src/UtilSlab/Tests.antt =====
-- Runs of the slab allocator of src/utils/src/slab.c, and the theorems on it at an example.
use checks.Prelude.{ℕ, zero, suc, ◌≤◌, ◌≡◌, refl, true, false, if◌then◌else◌, none, some, arith}
use checks.Bitmask.{bit_of}
use checks.Pool.{round_size_pow2}
use checks.UtilSlab.{
  OnionSlab, busy_bit, start_at, open_shift, find_consecutive_free_bits, pointer, slab_malloc,
  slab_free,
}
use checks.UtilSlab.Lifecycle.{Allocations, slab_init}
use checks.UtilSlab.Find.{FirstFit, find_consecutive_free_bits-FirstFit}
use checks.UtilSlab.Release.{IsPool, Restored, slab_malloc-slab_free}
use checks.UtilSlab.Sizes.{
  RoundedUp, round_size_pow2-RoundedUp, Made, all_allocated, slab_init-Made,
}

-- 256 blocks of 32 bytes, the first two of which are used.
abbrev allocator : OnionSlab
allocator = record {
  pool = 4096;
  pool_size = 8192;
  block_capacity = 256;
  block_size = 32;
  block_used = 2;
  bitmask_size = 4;
  memory_allocated = 2;
  bytes = λ a. 0;
  blocks = λ i. record { used = 0; allocation_size = 0; is_start = false };
  bitmask = λ w. 3;
}

allocator-IsPool : IsPool allocator
allocator-IsPool = record {
  words = omega arith;
  enough_blocks = omega arith;
  some_bytes = omega arith;
  counted = omega arith;
  capacity_small = omega arith;
  memory_small = omega arith;
}

third_block : find_consecutive_free_bits (λ w. 3) 1 4 ≡ start_at 2
unfolding find_consecutive_free_bits busy_bit
third_block = refl

-- Thirty blocks are free, but not among the first 31.
thirty_blocks : find_consecutive_free_bits (λ w. 3) 1 30 ≡ open_shift
unfolding find_consecutive_free_bits busy_bit
thirty_blocks = refl

find_consecutive_free_bits-FirstFit_example : FirstFit 3 4 (find_consecutive_free_bits (λ w. 3) 1 4)
find_consecutive_free_bits-FirstFit_example =
    find_consecutive_free_bits-FirstFit (λ w. 3) 1 4 (omega arith) (omega arith)

no_bit : (j : ℕ) → bit_of j 0 ≡ false
unfolding bit_of
no_bit zero = refl
no_bit (suc j) = no_bit j

free_from_two : (j : ℕ) → 2 ≤ j → bit_of j 3 ≡ false
unfolding bit_of
free_from_two zero low = absurd (omega arith)
free_from_two (suc zero) low = absurd (omega arith)
free_from_two (suc (suc j)) low = no_bit j

slab_malloc-slab_free_example :
    (ptr : ℕ) × (b : OnionSlab) × (c : OnionSlab) × (slab_malloc allocator none 100 ≡ pointer ptr b)
    × (slab_free b ptr ≡ some c)
    × Restored allocator c
slab_malloc-slab_free_example =
    slab_malloc-slab_free allocator none 100 2 allocator-IsPool (omega arith) (omega arith)
      (omega arith) (omega arith) (λ j low high. free_from_two j low) (omega arith)

round_size_pow2-RoundedUp_example : RoundedUp 1000 (round_size_pow2 1000)
round_size_pow2-RoundedUp_example = round_size_pow2-RoundedUp 1000 (omega arith) (omega arith)

abbrev granted : Allocations
granted = record { allocator = true; pool = true; blocks = true; bitmask = true }

slab_init-Made_example :
    (a : OnionSlab) × (slab_init granted allocator 1000
      ≡ some (if all_allocated granted then some a else none))
    × Made 1000 allocator a
slab_init-Made_example = slab_init-Made granted allocator 1000 (omega arith) (omega arith)
