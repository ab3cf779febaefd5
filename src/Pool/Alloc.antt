-- ===== src/Pool/Alloc.antt =====
-- What `onion_block_alloc` of src/onion/pool.c answers.
use checks.Prelude.{
  ℕ, ◌+◌, ◌*◌, ◌/◌, ◌%◌, ◌<◌, ◌≡◌, ◌⊎◌, refl, ap, ◌∙◌, inl, inr, true, false, Bool-cases, none,
  List, [], ◌∷◌, ◌==◌, if◌then◌else◌, get_elem?, length, arith,
}
use checks.Bitmask.{bitmask_add}
use checks.Pool.{
  Found, found, none_free, reads_wild, ffb, Pool, Ended, null, block, released, wild, take_block,
  block_alloc,
}
use checks.Pool.Marks.{set_bit-is_taken}
use checks.Pool.Map.{bit_in, is_taken, FoundIn, ffb-FoundIn}

-- What an allocation says: NULL where the pool is full or every block is taken; the offset of the first
-- free block, which is marked and counted and changes no other mark; or an access behind the map, all
-- of whose blocks are taken.
pub Allocated : Pool → Ended → Type 0
Allocated p (null p') =
    (p.block_free ≡ 0) ⊎ ((j : ℕ) → j < p.block_max → is_taken p.bitmap j ≡ true)
Allocated p (block offset p') =
    (index : ℕ) × (offset ≡ index * p.block_size)
    × (index < p.block_max)
    × (is_taken p.bitmap index ≡ false)
    × ((j : ℕ) → j < index → is_taken p.bitmap j ≡ true)
    × ((q : ℕ) → is_taken p'.bitmap q ≡ (if q == index then true else is_taken p.bitmap q))
    × (p'.block_free + 1 ≡ p.block_free)
    × (p'.block_count ≡ p.block_count + 1)
Allocated p (released p') = ⊥
Allocated p wild =
    (length p.bitmap * 8 < p.block_max + 7)
    × ((j : ℕ) → j < length p.bitmap * 8 → j < p.block_max → is_taken p.bitmap j ≡ true)

-- An allocation answers the first free block and marks it, answers NULL only if the pool is full or all
-- its blocks are taken, or else all blocks of the map are taken and the map is too short.
pub block_alloc-Allocated : (p : Pool) → Allocated p (block_alloc p)
unfolding block_alloc Allocated FoundIn take_block
block_alloc-Allocated p = elim (Bool-cases (p.block_free == 0)) [
  | inl full ↦ rw (full, block_alloc) (inl (ground arith))
  | inr some_free ↦
      rw (some_free, block_alloc)
        (taken (ground arith) (ffb p.bitmap p.block_max) (ffb-FoundIn p.bitmap p.block_max))
]
  where
    q : Pool
    q = record p { bitmask = (bitmask_add p.bitmask 1).1 }

    taken :
        0 < p.block_free
        → (o : Found) → FoundIn p.bitmap p.block_max 0 ((p.block_max + 7) / 8 * 8) o
        → Allocated p (take_block (record p { bitmask = (bitmask_add p.bitmask 1).1 }) o)
    taken pos none_free h = inr (λ j lt. h j (omega arith) (omega arith) lt)
    taken pos reads_wild (past, h) = (omega arith, λ j inside lt. h j (omega arith) inside lt)
    taken pos (found index) (low, up, small, inside, free, h) =
        let (bitmap', e, kept, bits) = set_bit-is_taken p.bitmap index inside in
        rw (e, take_block)
          (index, refl, small, free, (λ j lt. h j (omega arith) lt), bits, omega arith, refl)

past_end : (bitmap : List ℕ) → get_elem? bitmap (length bitmap) ≡ none
past_end [] = refl
past_end (w ∷ bitmap) = past_end bitmap

-- A map that is too short for the count and has no clear bit is read behind its end.
ffb-overrun :
    (bitmap : List ℕ) (count : ℕ)
    → length bitmap * 8 < count
    → ((j : ℕ) → j < length bitmap * 8 → is_taken bitmap j ≡ true)
    → ffb bitmap count ≡ reads_wild
unfolding FoundIn
ffb-overrun bitmap count short full = by_end (ffb bitmap count) (ffb-FoundIn bitmap count)
  where
    end_is_free : is_taken bitmap (length bitmap * 8) ≡ false
    end_is_free =
        let frame : length bitmap * 8 / 8 ≡ length bitmap = omega arith in
        ap (λ n. bit_in (get_elem? bitmap n) (length bitmap * 8 % 8)) frame
        ∙ ap (λ o. bit_in o (length bitmap * 8 % 8)) (past_end bitmap)

    by_end : (o : Found) → FoundIn bitmap count 0 ((count + 7) / 8 * 8) o → o ≡ reads_wild
    by_end reads_wild h = refl
    by_end none_free h =
        let taken = h (length bitmap * 8) (omega arith) (omega arith) short in
        absurd (ground (arith, end_is_free))
    by_end (found index) (low, up, small, inside, free, h) =
        let taken = full index inside in absurd (ground arith)

-- A pool of more than eight blocks whose map has the size that `onion_block_init` gives it, a byte for
-- each 64 blocks, reads behind the map in the first allocation after the blocks of the map are all
-- taken, while others are free.
pub block_alloc-overrun :
    (p : Pool)
    → length p.bitmap ≡ (p.block_max + 63) / 64
    → 8 < p.block_max
    → 0 < p.block_free
    → ((j : ℕ) → j < length p.bitmap * 8 → is_taken p.bitmap j ≡ true)
    → block_alloc p ≡ wild
unfolding block_alloc take_block
block_alloc-overrun p size many some_free full =
    let not_full : (p.block_free == 0) ≡ false = ground arith in
    rw (not_full, ffb-overrun p.bitmap p.block_max (omega (arith, size)) full, block_alloc) refl
