-- ===== src/UtilSlab/Release.antt =====
-- Blocks that `onion_slab_malloc` of src/utils/src/slab.c gives and `onion_slab_free` takes back.
use native.Mathlib.Nat.{mul-div_cancel, le-div_iff_mul-le, mul-le-mul_right, lt-div-mul-add}
use checks.Prelude.{
  ℕ, zero, suc, ◌+◌, ◌-◌, ◌*◌, ◌/◌, ◌%◌, ◌^◌, ◌<◌, ◌≤◌, ◌≡◌, refl, sym, ap, ap₂, ◌∙◌, inl, inr,
  true, false, Bool-cases, Option, none, some, leb, ltb, ◌==◌, ◌||◌, if◌then◌else◌, arith,
}
use checks.UtilSlab.{
  OnionSlab, Search, start_at, not_found, open_shift, find_consecutive_free_bits, write_block,
  write_loop, write_blocks, clear_bits, block_address, in_pool, copy_bytes, slab_del, zero_bytes,
  pointer, give, slab_malloc, index_of, slab_free, blocks_for,
}
use checks.UtilSlab.Find.{FreeRun, FirstFit, find_consecutive_free_bits-FirstFit}
use checks.UtilSlab.Bits.{is_busy, in_run, clear_bits-is_busy, Written, write_loop-Written}

-- An allocator with at least the 31 blocks that the search can reach.
pub record IsPool (a : OnionSlab) : Type 0 where
  pub words : 0 < a.bitmask_size
  pub enough_blocks : 31 ≤ a.block_capacity
  pub some_bytes : 0 < a.block_size
  pub counted : a.block_used ≤ a.block_capacity
  pub capacity_small : a.block_capacity < 2 ^ 63
  pub memory_small : a.memory_allocated < 2 ^ 64

-- What is as before.
pub record Restored (a c : OnionSlab) : Type 0 where
  pub bits : (i : ℕ) → is_busy c.bitmask i ≡ is_busy a.bitmask i
  pub block_used : c.block_used ≡ a.block_used
  pub memory_allocated : c.memory_allocated ≡ a.memory_allocated

-- The first block holds the number of blocks.
first_block :
    (a : OnionSlab) (start rounds size needed : ℕ)
    → 0 < rounds
    → (((write_loop a start 0 rounds size needed true).blocks start).is_start ≡ true)
      × (((write_loop a start 0 rounds size needed true).blocks start).allocation_size ≡ needed)
unfolding write_loop
first_block a start zero size needed some_rounds = absurd (omega arith)
first_block a start (suc rounds) size needed some_rounds =
    let one = write_block a start 0 size needed true in
    let w = write_loop-Written rounds one start 1 (size - a.block_size) needed in
    let e = w.earlier start (omega arith) in
    let here : (start == start + 0) ≡ true = ground arith in
    (ap (λ b. b.is_start) e ∙ rw here refl, ap (λ b. b.allocation_size) e ∙ rw here refl)

-- A free that goes through, and a deletion that does.
slab_free-slab_del :
    (g : OnionSlab) (ptr start count : ℕ)
    → index_of g ptr ≡ start
    → start < g.block_capacity
    → (g.blocks start).is_start ≡ true
    → (g.blocks start).allocation_size ≡ count
    → slab_free g ptr ≡ slab_del g start (start + count)
unfolding slab_free
slab_free-slab_del g ptr start count at inside first held =
    let within : leb g.block_capacity start ≡ false = ground arith in
    rw (at, within, first, held) refl

abbrev deleted : OnionSlab → ℕ → ℕ → OnionSlab
deleted g start count = record g {
  bitmask = clear_bits g.bitmask start count;
  bytes = zero_bytes (block_address g start) (count * g.block_size) g.bytes;
  block_used = g.block_used - count;
  memory_allocated = (g.memory_allocated + 2 ^ 64 - count) % 2 ^ 64;
}

slab_del-deleted :
    (g : OnionSlab) (start count : ℕ)
    → 0 < count
    → start + count ≤ g.block_capacity
    → count ≤ g.block_used
    → in_pool g (block_address g start) (count * g.block_size) ≡ true
    → slab_del g start (start + count) ≡ some (deleted g start count)
unfolding slab_del
slab_del-deleted g start count some_blocks inside used reached =
    let taken : start + count - start ≡ count = omega arith in
    let valid : (leb (start + count) start || ltb g.block_capacity (start + count)) ≡ false =
      ground arith in
    let few : ltb g.block_used count ≡ false = ground arith in rw (valid, taken, few, reached) refl

module _ (a : OnionSlab) (source : Option ℕ) (start size needed : ℕ) (p : IsPool a)
    (some_blocks : 0 < needed) (inside : start + needed ≤ 31)
    (large : 248 * a.block_size ≤ a.pool_size) (fits : size ≤ needed * a.block_size)
    (room : needed + a.block_used ≤ a.block_capacity)
    (run : FreeRun (a.bitmask 0) needed start) where
  abbrev looped : OnionSlab
  looped = write_loop a start 0 needed size needed true

  abbrev counted : OnionSlab
  counted = record looped { memory_allocated = (looped.memory_allocated + needed) % 2 ^ 64 }

  -- With the bytes of the source, if there is one.
  abbrev written : OnionSlab
  written = record counted {
    bytes = elim source [
      | none ↦ looped.bytes
      | some from ↦ copy_bytes (block_address a start) from size looped.bytes
    ];
  }

  abbrev given : OnionSlab
  given = record written { block_used = (written.block_used + needed) % 2 ^ 64 }

  -- The run lies in the pool.
  room_there : 8 * (start * a.block_size) + needed * a.block_size ≤ a.pool_size
  room_there =
      omega (
        arith,
        large,
        mul-le-mul_right {m = 8 * start + needed} {n = 248} a.block_size (omega arith),
      )

  written-some : write_blocks a start source size needed true ≡ some written
  unfolding write_blocks
  written-some =
      let reached : in_pool a (block_address a start) size ≡ true =
        ground (arith, room_there, fits) in
      by_source source reached
    where
      by_source :
          (o : Option ℕ)
          → in_pool a (block_address a start) size ≡ true
          → write_blocks a start o size needed true
            ≡ some (record counted {
              bytes = elim o [
                | none ↦ looped.bytes
                | some from ↦ copy_bytes (block_address a start) from size looped.bytes
              ];
            })
      by_source none reached = refl
      by_source (some from) reached = rw reached refl

  w : Written a looped start 0 needed
  w = write_loop-Written needed a start 0 size needed

  zero_on : start + 0 ≡ start
  zero_on = omega arith

  given-used : given.block_used ≡ a.block_used + needed
  given-used = omega (arith, w.block_used, p.capacity_small)

  given-memory : given.memory_allocated ≡ (a.memory_allocated + needed) % 2 ^ 64
  given-memory = ap (λ m. (m + needed) % 2 ^ 64) w.memory_allocated

  given-bits :
      (i : ℕ)
      → is_busy given.bitmask i ≡ (if in_run start needed i then true else is_busy a.bitmask i)
  given-bits i =
      w.bits i ∙ ap (λ n. if in_run n needed i then true else is_busy a.bitmask i) zero_on

  given-capacity : given.block_capacity ≡ a.block_capacity
  given-capacity = w.block_capacity

  given-first :
      ((given.blocks start).is_start ≡ true) × ((given.blocks start).allocation_size ≡ needed)
  given-first = first_block a start needed size needed some_blocks

  found_again : index_of given (block_address a start) ≡ start
  found_again =
      let offset : (a.pool + 8 * (start * a.block_size) - looped.pool) / 8 ≡ start * a.block_size =
        omega (arith, w.pool) in
      ap₂ (λ n size. n / size) offset w.block_size ∙ mul-div_cancel start p.some_bytes

  was_free : (i : ℕ) → in_run start needed i ≡ true → is_busy a.bitmask i ≡ false
  was_free i h =
      let bit : i % 64 ≡ i = ground (arith, h) in
      let word : i / 64 ≡ 0 = ground (arith, h) in
      rw (bit, word) (run i (ground (arith, h)) (ground (arith, h)))

  given-in_pool : in_pool given (block_address given start) (needed * given.block_size) ≡ true
  given-in_pool =
      let e : in_pool given (block_address given start) (needed * given.block_size)
          ≡ leb (a.pool + 8 * (start * a.block_size) + needed * a.block_size)
              (a.pool + a.pool_size) =
        rw (w.pool, w.block_size, w.pool_size) refl in
      e ∙ ground (arith, room_there)

  freed : slab_free given (block_address a start) ≡ some (deleted given start needed)
  freed =
      slab_free-slab_del given (block_address a start) start needed found_again
        (omega (arith, given-capacity, p.enough_blocks)) given-first.0 given-first.1
      ∙ slab_del-deleted given start needed some_blocks
          (omega (arith, given-capacity, p.enough_blocks)) (omega (arith, given-used)) given-in_pool

  freed-Restored : Restored a (deleted given start needed)
  freed-Restored = record {
    bits = λ i.
        clear_bits-is_busy given.bitmask start needed i
        ∙ elim (Bool-cases (in_run start needed i)) [
          | inl within ↦ rw within (sym (was_free i within))
          | inr outside ↦
              rw outside (given-bits i ∙ ap (λ v. if v then true else is_busy a.bitmask i) outside)
        ];
    block_used = omega (arith, given-used);
    memory_allocated = omega (arith, given-memory, p.memory_small, p.counted, p.capacity_small);
  }

some_needed :
    (a : OnionSlab) (size : ℕ)
    → 0 < a.block_size
    → 0 < size
    → size + a.block_size < 2 ^ 64
    → 0 < blocks_for a size
some_needed a size some_bytes some_size small =
    let whole : (size + a.block_size - 1) % 2 ^ 64 ≡ size + a.block_size - 1 = omega arith in
    let one =
      (le-div_iff_mul-le {k = a.block_size} {x = 1} {y = (size + a.block_size - 1) % 2 ^ 64}
          some_bytes).1
        (omega (arith, whole)) in
    omega (arith, one)

needed_fits :
    (a : OnionSlab) (size : ℕ)
    → 0 < a.block_size
    → size + a.block_size < 2 ^ 64
    → size ≤ blocks_for a size * a.block_size
needed_fits a size some_bytes small =
    let whole : (size + a.block_size - 1) % 2 ^ 64 ≡ size + a.block_size - 1 = omega arith in
    let rounded =
      lt-div-mul-add {a = (size + a.block_size - 1) % 2 ^ 64} {b = a.block_size} some_bytes in
    omega (arith, rounded, whole)

-- What an answer of the search that is a first fit comes to.
module _ (a : OnionSlab) (source : Option ℕ) (size q : ℕ) (p : IsPool a)
    (some_blocks : 0 < blocks_for a size)
    (room : blocks_for a size + a.block_used ≤ a.block_capacity)
    (large : 248 * a.block_size ≤ a.pool_size) (fits : size ≤ blocks_for a size * a.block_size)
    (inside : q + blocks_for a size ≤ 31) (run : FreeRun (a.bitmask 0) (blocks_for a size) q) where
  give-Restored :
      (r : Search)
      → FirstFit (a.bitmask 0) (blocks_for a size) r
      → (ptr : ℕ) × (b : OnionSlab) × (c : OnionSlab) × (give a source size r ≡ pointer ptr b)
        × (slab_free b ptr ≡ some c)
        × Restored a c
  unfolding give FirstFit
  give-Restored (start_at start) (low, free, first) = (
    block_address a start,
    given a source start size (blocks_for a size) p some_blocks low large fits room free,
    deleted (given a source start size (blocks_for a size) p some_blocks low large fits room free)
        start (blocks_for a size),
    rw
        (
          written-some a source start size (blocks_for a size) p some_blocks low large fits room
              free,
          give,
        )
        refl,
    freed a source start size (blocks_for a size) p some_blocks low large fits room free,
    freed-Restored a source start size (blocks_for a size) p some_blocks low large fits room free,
  )
  give-Restored not_found h = absurd h
  give-Restored open_shift h = absurd (h q inside run)

-- An allocation for which the first 31 blocks have a run of free ones gives a pointer, and the free of
-- that pointer undoes it: every bit of the bitmask and the counts of blocks are as before. Conditions: the
-- allocator has at least 31 blocks and has counted no more than it has, the size is positive and does
-- not overflow, the blocks that are not counted are enough, and the pool has the bytes of at least 248
-- blocks, so that the first 31, which are addressed eight times as far apart, lie in it.
pub slab_malloc-slab_free :
    (a : OnionSlab) (source : Option ℕ) (size q : ℕ)
    → IsPool a
    → 0 < size
    → size + a.block_size < 2 ^ 64
    → blocks_for a size + a.block_used ≤ a.block_capacity
    → q + blocks_for a size ≤ 31
    → FreeRun (a.bitmask 0) (blocks_for a size) q
    → 248 * a.block_size ≤ a.pool_size
    → (ptr : ℕ) × (b : OnionSlab) × (c : OnionSlab) × (slab_malloc a source size ≡ pointer ptr b)
      × (slab_free b ptr ≡ some c)
      × Restored a c
unfolding slab_malloc
slab_malloc-slab_free a source size q p some_size small room inside run large =
    let needed = some_needed a size p.some_bytes some_size small in
    let given_size : (size == 0) ≡ false = ground arith in
    let enough : ltb ((a.block_capacity + 2 ^ 64 - a.block_used) % 2 ^ 64) (blocks_for a size)
        ≡ false =
      (let left : (a.block_capacity + 2 ^ 64 - a.block_used) % 2 ^ 64
            ≡ a.block_capacity - a.block_used =
          omega (arith, p.counted, p.capacity_small) in
        ground (arith, left, room)) in
    rw (given_size, enough)
      (give-Restored a source size q p needed room large (needed_fits a size p.some_bytes small)
        inside run (find_consecutive_free_bits a.bitmask a.bitmask_size (blocks_for a size))
        (find_consecutive_free_bits-FirstFit a.bitmask a.bitmask_size (blocks_for a size) p.words
          needed))
