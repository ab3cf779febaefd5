-- ===== src/Pool/Release.antt =====
-- A block that `onion_block_alloc` of src/onion/pool.c gives and `onion_block_free` takes back.
use native.Mathlib.Nat.{mul-div_cancel, mul-le-mul_right}
use checks.Prelude.{
  ℕ, ◌+◌, ◌-◌, ◌*◌, ◌/◌, ◌%◌, ◌^◌, ◌<◌, ◌≤◌, ◌≡◌, refl, sym, ap, ◌∙◌, inl, inr, true, false,
  Bool-cases, none, some, leb, ◌==◌, if◌then◌else◌, length, arith,
}
use checks.Bitmask.{bitmask_add, bitmask_del}
use checks.Pool.{
  Found, found, none_free, reads_wild, ffb, clear_bit, Pool, Ended, block, released, wild,
  int_offset, take_block, block_alloc, block_free_at,
}
use checks.Pool.Map.{is_taken, FoundIn, ffb-FoundIn}
use checks.Pool.Marks.{set_bit-is_taken, clear_bit-is_taken}

-- What is as before.
pub record Restored (p p' : Pool) : Type 0 where
  pub marks : (q : ℕ) → is_taken p'.bitmap q ≡ is_taken p.bitmap q
  pub block_free : p'.block_free ≡ p.block_free
  pub block_count : p'.block_count ≡ p.block_count
  pub current_size : p'.current_size ≡ p.current_size

-- The counts fit into their types, and the offsets of all blocks into an `int`.
pub record Counts (p : Pool) : Type 0 where
  pub some_bytes : 0 < p.block_size
  pub some_free : 0 < p.block_free
  pub free_small : p.block_free < 2 ^ 64
  pub count_small : p.block_count < 2 ^ 64 - 1
  pub size_small : p.current_size < 2 ^ 64
  pub block_small : p.block_size < 2 ^ 64
  pub int_blocks : p.block_max * p.block_size < 2 ^ 31

module _ (p : Pool) (c : Counts p) (index : ℕ) (inside : index < p.block_max)
    (in_map : index < length p.bitmap * 8) (free : is_taken p.bitmap index ≡ false) where
  abbrev marked : Pool
  marked =
      let (bitmap', e, kept, bits) = set_bit-is_taken p.bitmap index in_map in
      record p {
        bitmask = (bitmask_add p.bitmask 1).1;
        bitmap = bitmap';
        block_free = p.block_free - 1;
        block_count = p.block_count + 1;
        current_size = (p.current_size + p.block_size) % 2 ^ 64;
      }

  marked-bits :
      (q : ℕ) → is_taken marked.bitmap q ≡ (if q == index then true else is_taken p.bitmap q)
  marked-bits = (set_bit-is_taken p.bitmap index in_map).3

  given :
      take_block (record p { bitmask = (bitmask_add p.bitmask 1).1 }) (found index)
      ≡ block (index * p.block_size) marked
  unfolding take_block
  given = rw ((set_bit-is_taken p.bitmap index in_map).1, take_block) refl

  still_in_map : index < length marked.bitmap * 8
  still_in_map = omega (arith, (set_bit-is_taken p.bitmap index in_map).2, in_map)

  abbrev cleared : Pool
  cleared =
      let (bitmap', e, bits) = clear_bit-is_taken marked.bitmap index still_in_map in
      record marked {
        bitmask = bitmask_del marked.bitmask index 1;
        bitmap = bitmap';
        block_free = (marked.block_free + 1) % 2 ^ 64;
        block_count = (marked.block_count + 2 ^ 64 - 1) % 2 ^ 64;
        current_size = (marked.current_size + 2 ^ 64 - marked.block_size) % 2 ^ 64;
      }

  taken_back : block_free_at marked (index * p.block_size) ≡ released cleared
  unfolding block_free_at
  taken_back =
      freed (int_offset (index * p.block_size) / p.block_size)
        (ap (λ o. o / p.block_size) whole_offset ∙ mul-div_cancel index c.some_bytes)
    where
      whole_offset : int_offset (index * p.block_size) ≡ index * p.block_size
      whole_offset =
          let before : index * p.block_size ≤ p.block_max * p.block_size =
            mul-le-mul_right p.block_size (omega arith) in
          ground (arith, before, c.int_blocks)

      at_block : ℕ → Ended
      at_block n = if leb p.block_max n then released marked else elim (clear_bit marked.bitmap n) [
        | none ↦ wild
        | some bitmap ↦ released (record marked {
          bitmask = bitmask_del marked.bitmask n 1;
          bitmap = bitmap;
          block_free = (marked.block_free + 1) % 2 ^ 64;
          block_count = (marked.block_count + 2 ^ 64 - 1) % 2 ^ 64;
          current_size = (marked.current_size + 2 ^ 64 - marked.block_size) % 2 ^ 64;
        })
      ]

      here : at_block index ≡ released cleared
      here =
          let within : leb p.block_max index ≡ false = ground arith in
          rw (within, (clear_bit-is_taken marked.bitmap index still_in_map).1, at_block) refl

      freed : (n : ℕ) → n ≡ index → at_block n ≡ released cleared
      freed n e = ap at_block e ∙ here

  cleared-Restored : Restored p cleared
  cleared-Restored = record {
    marks = λ q.
        (clear_bit-is_taken marked.bitmap index still_in_map).2 q ∙ elim (Bool-cases (q == index)) [
          | inl same ↦
              let e : index ≡ q = ground arith in
              rw same (sym (sym (ap (is_taken p.bitmap) e) ∙ free))
          | inr differs ↦
              rw differs (marked-bits q ∙ ap (λ b. if b then true else is_taken p.bitmap q) differs)
        ];
    block_free = omega (arith, c.some_free, c.free_small);
    block_count = omega (arith, c.count_small);
    current_size = omega (arith, c.size_small, c.block_small);
  }

-- A pool with a free block gives a block, and taking it back at once restores the marks of all blocks,
-- the counts and the size in use. Condition: the blocks lie in less than 2 ^ 31 bytes.
pub block_alloc-block_free_at :
    (p : Pool) (j : ℕ)
    → Counts p
    → j < p.block_max
    → j < length p.bitmap * 8
    → is_taken p.bitmap j ≡ false
    → (offset : ℕ) × (p' : Pool) × (p'' : Pool) × (block_alloc p ≡ block offset p')
      × (block_free_at p' offset ≡ released p'')
      × Restored p p''
unfolding block_alloc FoundIn
block_alloc-block_free_at p j c small inside free =
    let not_full : (p.block_free == 0) ≡ false = ground (arith, c.some_free) in
    rw (not_full, block_alloc)
      (by_found (ffb p.bitmap p.block_max) (ffb-FoundIn p.bitmap p.block_max))
  where
    by_found :
        (o : Found)
        → FoundIn p.bitmap p.block_max 0 ((p.block_max + 7) / 8 * 8) o
        → (offset : ℕ) × (p' : Pool) × (p'' : Pool) × (take_block
              (record p { bitmask = (bitmask_add p.bitmask 1).1 })
              o
            ≡ block offset p')
          × (block_free_at p' offset ≡ released p'')
          × Restored p p''
    by_found none_free h =
        let taken = h j (omega arith) (omega arith) small in absurd (ground arith)
    by_found reads_wild (past, h) =
        let taken = h j (omega arith) inside small in absurd (ground arith)
    by_found (found index) (low, up, below, in_map, clear, h) = (
      index * p.block_size,
      marked p c index below in_map clear,
      cleared p c index below in_map clear,
      given p c index below in_map clear,
      taken_back p c index below in_map clear,
      cleared-Restored p c index below in_map clear,
    )
