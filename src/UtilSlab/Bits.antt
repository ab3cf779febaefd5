-- ===== src/UtilSlab/Bits.antt =====
-- The bits that src/utils/src/slab.c sets and clears.
use checks.Prelude.{
  ℕ, zero, suc, ◌+◌, ◌-◌, ◌/◌, ◌%◌, ◌<◌, ◌≡◌, ◌≢◌, refl, ap, ◌∙◌, inl, inr, Bool, true, false, ◌&&◌,
  Bool-cases, leb, ltb, ◌==◌, if◌then◌else◌, arith,
}
use checks.Bitmask.{bit_of, with_bit, without_bit}
use checks.Bitmask.Words.{with_bit-here, with_bit-other, without_bit-here, without_bit-other}
use checks.UtilSlab.{OnionSlab, set_bit64, clear_bit64, clear_bits, write_block, write_loop}

-- A bit of the bitmask.
abbrev pub is_busy : (ℕ → ℕ) → ℕ → Bool
is_busy bitmap i = bit_of (i % 64) (bitmap (i / 64))

-- A change of one bit of a word changes that bit of the bitmask.
module _ (bitmap : ℕ → ℕ) (offset : ℕ) (f : ℕ → ℕ) (v : Bool)
    (here : (word : ℕ) → bit_of (offset % 64) (f word) ≡ v)
    (others : (word other : ℕ)
      → offset % 64 ≢ other
      → bit_of other (f word) ≡ bit_of other word) where
  changed :
      (i : ℕ)
      → is_busy (λ w. if w == offset / 64 then f (bitmap w) else bitmap w) i
        ≡ (if i == offset then v else is_busy bitmap i)
  changed i = elim (Bool-cases (i / 64 == offset / 64)) [
    | inr other ↦ let differ : (i == offset) ≡ false = ground arith in rw (other, differ) refl
    | inl frame ↦ elim (Bool-cases (i == offset)) [
      | inl same ↦
          let e : i % 64 ≡ offset % 64 = ground arith in
          rw (frame, same, e) (here (bitmap (i / 64)))
      | inr differ ↦
          rw (frame, differ)
            (others (bitmap (i / 64)) (i % 64) (λ e. absurd (apart e frame differ)))
    ]
  ]
    where
      apart : offset % 64 ≡ i % 64 → (i / 64 == offset / 64) ≡ true → (i == offset) ≡ false → ⊥
      apart e frame differ =
          let q : i / 64 ≡ offset / 64 = ground arith in
          let same : i ≡ offset = omega arith in ground arith

pub set_bit64-is_busy :
    (bitmap : ℕ → ℕ) (offset i : ℕ)
    → is_busy (set_bit64 bitmap offset) i ≡ (if i == offset then true else is_busy bitmap i)
unfolding set_bit64
set_bit64-is_busy bitmap offset i =
    changed bitmap offset (with_bit (offset % 64)) true (with_bit-here (offset % 64))
      (λ word other ne. with_bit-other (offset % 64) other word ne) i

clear_bit64-is_busy :
    (bitmap : ℕ → ℕ) (offset i : ℕ)
    → is_busy (clear_bit64 bitmap offset) i ≡ (if i == offset then false else is_busy bitmap i)
unfolding clear_bit64
clear_bit64-is_busy bitmap offset i =
    changed bitmap offset (without_bit (offset % 64)) false (without_bit-here (offset % 64))
      (λ word other ne. without_bit-other (offset % 64) other word ne) i

-- A block of the run of `count` from `start` on.
abbrev pub in_run : ℕ → ℕ → ℕ → Bool
in_run start count i = leb start i && ltb i (start + count)

pub clear_bits-is_busy :
    (bitmap : ℕ → ℕ) (start count i : ℕ)
    → is_busy (clear_bits bitmap start count) i
      ≡ (if in_run start count i then false else is_busy bitmap i)
unfolding clear_bits
clear_bits-is_busy bitmap start zero i =
    let out : in_run start 0 i ≡ false = ground arith in rw out refl
clear_bits-is_busy bitmap start (suc count) i =
    clear_bits-is_busy (clear_bit64 bitmap start) (suc start) count i
    ∙ ap (λ v. if in_run (suc start) count i then false else v) (clear_bit64-is_busy bitmap start i)
    ∙ ground arith

-- What the loop that writes the blocks does.
pub record Written (a b : OnionSlab) (start index rounds : ℕ) : Type 0 where
  pub bits :
      (i : ℕ)
      → is_busy b.bitmask i
        ≡ (if in_run (start + index) rounds i then true else is_busy a.bitmask i)
  pub earlier : (i : ℕ) → i < start + index → b.blocks i ≡ a.blocks i
  pub block_used : b.block_used ≡ a.block_used
  pub block_size : b.block_size ≡ a.block_size
  pub block_capacity : b.block_capacity ≡ a.block_capacity
  pub memory_allocated : b.memory_allocated ≡ a.memory_allocated
  pub pool : b.pool ≡ a.pool
  pub pool_size : b.pool_size ≡ a.pool_size

pub write_loop-Written :
    (rounds : ℕ) (a : OnionSlab) (start index real_size needed : ℕ)
    → Written a (write_loop a start index rounds real_size needed true) start index rounds
unfolding write_loop
write_loop-Written zero a start index real_size needed = record {
  bits = λ i. let out : in_run (start + index) 0 i ≡ false = ground arith in rw out refl;
  earlier = λ i lt. refl;
  block_used = refl;
  block_size = refl;
  block_capacity = refl;
  memory_allocated = refl;
  pool = refl;
  pool_size = refl;
}
write_loop-Written (suc rounds) a start index real_size needed =
    let w =
      write_loop-Written rounds (write_block a start index real_size needed true) start (suc index)
        (real_size - a.block_size) needed in
    record {
      bits = λ i.
          w.bits i
          ∙ ap (λ v. if in_run (start + suc index) rounds i then true else v)
              (set_bit64-is_busy a.bitmask (start + index) i)
          ∙ ground arith;
      earlier = λ i lt.
          w.earlier i (omega arith)
          ∙ (let other : (i == start + index) ≡ false = ground arith in rw other refl);
      block_used = w.block_used;
      block_size = w.block_size;
      block_capacity = w.block_capacity;
      memory_allocated = w.memory_allocated;
      pool = w.pool;
      pool_size = w.pool_size;
    }
