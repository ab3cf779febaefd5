-- ===== src/Bitmask.antt =====
-- `onion_bitmask` of src/onion/sup.c: bits in words of 64, searched frame by frame.
mod Tests
pub mod Words
pub mod Search
pub mod Marks
pub mod Claim
pub mod Run
use checks.Prelude.{
  ℕ, zero, suc, ◌+◌, ◌-◌, ◌*◌, ◌/◌, ◌%◌, ◌^◌, Bool, true, false, not, ◌||◌, Option, none, some,
  List, [], ◌∷◌, leb, ltb, ◌==◌, if◌then◌else◌, get_elem?, set, replicate,
}

-- Positions are an `int` in the source: masks are of less than 2 ^ 31 bits here.
pub record Bitmask : Type 0 where
  pub mask : List ℕ
  pub size : ℕ
  pub conv_size : ℕ
  pub size_per_frame : ℕ

-- `(word >> bit) & 1`.
unfoldable pub bit_of : ℕ → ℕ → Bool
bit_of zero word = word % 2 == 1
bit_of (suc bit) word = bit_of bit (word / 2)

-- `word | (1ULL << bit)`, bit by bit.
unfoldable pub with_bit : ℕ → ℕ → ℕ
with_bit zero word = word / 2 * 2 + 1
with_bit (suc bit) word = with_bit bit (word / 2) * 2 + word % 2

-- `word & ~(1ULL << bit)`.
unfoldable pub without_bit : ℕ → ℕ → ℕ
without_bit zero word = word / 2 * 2
without_bit (suc bit) word = without_bit bit (word / 2) * 2 + word % 2

-- `~word` in a width.
unfoldable pub inverted : ℕ → ℕ → ℕ
inverted zero word = 0
inverted (suc width) word = inverted width (word / 2) * 2 + (1 - word % 2)

-- A word of the mask; the callers stay inside.
abbrev pub word_at : Bitmask → ℕ → ℕ
word_at b frame = elim (get_elem? b.mask frame) [ none ↦ 0 | some word ↦ word ]

-- `onion_set_bit`.
unfoldable pub set_bit : Bitmask → ℕ → Bitmask
set_bit b offset = record b {
  mask = set b.mask (offset / 64) (with_bit (offset % 64) (word_at b (offset / 64)));
}

-- `onion_clear_bit`.
unfoldable pub clear_bit : Bitmask → ℕ → Bitmask
clear_bit b offset = record b {
  mask = set b.mask (offset / 64) (without_bit (offset % 64) (word_at b (offset / 64)));
}

-- The inner loop of `onion_ffb` from a bit on, with its rounds left.
unfoldable pub scan_bits : ℕ → ℕ → ℕ → Option ℕ
unfolding bit_of
scan_bits zero bit word = none
scan_bits (suc rounds) bit word =
    let rest = scan_bits rounds (suc bit) word in if bit_of bit word then some bit else rest

-- The word that is searched for ones: the frame, inverted where zeros are sought.
abbrev pub sought : Bitmask → ℕ → ℕ → ℕ
sought b type frame = if type == 0 then inverted 64 (word_at b frame) else word_at b frame

-- The outer loop from a frame and a bit of it on, with its rounds left. Only the first frame begins
-- behind bit 0.
unfoldable pub scan_frames : Bitmask → ℕ → ℕ → ℕ → ℕ → Option ℕ
scan_frames b type zero frame bit = none
scan_frames b type (suc rounds) frame bit =
    let rest = scan_frames b type rounds (suc frame) 0 in
    elim (scan_bits (b.size_per_frame - bit) bit (sought b type frame)) [
      | none ↦ rest
      | some found ↦
          let new_pos = frame * b.size_per_frame + found in
          if ltb b.size new_pos then none else some new_pos
    ]

-- The number of frames that are searched.
abbrev pub frame_count : Bitmask → ℕ
frame_count b = (b.conv_size + (b.size_per_frame - 1)) / b.size_per_frame

-- `onion_ffb`; `none` is -1.
unfoldable pub ffb : Bitmask → ℕ → ℕ → Option ℕ
ffb b offset type =
    if (type == 1) || (type == 0)
    then scan_frames b type (frame_count b - offset / b.size_per_frame) (offset / b.size_per_frame)
        (offset % b.size_per_frame)
    else none

-- How the loop of `onion_ffgb` ends.
pub data Grab : Type 0 where
  grabbed : ℕ → Grab
  no_grab : Grab
  out_of_fuel : Grab

-- The loop; `last` is `last_pos + 2`.
unfoldable pub grab_loop : Bitmask → ℕ → ℕ → ℕ → ℕ → ℕ → ℕ → Grab
grab_loop b grab type zero offset combo last = out_of_fuel
grab_loop b grab type (suc fuel) offset combo last = elim (ffb b offset type) [
  | none ↦ no_grab
  | some start_pos ↦
      let combo' = (if ltb last (start_pos + 1) then 0 else combo) + 1 in
      let rest = grab_loop b grab type fuel (start_pos + 1) combo' (start_pos + 2) in
      if leb grab combo' then grabbed (start_pos + 1 - grab) else rest
]

-- `onion_ffgb`. The fuel is two more than the size, since each round goes on behind a position that is
-- at most the size.
unfoldable pub ffgb : Bitmask → ℕ → ℕ → Grab
ffgb b grab type = grab_loop b grab type (b.size + 2) 0 0 0

-- `onion_find_bit` and `onion_find_grab_bit`.
abbrev pub find_bit : Bitmask → ℕ → Option ℕ
find_bit b type = ffb b 0 type

abbrev pub find_grab_bit : Bitmask → ℕ → ℕ → Grab
find_grab_bit b grab type = ffgb b grab type

-- The loops of `onion_bitmask_add` and `onion_bitmask_del`.
unfoldable pub set_bits : Bitmask → ℕ → ℕ → Bitmask
unfolding set_bit
set_bits b pos zero = b
set_bits b pos (suc count) = set_bits (set_bit b pos) (suc pos) count

unfoldable pub bitmask_del : Bitmask → ℕ → ℕ → Bitmask
unfolding clear_bit
bitmask_del b pos zero = b
bitmask_del b pos (suc count) = bitmask_del (clear_bit b pos) (suc pos) count

-- `onion_bitmask_add`; `none` is -1.
unfoldable pub bitmask_add : Bitmask → ℕ → Option ℕ × Bitmask
bitmask_add b count = elim (find_bit b 0) [
  | none ↦ (none, b)
  | some start_pos ↦ (some start_pos, set_bits b start_pos count)
]

-- `onion_bitmask_init`, where the two calls of `malloc` succeed or not; `none` is -1.
unfoldable pub bitmask_init : Bool → Bool → ℕ → ℕ → Option Bitmask
bitmask_init bitmask_ok mask_ok size size_per_frame =
    let words = (size + 63) % 2 ^ 64 / 64 in
    if ltb size 1 || ltb size_per_frame 1
    then none
    else if not bitmask_ok
    then none
    else if not mask_ok
    then none
    else some (record {
      mask = replicate words 0;
      size = size;
      conv_size = words;
      size_per_frame = (8 * size_per_frame) % 2 ^ 64;
    })
