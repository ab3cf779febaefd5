-- ===== src/Bitmask/Tests.antt =====
-- Runs of the bitmask, and its theorems at concrete inputs.
use checks.Prelude.{◌≡◌, refl, some, [], ◌∷◌, arith}
use checks.Bitmask.{
  Bitmask, grabbed, bit_of, with_bit, inverted, set_bit, scan_bits, scan_frames, ffb, grab_loop,
  ffgb, set_bits, bitmask_add, bitmask_del,
}
use checks.Bitmask.Search.{is_set}
use checks.Bitmask.Marks.{IsValid}
use checks.Bitmask.Claim.{Claimed, bitmask_add-Claimed, bitmask_del-bitmask_add}
use checks.Bitmask.Run.{IsRun, ffgb-IsRun}

-- Ten bits, of which 0 and 2 are set.
abbrev some_taken : Bitmask
some_taken = record { mask = 5 ∷ []; size = 10; conv_size = 1; size_per_frame = 64 }

-- Ten bits, all set.
abbrev all_taken : Bitmask
all_taken = record { mask = 1023 ∷ []; size = 10; conv_size = 1; size_per_frame = 64 }

-- With all bits below the size taken, the bit at the size is found.
finds_size : ffb all_taken 0 0 ≡ some 10
unfolding ffb scan_frames scan_bits bit_of inverted
finds_size = refl

finds_run : ffgb some_taken 3 0 ≡ grabbed 3
unfolding ffgb grab_loop ffb scan_frames scan_bits bit_of inverted
finds_run = refl

-- A run that is added is marked without a look at its bits behind the first.
adds_over : bitmask_add some_taken 2 ≡ (some 1, record some_taken { mask = 7 ∷ [] })
unfolding bitmask_add set_bits set_bit with_bit ffb scan_frames scan_bits bit_of inverted
adds_over = refl

takes_one : bitmask_add some_taken 1 ≡ (some 1, record some_taken { mask = 7 ∷ [] })
unfolding bitmask_add set_bits set_bit with_bit ffb scan_frames scan_bits bit_of inverted
takes_one = refl

some_taken-IsValid : IsValid some_taken
some_taken-IsValid = omega arith

bitmask_add-Claimed_example : Claimed some_taken (bitmask_add some_taken 1)
bitmask_add-Claimed_example = bitmask_add-Claimed some_taken some_taken-IsValid

bitmask_del-bitmask_add_example :
    is_set (bitmask_del (record some_taken { mask = 7 ∷ [] }) 1 1) 1 ≡ is_set some_taken 1
bitmask_del-bitmask_add_example =
    bitmask_del-bitmask_add some_taken (record some_taken { mask = 7 ∷ [] }) 1 1 some_taken-IsValid
      takes_one

ffgb-IsRun_example : IsRun some_taken 3 0 (ffgb some_taken 3 0)
ffgb-IsRun_example = ffgb-IsRun some_taken 3 0 some_taken-IsValid (omega arith) (omega arith)
