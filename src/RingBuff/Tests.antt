-- ===== src/RingBuff/Tests.antt =====
-- Runs of the ring buffer, and its theorems at concrete buffers.
use checks.Prelude.{ℕ, ◌≡◌, refl, false, some, List, [], ◌∷◌, ◌++◌, arith}
use checks.RingBuff.{
  RingBuff, bytes_free, written, got, fault, is_full, write_round, write_loop, write, dmemcpy,
  extract, init,
}
use checks.RingBuff.Contents.{IsValid, contents}
use checks.RingBuff.Write.{Holds, write-append, write-fill}
use checks.RingBuff.Message.{message}
use checks.RingBuff.Extract.{Ready, extract-round, extract-fault, extract-dmemcpy}

abbrev zeros : List ℕ
zeros = 0 ∷ 0 ∷ 0 ∷ 0 ∷ 0 ∷ 0 ∷ 0 ∷ 0 ∷ 0 ∷ 0 ∷ 0 ∷ 0 ∷ 0 ∷ []

-- Twelve bytes of room.
abbrev fresh : RingBuff
fresh = record { block = zeros; head = 0; tail = 0; capacity = 13; overflow = false }

-- A message of one byte, 7, at the start.
abbrev one_message : RingBuff
one_message = record {
  block = 1 ∷ 0 ∷ 0 ∷ 0 ∷ 7 ∷ 0 ∷ 0 ∷ 0 ∷ 0 ∷ 0 ∷ 0 ∷ 0 ∷ 0 ∷ [];
  head = 5;
  tail = 0;
  capacity = 13;
  overflow = false;
}

-- A message of three bytes from offset 6 on, which goes round, and the length of the next.
abbrev round_message : RingBuff
round_message = record {
  block = 9 ∷ 5 ∷ 0 ∷ 0 ∷ 0 ∷ 0 ∷ 3 ∷ 0 ∷ 0 ∷ 0 ∷ 7 ∷ 8 ∷ 0 ∷ [];
  head = 5;
  tail = 6;
  capacity = 13;
  overflow = false;
}

-- A message whose length goes round.
abbrev split_message : RingBuff
split_message = record {
  block = 0 ∷ 0 ∷ 7 ∷ 0 ∷ 0 ∷ 0 ∷ 0 ∷ 0 ∷ 0 ∷ 0 ∷ 1 ∷ 0 ∷ 0 ∷ [];
  head = 3;
  tail = 10;
  capacity = 13;
  overflow = false;
}

init_runs : init (some zeros) 12 false ≡ some fresh
unfolding init
init_runs = refl

dmemcpy_runs : dmemcpy fresh (7 ∷ []) ≡ written one_message
unfolding dmemcpy write is_full write_loop write_round
dmemcpy_runs = refl

fresh-IsValid : IsValid fresh
fresh-IsValid = omega arith

one_message-IsValid : IsValid one_message
one_message-IsValid = omega arith

one_message-Ready : Ready one_message 4 (7 ∷ []) []
one_message-Ready = record {
  valid = one_message-IsValid;
  begins = refl;
  some_bytes = omega arith;
  small = omega arith;
  fits = omega arith;
  int_room = omega arith;
}

round_message-Ready : Ready round_message 4 (7 ∷ 8 ∷ 9 ∷ []) (5 ∷ 0 ∷ 0 ∷ 0 ∷ [])
round_message-Ready = record {
  valid = omega arith;
  begins = refl;
  some_bytes = omega arith;
  small = omega arith;
  fits = omega arith;
  int_room = omega arith;
}

split_message-Ready : Ready split_message 4 (7 ∷ []) []
split_message-Ready = record {
  valid = omega arith;
  begins = refl;
  some_bytes = omega arith;
  small = omega arith;
  fits = omega arith;
  int_room = omega arith;
}

write-append_example : Holds one_message (message (7 ∷ []) ++ (4 ∷ [])) (write one_message (4 ∷ []))
write-append_example = write-append one_message (4 ∷ []) one_message-IsValid (omega arith)

abbrev twelve : List ℕ
twelve = 1 ∷ 2 ∷ 3 ∷ 4 ∷ 5 ∷ 6 ∷ 7 ∷ 8 ∷ 9 ∷ 10 ∷ 11 ∷ 12 ∷ []

write-fill_example : (12 ≡ bytes_free fresh) × Holds fresh [] (write fresh twelve)
write-fill_example = write-fill fresh twelve fresh-IsValid (omega arith) refl

extract-round_example :
    (r' : RingBuff) × (extract round_message 4 ≡ got (7 ∷ 8 ∷ 9 ∷ []) r')
    × IsValid r'
    × (contents r' ≡ [])
extract-round_example =
    extract-round round_message 4 (7 ∷ 8 ∷ 9 ∷ []) (5 ∷ 0 ∷ 0 ∷ 0 ∷ []) round_message-Ready
      (omega arith) (omega arith) (omega arith)

extract-fault_example : extract split_message 4 ≡ fault
extract-fault_example = extract-fault split_message 4 (7 ∷ []) [] split_message-Ready (omega arith)

extract-dmemcpy_example :
    (r₁ : RingBuff) × (r₂ : RingBuff) × (dmemcpy fresh (7 ∷ []) ≡ written r₁)
    × (extract r₁ 4 ≡ got (7 ∷ []) r₂)
    × (contents r₂ ≡ [])
extract-dmemcpy_example =
    extract-dmemcpy fresh 4 (7 ∷ []) fresh-IsValid refl (omega arith) (omega arith) (omega arith)
      (omega arith) (omega arith) (omega arith)
