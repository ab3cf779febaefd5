-- ===== src/RingBuff.antt =====
-- The ring buffer of length-prefixed messages, src/onion/ringbuff.c and ringbuff.h. `head` and
-- `tail` are the offsets of the two pointers from `data`, whose `capacity` bytes are `block`.
pub mod Contents
pub mod Write
pub mod Peek
pub mod Message
pub mod Extract
mod Tests
use checks.Prelude.{
  ℕ, zero, suc, ◌+◌, ◌-◌, ◌*◌, ◌/◌, ◌%◌, ◌^◌, min, Bool, true, false, ◌||◌, Option, none, some,
  List, [], ◌∷◌, ◌++◌, ltb, leb, ◌==◌, if◌then◌else◌, length, take, drop,
}
use checks.Prelude.Memory.{memcpy, window}

pub record RingBuff : Type 0 where
  pub block : List ℕ
  pub head : ℕ
  pub tail : ℕ
  pub capacity : ℕ
  pub overflow : Bool

-- `onion_ringbuff_size`; it is the offset of `onion_ringbuff_end` too. The source returns an `int`, which is
-- this number only where it is less than 2 ^ 31: `IsValid` of RingBuff/Contents asks for less than 2 ^ 30,
-- so that the sums of an offset and a size that the source keeps in an `int` are exact too.
abbrev pub size : RingBuff → ℕ
size r = r.capacity - 1

unfoldable pub bytes_busy : RingBuff → ℕ
bytes_busy r = (r.head + size r - r.tail) % size r

unfoldable pub bytes_free : RingBuff → ℕ
bytes_free r = if leb r.tail r.head then size r - (r.head - r.tail) else r.tail - r.head - 1

unfoldable pub is_empty : RingBuff → Bool
unfolding bytes_busy
is_empty r = bytes_busy r == 0

unfoldable pub is_full : RingBuff → Bool
unfolding bytes_free
is_full r = bytes_free r == 0

-- `onion_ringbuff_reset`.
unfoldable pub reset : RingBuff → RingBuff
reset r = record r { head = 0; tail = 0 }

-- `onion_ringbuff_init`, given what the `malloc` of the data returns; `none` is -1.
unfoldable pub init : Option (List ℕ) → ℕ → Bool → Option RingBuff
unfolding reset
init none capacity overflow = none
init (some block) capacity overflow = some (
    reset
      (record { block = block; head = 0; tail = 0; capacity = capacity + 1; overflow = overflow }))

-- One round of the loop of `onion_ringbuff_write`, with `throw` bytes to copy.
unfoldable pub write_round : RingBuff → List ℕ → ℕ → RingBuff
write_round r bytes throw = record r {
  block = memcpy r.block r.head (take throw bytes);
  head = if r.head + throw == size r then 0 else r.head + throw;
}

-- The loop: `bytes` are those not copied yet. `none` means that the fuel ran out.
unfoldable pub write_loop : ℕ → RingBuff → List ℕ → Option RingBuff
write_loop zero r bytes = none
write_loop (suc fuel) r bytes =
    let throw = min (size r - r.head) (length bytes) in
    let rest = write_loop fuel (write_round r bytes throw) (drop throw bytes) in
    if length bytes == 0 then some r else rest

-- What a write returns: NULL, the new head, or nothing where the loop does not end.
pub data Written : Type 0 where
  refused : Written
  written : RingBuff → Written
  endless : Written

-- Three rounds are enough: one to the end of the data, one from its start, and the last test.
abbrev pub write_fuel : ℕ
write_fuel = 3

abbrev pub as_written : Option RingBuff → Written
as_written none = endless
as_written (some r) = written r

-- `onion_ringbuff_write`.
unfoldable pub write : RingBuff → List ℕ → Written
write r bytes =
    if ltb (bytes_free r) (length bytes)
    then refused
    else as_written (write_loop write_fuel r bytes)

-- The four bytes of a `uint32_t`, as they lie in memory on a little-endian machine.
abbrev pub encode : ℕ → List ℕ
encode n = (n % 256) ∷ (n / 256 % 256) ∷ (n / 65536 % 256) ∷ (n / 16777216 % 256) ∷ []

abbrev pub decode : List ℕ → ℕ
decode (a ∷ b ∷ c ∷ d ∷ _) = a + b * 256 + c * 65536 + d * 16777216
decode _ = 0

abbrev pub then_write : Written → List ℕ → Written
then_write (written r) bytes = write r bytes
then_write refused bytes = refused
then_write endless bytes = endless

-- `onion_ringbuff_dmemcpy`.
unfoldable pub dmemcpy : RingBuff → List ℕ → Written
dmemcpy r bytes =
    if is_full r
    then refused
    else if ltb (bytes_free r) (length bytes + 4)
    then refused
    else then_write (write r (encode (length bytes % 2 ^ 32))) bytes

-- `onion_ringbuff_memcpy`; `onion_ringbuff_omemcpy` returns NULL.
unfoldable pub ring_memcpy : RingBuff → List ℕ → Written
ring_memcpy r bytes = if r.overflow then refused else dmemcpy r bytes

-- `onion_ringbuff_read`: the length of the next message, 0 if there is none.
unfoldable pub read : RingBuff → ℕ
read r =
    if ltb (bytes_busy r) 4
    then 0
    else if leb (r.tail + 4) (size r)
    then decode (window r.tail 4 r.block)
    else (let first_part = size r - r.tail in
        decode (window r.tail first_part r.block ++ window 0 (4 - first_part) r.block))

-- What an extraction returns: 0, or the copied bytes. `fault` is a `memcpy` of a negative length,
-- which C converts to a huge one.
pub data Extracted : Type 0 where
  nothing : Extracted
  got : List ℕ → RingBuff → Extracted
  fault : Extracted

-- The copy of `onion_ringbuff_extract`, with `n` bytes to read.
unfoldable pub extract_copy : RingBuff → ℕ → Extracted
extract_copy r n =
    let data_offset = r.tail + 4 in
    if leb (data_offset + n) (size r)
    then (let tail = r.tail + n + 4 in
        got (window data_offset n r.block)
          (record r { tail = if ltb (size r) tail then tail - size r else tail }))
    else if ltb (size r) data_offset
    then fault
    else (let first_part = size r - data_offset in
        let second_part = n - first_part in
        got (window data_offset first_part r.block ++ window 0 second_part r.block)
          (record r { tail = second_part + 4 }))

-- `(int)a < (int)b` of two unsigned numbers. An `int` is taken as its distance from the least one.
abbrev pub int_biased : ℕ → ℕ
int_biased a = (a % 2 ^ 32 + 2 ^ 31) % 2 ^ 32

abbrev pub int_ltb : ℕ → ℕ → Bool
int_ltb a b = ltb (int_biased a) (int_biased b)

-- `onion_ringbuff_extract` into `room` bytes, both compared as `int`. `int read` is negative from 2 ^ 31
-- on.
unfoldable pub extract : RingBuff → ℕ → Extracted
extract r room =
    if read r == 0
    then nothing
    else if int_ltb room (read r)
    then nothing
    else if leb (2 ^ 31) (read r)
    then fault
    else extract_copy r (read r)
