-- ===== src/RingBuff/Contents.antt =====
-- The bytes that a ring buffer (src/onion/ringbuff.c) holds, and how it counts them.
use checks.Prelude.{
  ℕ, ◌+◌, ◌-◌, ◌%◌, ◌^◌, ◌≤◌, ◌<◌, ◌≡◌, inl, inr, List, ◌++◌, leb, if◌then◌else◌, Bool-cases,
  length, length-append, arith,
}
use checks.Prelude.Memory.{window, length-window}
use native.Mathlib.Nat.{mod-eq_of_lt, mod-eq-sub-mod}
use checks.RingBuff.{RingBuff, size, bytes_busy, bytes_free}

-- `head` is brought back to 0 when it reaches the end; `tail` may stand there. The size and the offsets fit
-- an `int`, also when a size is added to an offset.
pub record IsValid (r : RingBuff) : Type 0 where
  pub room : 0 < size r
  pub allocated : length r.block ≡ r.capacity
  pub head_in : r.head < size r
  pub tail_in : r.tail ≤ size r
  pub int_size : r.capacity < 2 ^ 30

-- From the tail to the head, round the end where the head is behind.
abbrev pub contents : RingBuff → List ℕ
contents r =
    if leb r.tail r.head
    then window r.tail (r.head - r.tail) r.block
    else window r.tail (size r - r.tail) r.block ++ window 0 r.head r.block

pub length-contents :
    (r : RingBuff)
    → IsValid r
    → length (contents r)
      ≡ (if leb r.tail r.head then r.head - r.tail else size r - r.tail + r.head)
length-contents r v = elim (Bool-cases (leb r.tail r.head)) [
  | inl p ↦ rw p (length-window r.tail (r.head - r.tail) r.block (ground arith))
  | inr p ↦ rw p (
      omega (
        arith,
        length-append (window r.tail (size r - r.tail) r.block) (window 0 r.head r.block),
        length-window r.tail (size r - r.tail) r.block (ground arith),
        length-window 0 r.head r.block (omega arith),
      ))
]

-- How far the head is ahead of the tail, round the end.
distance :
    (head tail size : ℕ)
    → head < size
    → tail ≤ size
    → (head + size - tail) % size ≡ (if leb tail head then head - tail else size - tail + head)
distance head tail size h t = elim (Bool-cases (leb tail head)) [
  | inl p ↦
      let le : tail ≤ head = ground arith in
      rw p (
        omega (
          arith,
          mod-eq-sub-mod {n = head + size - tail} {m = size} (omega arith),
          mod-eq_of_lt {n = head + size - tail - size} {m = size} (omega arith),
        ))
  | inr p ↦
      let lt : head < tail = ground arith in
      rw p (omega (arith, mod-eq_of_lt {n = head + size - tail} {m = size} (omega arith)))
]

-- `onion_ringbuff_bytes_busy` of a valid buffer is the number of bytes that it holds.
pub bytes_busy-length : (r : RingBuff) → IsValid r → bytes_busy r ≡ length (contents r)
unfolding bytes_busy
bytes_busy-length r v = ground (arith, length-contents r v, distance r.head r.tail (size r))

-- The bytes that are held and the free ones make up the size, less one if the head is behind the
-- tail.
pub bytes_free-length :
    (r : RingBuff)
    → IsValid r
    → bytes_free r + length (contents r) ≡ (if leb r.tail r.head then size r else size r - 1)
unfolding bytes_free
bytes_free-length r v = ground (arith, length-contents r v)
