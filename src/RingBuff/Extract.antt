-- ===== src/RingBuff/Extract.antt =====
-- `onion_ringbuff_extract` (src/onion/ringbuff.c): right where the message lies in one piece, and
-- what it does where the message goes round the end.
use checks.Prelude.{
  ℕ, ◌+◌, ◌-◌, ◌^◌, ◌≤◌, ◌<◌, ◌≡◌, refl, sym, ap, ◌∙◌, true, false, List, [], ◌++◌, append-nil, ltb,
  leb, length, take, drop, length-append, take-append, drop-append, drop-append_add, drop-append_le,
  arith,
}
use checks.Prelude.Memory.{window, length-window, drop-window}
use checks.RingBuff.{RingBuff, size, got, fault, extract_copy, extract, written, dmemcpy}
use checks.RingBuff.Contents.{IsValid, contents, length-contents}
use checks.RingBuff.Peek.{take-contents, drop-contents, drop-contents_round}
use checks.RingBuff.Message.{message, read-message, dmemcpy-append}

-- The buffer begins with a message that fits the reader's room.
pub record Ready (r : RingBuff) (room : ℕ) (bytes rest : List ℕ) : Type 0 where
  pub valid : IsValid r
  pub begins : contents r ≡ message bytes ++ rest
  pub some_bytes : 0 < length bytes
  pub small : length bytes < 2 ^ 31
  pub fits : length bytes ≤ room
  pub int_room : room < 2 ^ 31

module _ (r : RingBuff) (room : ℕ) (bytes rest : List ℕ) (h : Ready r room bytes rest) where
  open h use {valid, begins, some_bytes, small, fits, int_room}

  extract-copy : extract r room ≡ extract_copy r (length bytes)
  unfolding extract
  extract-copy =
      let n = read-message r bytes rest valid (omega arith) begins in rw (n, extract) (ground arith)

  held : length (contents r) ≡ 4 + length bytes + length rest
  held = omega (arith, ap length begins, length-append bytes rest)

  taken : take (4 + length bytes) (contents r) ≡ message bytes
  taken =
      ap (take (4 + length bytes)) begins
      ∙ take-append (4 + length bytes) (message bytes) rest (omega arith)

  -- A message in one piece comes out, the buffer stays valid, and what follows the message is left.
  pub extract-message :
      r.tail + 4 + length bytes ≤ size r
      → (r' : RingBuff) × (extract r room ≡ got bytes r') × IsValid r' × (contents r' ≡ rest)
  unfolding extract_copy
  extract-message one =
      let n = length bytes in
      let fit : leb (r.tail + (4 + n)) (size r) ≡ true = ground arith in
      let fit' : leb (r.tail + 4 + n) (size r) ≡ true = ground arith in
      let inside : ltb (size r) (r.tail + n + 4) ≡ false = ground arith in
      let at : r.tail + n + 4 ≡ r.tail + (4 + n) = omega arith in
      let lies : window r.tail (4 + n) r.block ≡ message bytes =
        (rw fit at (sym (take-contents r valid (4 + n) (omega (arith, held))))) ∙ taken in
      let out : window (r.tail + 4) n r.block ≡ bytes =
        sym (drop-window r.tail (4 + n) 4 n (r.tail + 4) r.block refl refl) ∙ ap (drop 4) lies in
      let (v', c') = drop-contents r valid (4 + n) (omega (arith, held)) (omega arith) in
      (
        record r { tail = r.tail + (4 + n) },
        extract-copy ∙ rw (fit', inside, extract_copy) (rw (out, at)),
        v',
        c' ∙ ap (drop (4 + n)) begins ∙ drop-append (4 + n) (message bytes) rest (omega arith),
      )

  -- A message whose length lies before the end and whose bytes go round it comes out, but the tail
  -- ends up four bytes too far: the first four bytes of what follows are lost.
  pub extract-round :
      r.tail + 4 ≤ size r
      → size r < r.tail + 4 + length bytes
      → 4 ≤ length rest
      → (r' : RingBuff) × (extract r room ≡ got bytes r') × IsValid r' × (contents r' ≡ drop 4 rest)
  unfolding extract_copy
  extract-round before round more =
      let n = length bytes in
      let first = size r - (r.tail + 4) in
      let second = n - first in
      let fit : leb (r.tail + (4 + n)) (size r) ≡ false = ground arith in
      let fit' : leb (r.tail + 4 + n) (size r) ≡ false = ground arith in
      let inside : ltb (size r) (r.tail + 4) ≡ false = ground arith in
      let behind : r.head < r.tail = ground (arith, length-contents r valid, held) in
      let room_held : second + 4 ≤ r.head = ground (arith, length-contents r valid, held) in
      let start : size r - r.tail ≡ 4 + first = omega arith in
      let left : 4 + n - (size r - r.tail) ≡ second = omega arith in
      let lies : window r.tail (size r - r.tail) r.block
            ++ window 0 (4 + n - (size r - r.tail)) r.block
          ≡ message bytes =
        (rw fit at (sym (take-contents r valid (4 + n) (omega (arith, held))))) ∙ taken in
      let out : window (r.tail + 4) first r.block ++ window 0 second r.block ≡ bytes =
        ap (λ z. z ++ window 0 second r.block)
          (sym (drop-window r.tail (size r - r.tail) 4 first (r.tail + 4) r.block start refl))
        ∙ ap (λ k. drop 4 (window r.tail (size r - r.tail) r.block) ++ window 0 k r.block)
            (sym left)
        ∙ sym (
            drop-append_le 4 (window r.tail (size r - r.tail) r.block) _ (
              omega (
                arith,
                length-window r.tail (size r - r.tail) r.block
                    (omega (arith, valid.tail_in, valid.allocated)),
              )))
        ∙ ap (drop 4) lies in
      let (v', c') = drop-contents_round r valid (second + 4) behind room_held in
      (
        record r { tail = second + 4 },
        extract-copy ∙ rw (fit', inside, extract_copy) (rw out),
        v',
        c'
            ∙ ap (drop (size r - r.tail + (second + 4))) begins
            ∙ drop-append_add _ 4 (message bytes) rest (omega arith),
      )

  -- Where even the length goes round the end, a `memcpy` of a negative length follows.
  pub extract-fault : size r < r.tail + 4 → extract r room ≡ fault
  unfolding extract_copy
  extract-fault split = extract-copy ∙ ground arith

-- A message put into a buffer with nothing in it comes out again and leaves nothing, if the room
-- from the tail to the end of the data takes it. The reader's room is that of an `int`.
pub extract-dmemcpy :
    (r : RingBuff) (room : ℕ) (bytes : List ℕ)
    → IsValid r
    → contents r ≡ []
    → 0 < length bytes
    → length bytes < 2 ^ 31
    → length bytes ≤ room
    → room < 2 ^ 31
    → 4 + length bytes < size r
    → r.tail + 4 + length bytes ≤ size r
    → (r₁ : RingBuff) × (r₂ : RingBuff) × (dmemcpy r bytes ≡ written r₁)
      × (extract r₁ room ≡ got bytes r₂)
      × (contents r₂ ≡ [])
extract-dmemcpy r room bytes v none_held pos small fits int_room short one =
    let empty = ap length none_held in
    let (r₁, w, v₁, c₁, t₁, s₁) = dmemcpy-append r bytes v (omega arith) (omega arith) in
    let ready : Ready r₁ room bytes [] = record {
      valid = v₁;
      begins = c₁ ∙ ap (λ z. z ++ message bytes) none_held ∙ sym (append-nil (message bytes));
      some_bytes = pos;
      small = small;
      fits = fits;
      int_room = int_room;
    } in
    let (r₂, e, v₂, c₂) = extract-message r₁ room bytes [] ready (omega arith) in (r₁, r₂, w, e, c₂)
