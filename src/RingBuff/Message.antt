-- ===== src/RingBuff/Message.antt =====
-- Messages in the ring buffer (src/onion/ringbuff.c): a length of four bytes and that many bytes.
use checks.Prelude.{
  ℕ, ◌+◌, ◌%◌, ◌^◌, ◌<◌, ◌≡◌, sym, ap, ◌∙◌, inl, inr, false, List, ◌++◌, append_assoc, ltb, leb,
  ◌==◌, Bool-cases, length, take, length-append, arith,
}
use checks.RingBuff.{RingBuff, size, bytes_free, bytes_busy, is_full, encode, decode, dmemcpy, read}
use checks.RingBuff.Contents.{IsValid, contents, bytes_free-length, bytes_busy-length}
use checks.RingBuff.Peek.{take-contents}
use checks.RingBuff.Write.{Holds, write-append}

-- A message as it lies in the buffer.
abbrev pub message : List ℕ → List ℕ
message bytes = encode (length bytes) ++ bytes

-- `onion_ringbuff_dmemcpy` of fewer than 2 ^ 32 bytes into a valid buffer appends the message where it leaves at
-- least one byte of the size unused, and returns NULL where the message does not fit the free bytes.
pub dmemcpy-append :
    (r : RingBuff) (bytes : List ℕ)
    → IsValid r
    → length bytes < 2 ^ 32
    → length (contents r) + length (message bytes) < size r
    → Holds r (contents r ++ message bytes) (dmemcpy r bytes)
unfolding dmemcpy is_full
dmemcpy-append r bytes v small room =
    let free = bytes_free-length r v in
    let header = encode (length bytes % 2 ^ 32) in
    let (r₁, w₁, v₁, c₁, t₁, s₁) = write-append r header v (omega arith) in
    let (r₂, w₂, v₂, c₂, t₂, s₂) =
      write-append r₁ bytes v₁ (omega (arith, ap length c₁, length-append (contents r) header)) in
    let fits : ltb (bytes_free r) (length bytes + 4) ≡ false = ground arith in
    let not_full : (bytes_free r == 0) ≡ false = ground arith in
    let same : length bytes % 2 ^ 32 ≡ length bytes = omega arith in
    (
      r₂,
      rw (not_full, fits, dmemcpy) (rw w₁ w₂),
      v₂,
      c₂
          ∙ ap (λ z. z ++ bytes) c₁
          ∙ append_assoc (contents r) header bytes
          ∙ ap (λ n. contents r ++ (encode n ++ bytes)) same,
      t₂ ∙ t₁,
      s₂ ∙ s₁,
    )

decode-encode : (n : ℕ) → n < 2 ^ 32 → decode (encode n) ≡ n
decode-encode n h = omega arith

-- `onion_ringbuff_read` of a buffer that begins with a message is its length.
pub read-message :
    (r : RingBuff) (bytes rest : List ℕ)
    → IsValid r
    → length bytes < 2 ^ 32
    → contents r ≡ message bytes ++ rest
    → read r ≡ length bytes
unfolding read
read-message r bytes rest v small e =
    let len = ap length e in
    let busy = bytes_busy-length r v in
    let enough : ltb (bytes_busy r) 4 ≡ false = ground arith in
    let first = take-contents r v 4 (omega arith) in
    let begins : take 4 (contents r) ≡ encode (length bytes) = ap (take 4) e in
    rw (enough, read)
      (elim (Bool-cases (leb (r.tail + 4) (size r))) [
        | inl fits ↦
            let here = rw fits at first in
            rw fits (ap decode (sym here ∙ begins) ∙ decode-encode (length bytes) small)
        | inr round ↦
            let here = rw round at first in
            rw round (ap decode (sym here ∙ begins) ∙ decode-encode (length bytes) small)
      ])
