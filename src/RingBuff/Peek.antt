-- ===== src/RingBuff/Peek.antt =====
-- Where the first bytes that a ring buffer (src/onion/ringbuff.c) holds lie, and what is left when
-- the tail moves past them.
use checks.Prelude.{
  ℕ, ◌+◌, ◌-◌, ◌≤◌, ◌<◌, ◌≡◌, refl, sym, ap, ◌∙◌, inl, inr, true, false, ◌++◌, leb, if◌then◌else◌,
  Bool-cases, length, take, drop, take-append_le, take-append_add, drop-append_le, drop-append_add,
  arith,
}
use checks.Prelude.Memory.{window, length-window, drop-window, take-take}
use checks.RingBuff.{RingBuff, size}
use checks.RingBuff.Contents.{IsValid, contents, length-contents}

module _ (r : RingBuff) (v : IsValid r) where
  -- The first `k` bytes that are held, where they lie.
  pub take-contents :
      (k : ℕ)
      → k ≤ length (contents r)
      → take k (contents r) ≡ (
          if leb (r.tail + k) (size r)
          then window r.tail k r.block
          else window r.tail (size r - r.tail) r.block ++ window 0 (k - (size r - r.tail)) r.block)
  take-contents k le =
      let held = length-contents r v in
      elim (Bool-cases (leb r.tail r.head)) [
        | inl ahead ↦
            let fits : leb (r.tail + k) (size r) ≡ true = ground arith in
            rw (ahead, fits) (take-take k (r.head - r.tail) (drop r.tail r.block) (ground arith))
        | inr behind ↦
            let len = length-window r.tail (size r - r.tail) r.block (ground arith) in
            elim (Bool-cases (leb (r.tail + k) (size r))) [
              | inl fits ↦
                  rw (behind, fits)
                    (take-append_le k (window r.tail (size r - r.tail) r.block) _ (ground arith)
                      ∙ take-take k (size r - r.tail) (drop r.tail r.block) (ground arith))
              | inr round ↦
                  rw (behind, round)
                    (take-append_add k (k - (size r - r.tail))
                        (window r.tail (size r - r.tail) r.block) _ (ground arith)
                      ∙ ap (λ z. window r.tail (size r - r.tail) r.block ++ z)
                          (take-take (k - (size r - r.tail)) r.head r.block (ground arith)))
            ]
      ]

  -- The tail moves on, not past the end.
  pub drop-contents :
      (k : ℕ)
      → k ≤ length (contents r)
      → r.tail + k ≤ size r
      → let r' = record r { tail = r.tail + k } in IsValid r' × (contents r' ≡ drop k (contents r))
  drop-contents k le fits =
      let held = length-contents r v in
      elim (Bool-cases (leb r.tail r.head)) [
        | inl ahead ↦
            let ahead' : leb (r.tail + k) r.head ≡ true = ground arith in
            rw (ahead, ahead')
              (
                ground arith,
                sym (
                    drop-window r.tail (r.head - r.tail) k _ (r.tail + k) r.block (ground arith)
                      refl),
              )
        | inr behind ↦
            let behind' : leb (r.tail + k) r.head ≡ false = ground arith in
            let len = length-window r.tail (size r - r.tail) r.block (ground arith) in
            rw (behind, behind')
              (
                ground arith,
                ap (λ z. z ++ window 0 r.head r.block)
                      (sym (
                        drop-window r.tail (size r - r.tail) k _ (r.tail + k) r.block (ground arith)
                          refl))
                    ∙ sym (
                        drop-append_le k (window r.tail (size r - r.tail) r.block) _
                          (ground arith)),
              )
      ]

  -- The tail goes round to offset `s`.
  pub drop-contents_round :
      (s : ℕ)
      → r.head < r.tail
      → s ≤ r.head
      → let r' = record r { tail = s } in
        IsValid r' × (contents r' ≡ drop (size r - r.tail + s) (contents r))
  drop-contents_round s lt le =
      let behind : leb r.tail r.head ≡ false = ground arith in
      let ahead : leb s r.head ≡ true = ground arith in
      let len = length-window r.tail (size r - r.tail) r.block (ground arith) in
      rw (behind, ahead)
        (
          ground arith,
          sym (
              drop-append_add _ s (window r.tail (size r - r.tail) r.block) _ (omega arith)
              ∙ drop-window 0 r.head s (r.head - s) s r.block (omega arith) (omega arith)),
        )
