-- ===== src/RingBuff/Write.antt =====
-- `onion_ringbuff_write` (src/onion/ringbuff.c): its loop ends, and what it leaves in the buffer.
use checks.Prelude.{
  ℕ, suc, ◌+◌, ◌-◌, min, ◌≤◌, ◌<◌, ◌≡◌, refl, sym, ap, ap₂, ◌∙◌, inl, inr, true, false, some, List,
  [], ◌∷◌, ◌++◌, append_assoc, ltb, leb, if◌then◌else◌, Bool-cases, length, take, drop, length-take,
  length-drop, take_all, take-append-drop, arith,
}
use checks.Prelude.Memory.{memcpy, window, length-memcpy, window-memcpy, drop-memcpy, memcpy-nil}
use checks.RingBuff.{
  RingBuff, size, bytes_free, write_round, write_loop, write_fuel, as_written, Written, written,
  write,
}
use checks.RingBuff.Contents.{IsValid, contents, length-contents, bytes_free-length}

-- The bytes that go to the end of the data, and those that go to its start.
abbrev pub first_part : RingBuff → List ℕ → List ℕ
first_part r bytes = take (size r - r.head) bytes

abbrev pub second_part : RingBuff → List ℕ → List ℕ
second_part r bytes = drop (size r - r.head) bytes

-- The buffer after a write, in one piece or in two.
pub after_write : RingBuff → List ℕ → RingBuff
after_write r bytes =
    if ltb (r.head + length bytes) (size r)
    then record r { block = memcpy r.block r.head bytes; head = r.head + length bytes }
    else record r {
      block = memcpy (memcpy r.block r.head (first_part r bytes)) 0 (second_part r bytes);
      head = r.head + length bytes - size r;
    }

write_loop-step :
    (fuel : ℕ) (r : RingBuff) (bytes : List ℕ)
    → 0 < length bytes
    → let throw = min (size r - r.head) (length bytes) in
      write_loop (suc fuel) r bytes ≡ write_loop fuel (write_round r bytes throw) (drop throw bytes)
unfolding write_loop
write_loop-step fuel r bytes h = ground arith

write_loop-stop :
    (fuel : ℕ) (r : RingBuff) (bytes : List ℕ)
    → length bytes ≡ 0
    → write_loop (suc fuel) r bytes ≡ some r
unfolding write_loop
write_loop-stop fuel r bytes h = ground arith

-- The last round, which copies all that is left.
write_loop-last :
    (fuel : ℕ) (r : RingBuff) (bytes : List ℕ)
    → 0 < length bytes
    → r.head + length bytes ≤ size r
    → write_loop (suc (suc fuel)) r bytes ≡ some (write_round r bytes (length bytes))
write_loop-last fuel r bytes some_left fits =
    let all : min (size r - r.head) (length bytes) ≡ length bytes = omega arith in
    write_loop-step (suc fuel) r bytes some_left
    ∙ ap (λ t. write_loop (suc fuel) (write_round r bytes t) (drop t bytes)) all
    ∙ write_loop-stop fuel _ (drop (length bytes) bytes)
        (omega (arith, length-drop (length bytes) bytes))

-- The round that reaches the end of the data.
write_round-end :
    (r : RingBuff) (bytes : List ℕ)
    → r.head < size r
    → write_round r bytes (size r - r.head)
      ≡ record r { block = memcpy r.block r.head (first_part r bytes); head = 0 }
unfolding write_round
write_round-end r bytes h = ground arith

nil_of_length : (bytes : List ℕ) → length bytes ≡ 0 → bytes ≡ []
nil_of_length [] e = refl
nil_of_length (c ∷ bytes) e = absurd (omega arith)

-- What is left for the start of the data, in one round or none.
write_loop-start :
    (r : RingBuff) (left : List ℕ)
    → r.head ≡ 0
    → length left < size r
    → write_loop 2 r left ≡ some (record r { block = memcpy r.block 0 left; head = length left })
unfolding write_round
write_loop-start r [] front fits =
    write_loop-stop 1 r [] refl ∙ ap some (ground (arith, memcpy-nil r.block 0))
write_loop-start r (c ∷ left) front fits =
    write_loop-last 0 r (c ∷ left) (omega arith) (omega arith)
    ∙ ap some (ground (arith, take_all (length left) left))

-- With the head inside, and no more bytes than the size, the loop ends within its fuel.
write_loop-after_write :
    (r : RingBuff) (bytes : List ℕ)
    → r.head < size r
    → length bytes ≤ size r
    → write_loop write_fuel r bytes ≡ some (after_write r bytes)
unfolding after_write write_round
write_loop-after_write r [] h fits =
    write_loop-stop 2 r [] refl ∙ ap some (ground (arith, memcpy-nil r.block r.head))
write_loop-after_write r (c ∷ bytes) h fits =
    elim (Bool-cases (ltb (r.head + suc (length bytes)) (size r))) [
      | inl one ↦
          write_loop-last 1 r (c ∷ bytes) (omega arith) (ground arith)
          ∙ ap some (ground (arith, take_all (length bytes) bytes))
      | inr two ↦
          let all = c ∷ bytes in
          let to_end : min (size r - r.head) (length all) ≡ size r - r.head = ground arith in
          let left : length (second_part r all) ≡ r.head + length all - size r =
            ground (arith, length-drop (size r - r.head) all) in
          write_loop-step 2 r all (omega arith)
          ∙ ap (λ t. write_loop 2 (write_round r all t) (drop t all)) to_end
          ∙ ap (λ r'. write_loop 2 r' (second_part r all)) (write_round-end r all h)
          ∙ write_loop-start _ (second_part r all) refl (omega arith)
          ∙ ap some (rw (two, left))
    ]

-- A write of at most the free bytes returns, with the buffer above.
pub write-after_write :
    (r : RingBuff) (bytes : List ℕ)
    → IsValid r
    → length bytes ≤ bytes_free r
    → write r bytes ≡ written (after_write r bytes)
unfolding write
write-after_write r bytes v fits =
    let ok : ltb (bytes_free r) (length bytes) ≡ false = ground arith in
    rw (ok, write)
      (ap as_written
        (write_loop-after_write r bytes v.head_in (ground (arith, bytes_free-length r v))))

-- The bytes behind the old ones, in one piece.
after_write-one :
    (r : RingBuff) (bytes : List ℕ)
    → IsValid r
    → length (contents r) + length bytes < size r
    → ltb (r.head + length bytes) (size r) ≡ true
    → IsValid (after_write r bytes) × (contents (after_write r bytes) ≡ contents r ++ bytes)
unfolding after_write
after_write-one r bytes v room one =
    let n = length bytes in
    let held = length-contents r v in
    elim (Bool-cases (leb r.tail r.head)) [
      | inl ahead ↦
          let ahead' : leb r.tail (r.head + n) ≡ true = ground arith in
          rw (one, ahead, ahead')
            (
              ground (arith, length-memcpy r.block r.head bytes),
              window-memcpy r.block bytes r.tail (r.head - r.tail) r.head _ (ground arith)
                  (ground arith) (ground arith),
            )
      | inr behind ↦
          let behind' : leb r.tail (r.head + n) ≡ false = ground arith in
          rw (one, behind, behind')
            (
              ground (arith, length-memcpy r.block r.head bytes),
              ap₂ ◌++◌
                    (ap (take (size r - r.tail))
                      (drop-memcpy r.block bytes r.tail r.head (ground arith)))
                    (window-memcpy r.block bytes 0 r.head r.head _ (omega arith) refl
                      (ground arith))
                  ∙ sym (append_assoc _ (window 0 r.head r.block) bytes),
            )
    ]

-- In two pieces.
after_write-two :
    (r : RingBuff) (bytes : List ℕ)
    → IsValid r
    → length (contents r) + length bytes < size r
    → ltb (r.head + length bytes) (size r) ≡ false
    → IsValid (after_write r bytes) × (contents (after_write r bytes) ≡ contents r ++ bytes)
unfolding after_write
after_write-two r bytes v room two =
    let n = length bytes in
    let held = length-contents r v in
    let xs = first_part r bytes in
    let ys = second_part r bytes in
    let block : List ℕ = memcpy r.block r.head xs in
    let ahead : leb r.tail r.head ≡ true = ground arith in
    let behind : leb r.tail (r.head + n - size r) ≡ false = ground arith in
    let first_len : length xs ≡ size r - r.head =
      ground (arith, length-take (size r - r.head) bytes) in
    let second_len : length ys ≡ r.head + n - size r =
      ground (arith, length-drop (size r - r.head) bytes) in
    let same = length-memcpy r.block r.head xs in
    rw (two, ahead, behind)
      (
        ground (arith, length-memcpy block 0 ys),
        ap₂ ◌++◌
              (ap (take (size r - r.tail)) (drop-memcpy block ys r.tail 0 (ground arith))
                ∙ window-memcpy r.block xs r.tail (r.head - r.tail) r.head _ (ground arith)
                    (ground arith) (ground arith))
              (window-memcpy block ys 0 0 0 _ (omega arith) (omega arith) (ground arith))
            ∙ append_assoc (window r.tail (r.head - r.tail) r.block) xs ys
            ∙ ap (λ z. window r.tail (r.head - r.tail) r.block ++ z)
                (take-append-drop (size r - r.head) bytes),
      )

after_write-append :
    (r : RingBuff) (bytes : List ℕ)
    → IsValid r
    → length (contents r) + length bytes < size r
    → IsValid (after_write r bytes) × (contents (after_write r bytes) ≡ contents r ++ bytes)
after_write-append r bytes v room = elim (Bool-cases (ltb (r.head + length bytes) (size r))) [
  | inl one ↦ after_write-one r bytes v room one
  | inr two ↦ after_write-two r bytes v room two
]

-- What a call that returns a buffer has done to `r`: the new one is valid and holds `held`, and the
-- tail and the capacity are as before.
abbrev pub Holds : RingBuff → List ℕ → Written → Type 0
Holds r held w =
    (r' : RingBuff) × (w ≡ written r')
    × IsValid r'
    × (contents r' ≡ held)
    × (r'.tail ≡ r.tail)
    × (size r' ≡ size r)

after_write-tail :
    (r : RingBuff) (bytes : List ℕ)
    → ((after_write r bytes).tail ≡ r.tail) × (size (after_write r bytes) ≡ size r)
unfolding after_write
after_write-tail r bytes = ground arith

-- A write to a valid buffer that leaves at least one byte of the size unused returns, keeps the
-- buffer valid and appends the bytes to those that it holds.
pub write-append :
    (r : RingBuff) (bytes : List ℕ)
    → IsValid r
    → length (contents r) + length bytes < size r
    → Holds r (contents r ++ bytes) (write r bytes)
write-append r bytes v room = (
  after_write r bytes,
  write-after_write r bytes v (ground (arith, bytes_free-length r v)),
  done.0,
  done.1,
  (after_write-tail r bytes).0,
  (after_write-tail r bytes).1,
)
  where
    done : IsValid (after_write r bytes) × (contents (after_write r bytes) ≡ contents r ++ bytes)
    done = after_write-append r bytes v room

after_write-fill :
    (r : RingBuff) (bytes : List ℕ)
    → IsValid r
    → r.tail ≤ r.head
    → length (contents r) + length bytes ≡ size r
    → IsValid (after_write r bytes) × (contents (after_write r bytes) ≡ [])
unfolding after_write
after_write-fill r bytes v ahead full =
    let held = length-contents r v in
    let two : ltb (r.head + length bytes) (size r) ≡ false = ground arith in
    let back : r.head + length bytes - size r ≡ r.tail = ground arith in
    let none_left : r.tail - r.tail ≡ 0 = omega arith in
    let same : leb r.tail r.tail ≡ true = ground arith in
    let block : List ℕ = memcpy r.block r.head (first_part r bytes) in
    rw (two, back, same)
      (
        ground (
          arith,
          length-memcpy block 0 (second_part r bytes),
          length-memcpy r.block r.head (first_part r bytes),
        ),
        ap (λ n. window r.tail n (memcpy block 0 (second_part r bytes))) none_left,
      )

-- A write that fills a buffer whose head is not behind its tail loses everything: it is accepted,
-- since just as many bytes are free, and leaves a valid buffer that holds nothing.
pub write-fill :
    (r : RingBuff) (bytes : List ℕ)
    → IsValid r
    → r.tail ≤ r.head
    → length (contents r) + length bytes ≡ size r
    → (length bytes ≡ bytes_free r) × Holds r [] (write r bytes)
write-fill r bytes v ahead full =
    let free : length bytes ≡ bytes_free r = ground (arith, bytes_free-length r v) in
    let kept = after_write-tail r bytes in
    let lost = after_write-fill r bytes v ahead full in
    (
      free,
      (
        after_write r bytes,
        write-after_write r bytes v (omega arith),
        lost.0,
        lost.1,
        kept.0,
        kept.1,
      ),
    )
