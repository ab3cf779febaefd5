-- ===== src/Bitmask/Search.antt =====
-- What `onion_ffb` of src/onion/sup.c finds, with frames of a word.
use checks.Prelude.{
  ℕ, zero, suc, ◌+◌, ◌-◌, ◌*◌, ◌/◌, ◌%◌, ◌<◌, ◌≤◌, ◌≡◌, refl, sym, ap, ◌∙◌, inl, inr, Bool, true,
  false, not, ◌||◌, Bool-cases, Option, none, some, ltb, ◌==◌, if◌then◌else◌, subst, arith,
}
use checks.Bitmask.{Bitmask, bit_of, word_at, scan_bits, sought, scan_frames, ffb}
use checks.Bitmask.Words.{bit_of-inverted, ScannedFrom, scan_bits-ScannedFrom}

-- The bit at a position.
abbrev pub is_set : Bitmask → ℕ → Bool
is_set b pos = bit_of (pos % 64) (word_at b (pos / 64))

abbrev pub is_wanted : Bitmask → ℕ → ℕ → Bool
is_wanted b type pos = if type == 0 then not (is_set b pos) else is_set b pos

sought-wanted :
    (b : Bitmask) (type frame bit pos : ℕ)
    → bit < 64
    → pos ≡ frame * 64 + bit
    → bit_of bit (sought b type frame) ≡ is_wanted b type pos
sought-wanted b type frame bit pos lt e =
    let word : frame ≡ pos / 64 = omega arith in
    let place : bit ≡ pos % 64 = omega arith in
    let same : bit_of bit (word_at b frame) ≡ is_set b pos =
      ap (λ k. bit_of k (word_at b frame)) place ∙ ap (λ f. bit_of (pos % 64) (word_at b f)) word in
    elim (Bool-cases (type == 0)) [
      | inl zeros ↦ rw (zeros) (bit_of-inverted 64 bit (word_at b frame) lt ∙ ap not same)
      | inr ones ↦ rw (ones) same
    ]

-- What a search of the positions from `low` to below `high` says.
unfoldable pub Searched : Bitmask → ℕ → ℕ → ℕ → Option ℕ → Type 0
Searched b type low high none =
    (j : ℕ) → low ≤ j → j < high → j ≤ b.size → is_wanted b type j ≡ false
Searched b type low high (some pos) =
    (low ≤ pos)
    × (pos < high)
    × (pos ≤ b.size)
    × (is_wanted b type pos ≡ true)
    × ((j : ℕ) → low ≤ j → j < pos → is_wanted b type j ≡ false)

module _ (b : Bitmask) (type : ℕ) (whole : b.size_per_frame ≡ 64) where
  step-none :
      (rounds frame bit : ℕ)
      → scan_bits (64 - bit) bit (sought b type frame) ≡ none
      → scan_frames b type (suc rounds) frame bit ≡ scan_frames b type rounds (suc frame) 0
  unfolding scan_frames
  step-none rounds frame bit e =
      rw (ap (λ n. scan_bits (n - bit) bit (sought b type frame)) whole ∙ e, scan_frames) refl

  step-some :
      (rounds frame bit found : ℕ)
      → scan_bits (64 - bit) bit (sought b type frame) ≡ some found
      → scan_frames b type (suc rounds) frame bit
        ≡ (if ltb b.size (frame * 64 + found) then none else some (frame * 64 + found))
  unfolding scan_frames
  step-some rounds frame bit found e =
      rw (ap (λ n. scan_bits (n - bit) bit (sought b type frame)) whole ∙ e, scan_frames)
        (ap (λ n. if ltb b.size (frame * n + found) then none else some (frame * n + found)) whole)

  -- A bit of the frame is one of the positions.
  unwanted :
      (frame bit j : ℕ)
      → frame * 64 ≤ j
      → j < frame * 64 + 64
      → bit_of (j - frame * 64) (sought b type frame) ≡ false
      → is_wanted b type j ≡ false
  unwanted frame bit j le lt h =
      sym (sought-wanted b type frame (j - frame * 64) j (omega arith) (omega arith)) ∙ h

  -- A frame without a wanted bit leaves the search to the frames behind it.
  go_on :
      (rounds frame bit : ℕ) (o : Option ℕ)
      → ((j : ℕ) → bit ≤ j → j < bit + (64 - bit) → bit_of j (sought b type frame) ≡ false)
      → bit < 64
      → Searched b type (suc frame * 64 + 0) ((suc frame + rounds) * 64) o
      → Searched b type (frame * 64 + bit) ((frame + suc rounds) * 64) o
  unfolding Searched
  go_on rounds frame bit none nil lt h = λ j le up small.
      elim (Bool-cases (ltb j (suc frame * 64))) [
        | inl inside ↦
            unwanted frame bit j (omega arith) (ground arith)
              (nil (j - frame * 64) (omega arith) (ground arith))
        | inr later ↦ h j (ground arith) (omega arith) small
      ]
  go_on rounds frame bit (some pos) nil lt (le, up, small, one, h) = (
    omega arith,
    omega arith,
    small,
    one,
    λ j le' lt'. elim (Bool-cases (ltb j (suc frame * 64))) [
      | inl inside ↦
          unwanted frame bit j (omega arith) (ground arith)
            (nil (j - frame * 64) (omega arith) (ground arith))
      | inr later ↦ h j (ground arith) lt'
    ],
  )

  -- A wanted bit of the frame ends the search.
  found_here :
      (rounds frame bit found : ℕ)
      → ScannedFrom (64 - bit) bit (sought b type frame) (some found)
      → bit < 64
      → let pos = frame * 64 + found in
        Searched b type
          (frame * 64 + bit)
          ((frame + suc rounds) * 64)
          (if ltb b.size pos then none else some pos)
  unfolding Searched ScannedFrom
  found_here rounds frame bit found (le, up, one, h) lt =
      elim (Bool-cases (ltb b.size (frame * 64 + found))) [
        | inl over ↦ rw over (λ j le' up' small.
            unwanted frame bit j (omega arith) (ground arith)
              (h (j - frame * 64) (omega arith) (ground arith)))
        | inr fine ↦ rw fine (
          omega arith,
          omega arith,
          ground arith,
          sym (sought-wanted b type frame found (frame * 64 + found) (omega arith) refl) ∙ one,
          λ j le' lt'.
              unwanted frame bit j (omega arith) (omega arith)
                (h (j - frame * 64) (omega arith) (omega arith)),
        )
      ]

  by_word :
      (rounds frame bit : ℕ) (o : Option ℕ)
      → bit < 64
      → scan_bits (64 - bit) bit (sought b type frame) ≡ o
      → ScannedFrom (64 - bit) bit (sought b type frame) o
      → Searched b type
          (suc frame * 64 + 0)
          ((suc frame + rounds) * 64)
          (scan_frames b type rounds (suc frame) 0)
      → Searched b type
          (frame * 64 + bit)
          ((frame + suc rounds) * 64)
          (scan_frames b type (suc rounds) frame bit)
  unfolding ScannedFrom
  by_word rounds frame bit none lt e h ih =
      subst (λ o. Searched b type (frame * 64 + bit) ((frame + suc rounds) * 64) o)
        (sym (step-none rounds frame bit e))
        (go_on rounds frame bit (scan_frames b type rounds (suc frame) 0) h lt ih)
  by_word rounds frame bit (some found) lt e h ih =
      subst (λ o. Searched b type (frame * 64 + bit) ((frame + suc rounds) * 64) o)
        (sym (step-some rounds frame bit found e)) (found_here rounds frame bit found h lt)

  scan_frames-Searched :
      (rounds frame bit : ℕ)
      → bit < 64
      → Searched b type
          (frame * 64 + bit)
          ((frame + rounds) * 64)
          (scan_frames b type rounds frame bit)
  unfolding Searched scan_frames
  scan_frames-Searched zero frame bit lt = λ j le up. absurd (omega arith)
  scan_frames-Searched (suc rounds) frame bit lt =
      by_word rounds frame bit _ lt refl
        (scan_bits-ScannedFrom (64 - bit) bit (sought b type frame))
        (scan_frames-Searched rounds (suc frame) 0 (omega arith))

-- The search of a mask whose frames are words, from an offset on, finds the first bit of the wanted
-- kind at or behind the offset, and none only if there is none up to the size - among the positions of
-- the frames that it counts, of which there is one for each 64 words. A position is found up to the size
-- itself. Condition: the wanted kind is 0 or 1, and the offset is in those frames.
pub ffb-Searched :
    (b : Bitmask) (offset type : ℕ)
    → b.size_per_frame ≡ 64
    → type ≤ 1
    → offset ≤ (b.conv_size + 63) / 64 * 64
    → Searched b type offset ((b.conv_size + 63) / 64 * 64) (ffb b offset type)
unfolding ffb
ffb-Searched b offset type whole kind inside =
    subst (λ o. Searched b type offset ((b.conv_size + 63) / 64 * 64) o) (sym run)
      (ends_at (scan_frames b type rounds frame bit)
        (scan_frames-Searched b type whole rounds frame bit (omega arith)))
  where
    frame : ℕ
    frame = offset / 64

    bit : ℕ
    bit = offset % 64

    rounds : ℕ
    rounds = (b.conv_size + 63) / 64 - offset / 64

    known : ((type == 1) || (type == 0)) ≡ true
    known = ground arith

    run : ffb b offset type ≡ scan_frames b type rounds frame bit
    run =
        rw (known, ffb)
          (ap
            (λ n.
              scan_frames b type ((b.conv_size + (n - 1)) / n - offset / n) (offset / n)
                (offset % n))
            whole)

    ends_at :
        (o : Option ℕ)
        → Searched b type (frame * 64 + bit) ((frame + rounds) * 64) o
        → Searched b type offset ((b.conv_size + 63) / 64 * 64) o
    ends_at o h =
        let low : frame * 64 + bit ≡ offset = omega arith in
        let high : (frame + rounds) * 64 ≡ (b.conv_size + 63) / 64 * 64 = omega arith in
        subst (λ n. Searched b type offset n o) high
          (subst (λ n. Searched b type n ((frame + rounds) * 64) o) low h)
