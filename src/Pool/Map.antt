-- ===== src/Pool/Map.antt =====
-- What `ffb` of src/utils/include/utils.h finds in a map of bytes.
use checks.Prelude.{
  ℕ, zero, suc, ◌+◌, ◌-◌, ◌*◌, ◌/◌, ◌%◌, ◌<◌, ◌≤◌, ◌≡◌, refl, ap, ◌∙◌, inl, inr, Bool, true, false,
  Bool-cases, Option, none, some, Option-cases, List, [], ◌∷◌, leb, ltb, ◌==◌, if◌then◌else◌,
  get_elem?, length, subst, arith,
}
use checks.Bitmask.{bit_of}
use checks.Pool.{Found, found, none_free, reads_wild, scan_clear, ffb_loop, ffb}

-- The bit of a block; behind the map there is none.
abbrev pub bit_in : Option ℕ → ℕ → Bool
bit_in none bit = false
bit_in (some w) bit = bit_of bit w

abbrev pub is_taken : List ℕ → ℕ → Bool
is_taken bitmap index = bit_in (get_elem? bitmap (index / 8)) (index % 8)

-- What a scan of a byte says.
unfoldable ClearFrom : ℕ → ℕ → ℕ → Option ℕ → Type 0
ClearFrom rounds bit byte none = (j : ℕ) → bit ≤ j → j < bit + rounds → bit_of j byte ≡ true
ClearFrom rounds bit byte (some b) =
    (bit ≤ b)
    × (b < bit + rounds)
    × (bit_of b byte ≡ false)
    × ((j : ℕ) → bit ≤ j → j < b → bit_of j byte ≡ true)

scan_clear-ClearFrom :
    (rounds bit byte : ℕ) → ClearFrom rounds bit byte (scan_clear rounds bit byte)
unfolding ClearFrom scan_clear
scan_clear-ClearFrom zero bit byte = λ j le lt. absurd (omega arith)
scan_clear-ClearFrom (suc rounds) bit byte = elim (Bool-cases (bit_of bit byte)) [
  | inr nil ↦ rw nil (omega arith, omega arith, nil, λ j le lt. absurd (omega arith))
  | inl one ↦
      rw one
        (later (scan_clear rounds (suc bit) byte) (scan_clear-ClearFrom rounds (suc bit) byte) one)
]
  where
    here : (j : ℕ) → bit_of bit byte ≡ true → bit ≤ j → ¬ (suc bit ≤ j) → bit_of j byte ≡ true
    here j one le not_later = let same : bit ≡ j = omega arith in rw (← same) one

    later :
        (o : Option ℕ)
        → ClearFrom rounds (suc bit) byte o
        → bit_of bit byte ≡ true
        → ClearFrom (suc rounds) bit byte o
    later none h one = λ j le lt. elim (Bool-cases (leb (suc bit) j)) [
      | inl up ↦ h j (ground arith) (omega arith)
      | inr low ↦ here j one le (ground arith)
    ]
    later (some b) (le, lt, nil, h) one = (
      omega arith,
      omega arith,
      nil,
      λ j le' lt'. elim (Bool-cases (leb (suc bit) j)) [
        | inl up ↦ h j (ground arith) lt'
        | inr low ↦ here j one le' (ground arith)
      ],
    )

-- A byte of 255 has no clear bit.
full_byte : (j : ℕ) → j < 8 → bit_of j 255 ≡ true
unfolding bit_of
full_byte zero lt = refl
full_byte (suc zero) lt = refl
full_byte (suc (suc zero)) lt = refl
full_byte (suc (suc (suc zero))) lt = refl
full_byte (suc (suc (suc (suc zero)))) lt = refl
full_byte (suc (suc (suc (suc (suc zero))))) lt = refl
full_byte (suc (suc (suc (suc (suc (suc zero)))))) lt = refl
full_byte (suc (suc (suc (suc (suc (suc (suc zero))))))) lt = refl
full_byte (suc (suc (suc (suc (suc (suc (suc (suc j)))))))) lt = absurd (omega arith)

at_byte :
    (bitmap : List ℕ) (byte w j : ℕ)
    → get_elem? bitmap byte ≡ some w
    → byte * 8 ≤ j
    → j < byte * 8 + 8
    → is_taken bitmap j ≡ bit_of (j - byte * 8) w
at_byte bitmap byte w j e le lt =
    let frame : j / 8 ≡ byte = omega arith in
    let place : j % 8 ≡ j - byte * 8 = omega arith in
    ap (λ n. bit_in (get_elem? bitmap n) (j % 8)) frame
    ∙ ap (λ o. bit_in o (j % 8)) e
    ∙ ap (λ k. bit_of k w) place

pub in_bounds :
    (bitmap : List ℕ) (byte w : ℕ) → get_elem? bitmap byte ≡ some w → byte < length bitmap
in_bounds [] byte w e = cc
in_bounds (x ∷ bitmap) zero w e = omega arith
in_bounds (x ∷ bitmap) (suc byte) w e = omega (arith, in_bounds bitmap byte w e)

pub out_of_bounds :
    (bitmap : List ℕ) (byte : ℕ) → get_elem? bitmap byte ≡ none → length bitmap ≤ byte
out_of_bounds [] byte e = omega arith
out_of_bounds (x ∷ bitmap) zero e = cc
out_of_bounds (x ∷ bitmap) (suc byte) e = omega (arith, out_of_bounds bitmap byte e)

-- What a search of the indices from `low` to below `high` says: the first clear bit; that all are taken;
-- or that all in the map are taken, and that it is read behind its end.
unfoldable pub FoundIn : List ℕ → ℕ → ℕ → ℕ → Found → Type 0
FoundIn bitmap count low high (found index) =
    (low ≤ index)
    × (index < high)
    × (index < count)
    × (index < length bitmap * 8)
    × (is_taken bitmap index ≡ false)
    × ((j : ℕ) → low ≤ j → j < index → is_taken bitmap j ≡ true)
FoundIn bitmap count low high none_free =
    (j : ℕ) → low ≤ j → j < high → j < count → is_taken bitmap j ≡ true
FoundIn bitmap count low high reads_wild =
    (length bitmap * 8 < high)
    × ((j : ℕ) → low ≤ j → j < length bitmap * 8 → j < count → is_taken bitmap j ≡ true)

module _ (bitmap : List ℕ) (count : ℕ) where
  -- A byte whose bits are taken leaves the search to the bytes behind it.
  go_on :
      (rounds byte : ℕ) (o : Found)
      → ((j : ℕ) → byte * 8 ≤ j → j < byte * 8 + 8 → j < count → is_taken bitmap j ≡ true)
      → FoundIn bitmap count (suc byte * 8) ((suc byte + rounds) * 8) o
      → FoundIn bitmap count (byte * 8) ((byte + suc rounds) * 8) o
  unfolding FoundIn
  go_on rounds byte (found index) here (le, up, small, inside, free, h) = (
    omega arith,
    omega arith,
    small,
    inside,
    free,
    λ j le' lt'. elim (Bool-cases (ltb j (suc byte * 8))) [
      | inl first ↦ here j le' (ground arith) (omega arith)
      | inr later ↦ h j (ground arith) lt'
    ],
  )
  go_on rounds byte none_free here h = λ j le up small. elim (Bool-cases (ltb j (suc byte * 8))) [
    | inl first ↦ here j le (ground arith) small
    | inr later ↦ h j (ground arith) (omega arith) small
  ]
  go_on rounds byte reads_wild here (past, h) = (
    omega arith,
    λ j le inside small. elim (Bool-cases (ltb j (suc byte * 8))) [
      | inl first ↦ here j le (ground arith) small
      | inr later ↦ h j (ground arith) inside small
    ],
  )

  ffb_loop-FoundIn :
      (rounds byte : ℕ)
      → FoundIn bitmap count (byte * 8) ((byte + rounds) * 8) (ffb_loop bitmap count rounds byte)
  unfolding FoundIn ffb_loop ClearFrom
  ffb_loop-FoundIn zero byte = λ j le up. absurd (omega arith)
  ffb_loop-FoundIn (suc rounds) byte =
      let ih = ffb_loop-FoundIn rounds (suc byte) in
      let rest = ffb_loop bitmap count rounds (suc byte) in
      elim (Option-cases (get_elem? bitmap byte)) [
        | inl e ↦
            rw (e, ffb_loop)
              (
                omega (arith, out_of_bounds bitmap byte e),
                λ j le inside. absurd (omega (arith, out_of_bounds bitmap byte e)),
              )
        | inr (w, e) ↦ elim (Bool-cases (w == 255)) [
          | inl full ↦
              rw (e, full, ffb_loop) (go_on rounds byte rest (all_full w e (ground arith)) ih)
          | inr part ↦
              rw (e, part, ffb_loop)
                (in_byte w e (scan_clear 8 0 w) refl (scan_clear-ClearFrom 8 0 w) rest ih)
        ]
      ]
    where
      all_full :
          (w : ℕ)
          → get_elem? bitmap byte ≡ some w
          → w ≡ 255
          → (j : ℕ) → byte * 8 ≤ j
          → j < byte * 8 + 8
          → j < count
          → is_taken bitmap j ≡ true
      all_full w e same j le lt small =
          at_byte bitmap byte w j e le lt
          ∙ ap (bit_of (j - byte * 8)) same
          ∙ full_byte (j - byte * 8) (omega arith)

      in_byte :
          (w : ℕ)
          → get_elem? bitmap byte ≡ some w
          → (o : Option ℕ) → scan_clear 8 0 w ≡ o
          → ClearFrom 8 0 w o
          → (rest : Found) → FoundIn bitmap count (suc byte * 8) ((suc byte + rounds) * 8) rest
          → FoundIn bitmap count (byte * 8) ((byte + suc rounds) * 8) (elim o [
            | none ↦ rest
            | some bit ↦ if leb count (byte * 8 + bit) then rest else found (byte * 8 + bit)
          ])
      in_byte w e none s h rest ih =
          go_on rounds byte rest
            (λ j le lt small.
              at_byte bitmap byte w j e le lt ∙ h (j - byte * 8) (omega arith) (omega arith))
            ih
      in_byte w e (some bit) s (le, lt, free, h) rest ih =
          elim (Bool-cases (leb count (byte * 8 + bit))) [
            | inl over ↦ rw over (
                go_on rounds byte rest
                  (λ j low high small.
                    at_byte bitmap byte w j e low high
                    ∙ h (j - byte * 8) (omega arith) (ground arith))
                  ih)
            | inr inside ↦ rw inside (
              omega arith,
              omega arith,
              ground arith,
              omega (arith, in_bounds bitmap byte w e),
              at_byte bitmap byte w (byte * 8 + bit) e (omega arith) (omega arith)
                  ∙ ap (λ k. bit_of k w) (omega arith)
                  ∙ free,
              λ j low high.
                  at_byte bitmap byte w j e low (omega arith)
                  ∙ h (j - byte * 8) (omega arith) (omega arith),
            )
          ]

-- The search of a map of bytes finds the first clear bit below the count; it answers -1 only if all bits
-- below the count are taken; and otherwise all bits of the map are taken, and it is read behind its
-- end, where it has fewer bytes than the count asks for.
pub ffb-FoundIn :
    (bitmap : List ℕ) (count : ℕ) → FoundIn bitmap count 0 ((count + 7) / 8 * 8) (ffb bitmap count)
unfolding ffb
ffb-FoundIn bitmap count =
    let low : 0 * 8 ≡ 0 = omega arith in
    let high : (0 + (count + 7) / 8) * 8 ≡ (count + 7) / 8 * 8 = omega arith in
    let o = ffb bitmap count in
    subst (λ n. FoundIn bitmap count 0 n o) high
      (subst (λ n. FoundIn bitmap count n ((0 + (count + 7) / 8) * 8) o) low
        (ffb_loop-FoundIn bitmap count ((count + 7) / 8) 0))
