-- ===== src/Http/CString.antt =====
-- What src/onion/request.c uses of the C library on strings: `strcasecmp`, `atoi` and `strtol` with
-- base 16, in the "C" locale, on byte strings that read as NUL past their end.
use checks.Prelude.{
  ℕ, ◌+◌, ◌-◌, ◌*◌, ◌%◌, ◌^◌, min, Bool, true, false, ◌&&◌, ◌||◌, Option, none, some, List, [], ◌∷◌,
  leb, ltb, ◌==◌, if◌then◌else◌,
}

abbrev pub to_lower : ℕ → ℕ
to_lower c = if leb b'A' c && leb c b'Z' then c + 32 else c

-- `strcasecmp(a, b) == 0`.
unfoldable pub same_nocase : List ℕ → List ℕ → Bool
same_nocase [] [] = true
same_nocase [] (y ∷ b) = y == 0
same_nocase (x ∷ a) [] = x == 0
same_nocase (x ∷ a) (y ∷ b) = (to_lower x == to_lower y) && ((x == 0) || same_nocase a b)

unfoldable pub is_blank : ℕ → Bool
is_blank c = (c == 32) || (leb 9 c && leb c 13)

-- `isspace` bytes at the front are skipped.
unfoldable pub skip_blanks : List ℕ → List ℕ
skip_blanks [] = []
skip_blanks (c ∷ s) = if is_blank c then skip_blanks s else c ∷ s

-- The value of a digit below the base, if the byte is one.
unfoldable pub digit : ℕ → ℕ → Option ℕ
digit base c =
    let d =
      if leb b'0' c && leb c b'9'
      then c - b'0'
      else if leb b'a' c && leb c b'z'
      then c - b'a' + 10
      else if leb b'A' c && leb c b'Z'
      then c - b'A' + 10
      else base in
    if ltb d base then some d else none

-- The digits at the front, after those with the value `acc`.
unfoldable pub digits_from : ℕ → ℕ → List ℕ → ℕ
digits_from base acc [] = acc
digits_from base acc (c ∷ s) = elim (digit base c) [
  | none ↦ acc
  | some d ↦ digits_from base (acc * base + d) s
]

-- `LONG_MAX`.
abbrev pub long_max : ℕ
long_max = 2 ^ 63 - 1

-- `(size_t) strtol(s, NULL, base)` of the text behind the sign, where the conversion stops at the
-- first byte that is no digit and saturates. A negative value is its two's complement.
unfoldable pub to_size : ℕ → Bool → List ℕ → ℕ
to_size base negative s =
    let n = digits_from base 0 s in
    if negative then (2 ^ 64 - min n (2 ^ 63)) % 2 ^ 64 else min n long_max

-- The sign, and what follows it.
abbrev pub signed {ℓ} : {A : Type ℓ} → (Bool → List ℕ → A) → List ℕ → A
signed k [] = k false []
signed k (c ∷ s) = if c == b'-' then k true s else if c == b'+' then k false s else k false (c ∷ s)

-- `(size_t) atoi(s)`: the low 32 bits of `strtol`, sign-extended.
unfoldable pub atoi : List ℕ → ℕ
unfolding to_size
atoi s =
    let low = signed (to_size 10) (skip_blanks s) % 2 ^ 32 in
    if ltb low (2 ^ 31) then low else low + (2 ^ 64 - 2 ^ 32)

-- The `0x` that base 16 allows in front of a digit.
abbrev pub strip_0x : List ℕ → List ℕ
strip_0x (z ∷ x ∷ d ∷ s) = elim (digit 16 d) [
  | none ↦ z ∷ x ∷ d ∷ s
  | some v ↦ if (z == b'0') && ((x == b'x') || (x == b'X')) then d ∷ s else z ∷ x ∷ d ∷ s
]
strip_0x s = s

-- The value of a text that begins with a digit.
abbrev pub if_digit : ℕ → Bool → List ℕ → Option ℕ
if_digit base negative [] = none
if_digit base negative (c ∷ s) = elim (digit base c) [
  | none ↦ none
  | some d ↦ some (to_size base negative (c ∷ s))
]

-- `(size_t) strtol(s, &end, 16)`, and `none` where it sets `end` to `s`.
unfoldable pub strtol_hex : List ℕ → Option ℕ
unfolding digit to_size
strtol_hex s = signed (λ negative t. if_digit 16 negative (strip_0x t)) (skip_blanks s)
