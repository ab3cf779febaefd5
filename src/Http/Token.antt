-- ===== src/Http/Token.antt =====
-- The token checks of src/onion/http.c: methods, versions, byte ranges and header names.
-- A method or version is its `enum` value; `METHOD_INVALID` is 7, and `VERSION_INVALID`, -1 in C,
-- is `none`.
pub mod Choice
pub mod Range
use checks.Prelude.{
  ℕ, zero, suc, ◌+◌, Bool, true, false, not, ◌&&◌, ◌||◌, Option, none, some, List, [], ◌∷◌, ltb,
  leb, ◌==◌, if◌then◌else◌, length,
}
use checks.Http.Search.{chacha}

-- `strncmp(a, b, n) == 0`: equal up to `n` bytes or to a common NUL. Past the end a string reads
-- as NUL.
pub same_text : ℕ → List ℕ → List ℕ → Bool
same_text zero a b = true
same_text (suc n) [] [] = true
same_text (suc n) [] (y ∷ b) = y == 0
same_text (suc n) (x ∷ a) [] = x == 0
same_text (suc n) (x ∷ a) (y ∷ b) = (x == y) && ((x == 0) || same_text n a b)

-- A row of `struct onion_http_choice`: the name and its token.
abbrev pub Choice : Type 0
Choice = List ℕ × ℕ

-- `onion_http_choice_get`; `none` is -1.
pub choice_get : List Choice → List ℕ → Option ℕ
choice_get [] name = none
choice_get ((target, token) ∷ rest) name =
    if (length target == length name) && same_text (length name) name target
    then some token
    else choice_get rest name

-- `ONION_HTTP_METHOD_LIST`.
abbrev pub method_list : List Choice
method_list =
    (b'G' ∷ b'E' ∷ b'T' ∷ [], 0)
    ∷ (b'P' ∷ b'O' ∷ b'S' ∷ b'T' ∷ [], 1)
    ∷ (b'P' ∷ b'U' ∷ b'T' ∷ [], 2)
    ∷ (b'D' ∷ b'E' ∷ b'L' ∷ b'E' ∷ b'T' ∷ b'E' ∷ [], 3)
    ∷ (b'H' ∷ b'E' ∷ b'A' ∷ b'D' ∷ [], 4)
    ∷ (b'O' ∷ b'P' ∷ b'T' ∷ b'I' ∷ b'O' ∷ b'N' ∷ b'S' ∷ [], 5)
    ∷ (b'P' ∷ b'A' ∷ b'T' ∷ b'C' ∷ b'H' ∷ [], 6)
    ∷ []

-- `ONION_HTTP_VERSION_LIST`.
abbrev pub version_list : List Choice
version_list = (b'H' ∷ b'T' ∷ b'T' ∷ b'P' ∷ b'/' ∷ b'1' ∷ b'.' ∷ b'1' ∷ [], 0) ∷ []

abbrev pub method_invalid : ℕ
method_invalid = 7

unfoldable pub get_valid_method : List ℕ → ℕ
get_valid_method name = elim (choice_get method_list name) [
  | some token ↦ token
  | none ↦ method_invalid
]

unfoldable pub get_valid_version : List ℕ → Option ℕ
get_valid_version name = choice_get version_list name

-- The inner loop of `onion_http_check_in_range`.
pub excepted : List ℕ → ℕ → Bool
excepted [] c = false
excepted (e ∷ exceptions) c = (c == e) || excepted exceptions c

-- `onion_http_check_in_range`, true for 0 and false for -1. A NULL `exp` is the empty list.
unfoldable pub check_in_range : List ℕ → ℕ → ℕ → List ℕ → Bool
unfolding excepted
check_in_range [] low high exceptions = true
check_in_range (c ∷ rest) low high exceptions =
    ((leb low c && leb c high) || excepted exceptions c) && check_in_range rest low high exceptions

-- The separators that `onion_http_get_valid_header_name` rejects.
pub is_separator : ℕ → Bool
is_separator c =
    (c == b'(')
    || (c == b')')
    || (c == b'<')
    || (c == b'>')
    || (c == b'@')
    || (c == b',')
    || (c == b';')
    || (c == b':')
    || (c == 92)
    || (c == 34)
    || (c == b'/')
    || (c == b'[')
    || (c == b']')
    || (c == b'?')
    || (c == b'=')
    || (c == b'{')
    || (c == b'}')
    || (c == 32)
    || (c == 9)

-- One round of its loop: the byte does not make it return -1.
pub name_byte : ℕ → Bool
unfolding is_separator
name_byte c = not (ltb c 33 || ltb 126 c) && not (is_separator c)

-- The loop.
pub name_bytes : List ℕ → Bool
unfolding name_byte
name_bytes [] = true
name_bytes (c ∷ rest) = name_byte c && name_bytes rest

-- `onion_http_get_valid_header_name`, true for 0 and false for -1.
unfoldable pub get_valid_header_name : List ℕ → Bool
get_valid_header_name bytes = elim (chacha bytes 0) [
  | some offset ↦ false
  | none ↦ name_bytes bytes
]
