-- ===== src/Http/Token/Range.antt =====
-- The byte checks of src/onion/http.c against what they mean.
use checks.Prelude.{
  not, ℕ_discrete, ℕ, zero, suc, ◌≤◌, ◌<◌, ◌≡◌, refl, ◌↔◌, ◌⊎◌, inl, inr, Bool, true, false, ◌&&◌,
  ◌||◌, List, [], ◌∷◌, leb, ◌==◌, ◌++◌, Bool-cases, Option-cases, All, arith,
}
use checks.Http.Search.{chacha}
use checks.Http.Search.Chacha.{chacha_lem}
use checks.Http.Token.{excepted, check_in_range, name_byte, name_bytes, get_valid_header_name}

-- The byte is one of the list.
abbrev pub OneOf : List ℕ → ℕ → Type 0
OneOf [] c = ⊥
OneOf (e ∷ es) c = (c ≡ e) ⊎ OneOf es c

abbrev pub InRange : ℕ → ℕ → List ℕ → ℕ → Type 0
InRange low high exceptions c = ((low ≤ c) × (c ≤ high)) ⊎ OneOf exceptions c

excepted_iff : (es : List ℕ) (c : ℕ) → (excepted es c ≡ true) ↔ OneOf es c
unfolding excepted
excepted_iff [] c = (λ h. cc, λ h. absurd h)
excepted_iff (e ∷ es) c = (
  λ h. elim (Bool-cases (c == e)) [
    | inl hit ↦ inl (ground arith)
    | inr miss ↦ inr ((excepted_iff es c).0 (ground arith))
  ],
  λ h. elim h [ inl hit ↦ ground arith | inr later ↦ ground (arith, (excepted_iff es c).1 later) ],
)

-- `onion_http_check_in_range` accepts exactly the byte strings whose every byte lies between the
-- bounds or is one of the exceptions.
pub check_in_range_lem :
    (bytes : List ℕ) (low high : ℕ) (exceptions : List ℕ)
    → (check_in_range bytes low high exceptions ≡ true) ↔ All (InRange low high exceptions) bytes
unfolding check_in_range
check_in_range_lem [] low high es = (λ h. tt, λ h. refl)
check_in_range_lem (c ∷ rest) low high es =
    let ih = check_in_range_lem rest low high es in
    let one = excepted_iff es c in
    (
      λ h. (
        elim (Bool-cases (leb low c && leb c high)) [
          | inl within ↦ inl (ground arith)
          | inr outside ↦ inr (one.0 (ground arith))
        ],
        ih.0 (ground arith),
      ),
      λ h. elim h.0 [
        | inl within ↦ ground (arith, ih.1 h.1)
        | inr later ↦ ground (arith, ih.1 h.1, one.1 later)
      ],
    )

-- A letter, a digit or one of the fifteen marks: the `tchar` of RFC 7230, section 3.2.6.
unfoldable pub is_tchar : ℕ → Bool
is_tchar c =
    (leb b'a' c && leb c b'z')
    || (leb b'A' c && leb c b'Z')
    || (leb b'0' c && leb c b'9')
    || (c == b'!')
    || (c == b'#')
    || (c == b'$')
    || (c == b'%')
    || (c == b'&')
    || (c == 39)
    || (c == b'*')
    || (c == b'+')
    || (c == b'-')
    || (c == b'.')
    || (c == b'^')
    || (c == b'_')
    || (c == 96)
    || (c == b'|')
    || (c == b'~')

-- Two tests give the same answer on every number below the bound.
agree : (ℕ → Bool) → (ℕ → Bool) → ℕ → Bool
agree p q zero = true
agree p q (suc bound) = elim (p bound) [
  | true ↦ q bound && agree p q bound
  | false ↦ not (q bound) && agree p q bound
]

agree-eq : (p q : ℕ → Bool) (bound c : ℕ) → c < bound → agree p q bound ≡ true → p c ≡ q c
unfolding agree
agree-eq p q zero c h all = elim h [ ]
agree-eq p q (suc bound) c h all = elim (ℕ_discrete c bound) [
  | yes e ↦ rw e (ground arith)
  | no ne ↦ agree-eq p q bound c (omega arith) (ground arith)
]

tchar_agrees : agree name_byte is_tchar 256 ≡ true
unfolding agree name_byte is_tchar
tchar_agrees = refl

name_byte-tchar : (c : ℕ) → c < 256 → name_byte c ≡ is_tchar c
name_byte-tchar c h = agree-eq name_byte is_tchar 256 c h tchar_agrees

name_bytes-tchar :
    (bytes : List ℕ)
    → All (λ c. c < 256) bytes
    → (name_bytes bytes ≡ true) ↔ All (λ c. is_tchar c ≡ true) bytes
unfolding name_bytes
name_bytes-tchar [] h = (λ h. tt, λ h. refl)
name_bytes-tchar (c ∷ rest) h =
    let ih = name_bytes-tchar rest h.1 in
    rw (name_byte-tchar c h.0)
      (λ k. (ground arith, ih.0 (ground arith)), λ k. ground (arith, ih.1 k.1))

tchar_zero : ¬ (is_tchar 0 ≡ true)
unfolding is_tchar
tchar_zero h = cc

-- A string of token characters has no NUL in it.
not-tchar_zero : (before after : List ℕ) → ¬ All (λ c. is_tchar c ≡ true) (before ++ 0 ∷ after)
not-tchar_zero [] after h = tchar_zero h.0
not-tchar_zero (c ∷ before) after h = not-tchar_zero before after h.1

-- On bytes, `onion_http_get_valid_header_name` accepts exactly the strings of RFC 7230 token
-- characters (the empty string with them).
pub get_valid_header_name_lem :
    (bytes : List ℕ)
    → All (λ c. c < 256) bytes
    → (get_valid_header_name bytes ≡ true) ↔ All (λ c. is_tchar c ≡ true) bytes
unfolding get_valid_header_name
get_valid_header_name_lem bytes h = elim (Option-cases (chacha bytes 0)) [
  | inl absent ↦ rw (absent, get_valid_header_name) (name_bytes-tchar bytes h)
  | inr (k, found) ↦
      let (before, after, split, absent, len) = (chacha_lem bytes 0 k).0.0 found in
      rw (found, get_valid_header_name)
        (λ e. cc, λ all. absurd (not-tchar_zero before after (rw split at all)))
]
