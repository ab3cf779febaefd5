-- ===== src/Http/Search/Chacha.antt =====
-- `onion_chacha` of src/onion/http.c: the first occurrence of a byte.
use checks.Prelude.{
  ℕ, suc, ◌+◌, ◌≡◌, refl, ◌≢◌, ◌↔◌, inl, inr, none, some, List, [], ◌∷◌, ◌++◌, ◌==◌, Bool-cases,
  length, All, ap, arith,
}
use checks.Http.Search.{chacha_from, chacha}

-- `bytes` is split at `target`, with no `target` in the `offset` bytes before it.
abbrev pub SplitsAt : List ℕ → ℕ → ℕ → Type 0
SplitsAt bytes target offset =
    (before : List ℕ) × (after : List ℕ) × (bytes ≡ before ++ target ∷ after)
    × All (λ c. c ≢ target) before
    × (length before ≡ offset)

chacha_from-found :
    (before after : List ℕ) (target offset : ℕ)
    → All (λ c. c ≢ target) before
    → chacha_from (before ++ target ∷ after) target offset ≡ some (offset + length before)
unfolding chacha_from
chacha_from-found [] after t o h = ground arith
chacha_from-found (c ∷ before) after t o h =
    ground (arith, chacha_from-found before after t (o + 1) h.1)

chacha_from-absent :
    (bytes : List ℕ) (target offset : ℕ)
    → All (λ c. c ≢ target) bytes
    → chacha_from bytes target offset ≡ none
unfolding chacha_from
chacha_from-absent [] t o h = refl
chacha_from-absent (c ∷ rest) t o h = ground (arith, chacha_from-absent rest t (o + 1) h.1)

chacha_from-SplitsAt :
    (bytes : List ℕ) (target offset k : ℕ)
    → chacha_from bytes target offset ≡ some k
    → (j : ℕ) × (k ≡ offset + j) × SplitsAt bytes target j
unfolding chacha_from
chacha_from-SplitsAt [] t o k h = cc
chacha_from-SplitsAt (c ∷ rest) t o k h = elim (Bool-cases (c == t)) [
  | inl hit ↦ (0, ground arith, ([], rest, ground arith, tt, refl))
  | inr miss ↦
      let (j, e, at) = chacha_from-SplitsAt rest t (o + 1) k (ground arith) in
      let (before, after, split, absent, len) = at in
      (
        suc j,
        omega arith,
        (c ∷ before, after, ap (λ r. c ∷ r) split, (ground arith, absent), omega arith),
      )
]

chacha_from-none :
    (bytes : List ℕ) (target offset : ℕ)
    → chacha_from bytes target offset ≡ none
    → All (λ c. c ≢ target) bytes
unfolding chacha_from
chacha_from-none [] t o h = tt
chacha_from-none (c ∷ rest) t o h = elim (Bool-cases (c == t)) [
  | inl hit ↦ ground arith
  | inr miss ↦ (ground arith, chacha_from-none rest t (o + 1) (ground arith))
]

-- A byte string with the byte in it: the search returns the place of the first one.
pub chacha-found :
    (before after : List ℕ) (target : ℕ)
    → All (λ c. c ≢ target) before
    → chacha (before ++ target ∷ after) target ≡ some (length before)
unfolding chacha
chacha-found before after t h = ground (arith, chacha_from-found before after t 0 h)

-- `onion_chacha` returns an offset exactly when the bytes split there at their first `target`, and
-- NULL exactly when no byte is `target`.
pub chacha_lem :
    (bytes : List ℕ) (target k : ℕ)
    → ((chacha bytes target ≡ some k) ↔ SplitsAt bytes target k)
      × ((chacha bytes target ≡ none) ↔ All (λ c. c ≢ target) bytes)
unfolding chacha
chacha_lem bytes t k = (
  (
    λ h.
        let (j, e, at) = chacha_from-SplitsAt bytes t 0 k h in
        let same : j ≡ k = omega arith in rw (← same) at,
    λ (before, after, split, absent, len). rw (split, ← len) (chacha-found before after t absent),
  ),
  (chacha_from-none bytes t 0, chacha_from-absent bytes t 0),
)
