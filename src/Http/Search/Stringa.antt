-- ===== src/Http/Search/Stringa.antt =====
-- `onion_stringa` of src/onion/http.c: the first occurrence of a byte string.
use checks.Prelude.{
  ℕ, zero, suc, ◌+◌, ◌-◌, ◌<◌, ◌≤◌, ◌≡◌, refl, ◌≢◌, ◌↔◌, inl, inr, true, false, none, some, List,
  [], ◌∷◌, ◌∙◌, dec_lt, Bool-cases, length, take, drop, arith, ap, length-take, length-drop,
  drop-drop_one, Option-cases,
}
use checks.Http.Search.{same_bytes, stringa_from, stringa}

-- `target` stands in `bytes` at offset `k`.
abbrev pub OccursAt : List ℕ → List ℕ → ℕ → Type 0
OccursAt bytes target k = take (length target) (drop k bytes) ≡ target

-- It stands there, and nowhere before.
abbrev pub FirstAt : List ℕ → List ℕ → ℕ → Type 0
FirstAt bytes target k = OccursAt bytes target k × ((j : ℕ) → j < k → ¬ OccursAt bytes target j)

same_bytes-true :
    (bytes target : List ℕ) → same_bytes bytes target ≡ true → take (length target) bytes ≡ target
unfolding same_bytes
same_bytes-true bytes [] h = refl
same_bytes-true [] (t ∷ ts) h = cc
same_bytes-true (c ∷ rest) (t ∷ ts) h = ground (arith, same_bytes-true rest ts)

same_bytes_refl :
    (bytes target : List ℕ) → take (length target) bytes ≡ target → same_bytes bytes target ≡ true
unfolding same_bytes
same_bytes_refl bytes [] h = refl
same_bytes_refl [] (t ∷ ts) h = cc
same_bytes_refl (c ∷ rest) (t ∷ ts) h = ground (arith, same_bytes_refl rest ts)

not-OccursAt : (bytes target : List ℕ) → same_bytes bytes target ≡ false → ¬ OccursAt bytes target 0
not-OccursAt bytes target h o = ground (arith, same_bytes_refl bytes target o)

OccursAt-suc :
    (bytes target : List ℕ) (j : ℕ)
    → OccursAt (drop 1 bytes) target j ↔ OccursAt bytes target (suc j)
OccursAt-suc bytes target j = let e = drop-drop_one j bytes in (λ h. rw (← e) h, λ h. rw e h)

stringa_from-some :
    (rounds : ℕ) (bytes target : List ℕ) (offset k : ℕ)
    → stringa_from rounds bytes target offset ≡ some k
    → (j : ℕ) × (k ≡ offset + j) × FirstAt bytes target j
unfolding stringa_from
stringa_from-some zero bytes target o k h = cc
stringa_from-some (suc r) bytes target o k h = elim (Bool-cases (same_bytes bytes target)) [
  | inl hit ↦ (0, ground arith, (same_bytes-true bytes target hit, λ j lt. absurd (omega arith)))
  | inr miss ↦
      let (j, e, found) = stringa_from-some r (drop 1 bytes) target (o + 1) k (ground arith) in
      (suc j, omega arith, ((OccursAt-suc bytes target j).0 found.0, earlier miss j found.1))
]
  where
    earlier :
        same_bytes bytes target ≡ false
        → (j : ℕ) → ((i : ℕ) → i < j → ¬ OccursAt (drop 1 bytes) target i)
        → (i : ℕ) → i < suc j
        → ¬ OccursAt bytes target i
    earlier miss j first zero lt = not-OccursAt bytes target miss
    earlier miss j first (suc i) lt =
        λ at. first i (omega arith) ((OccursAt-suc bytes target i).1 at)

stringa_from-none :
    (rounds : ℕ) (bytes target : List ℕ) (offset : ℕ)
    → stringa_from rounds bytes target offset ≡ none
    → (j : ℕ) → j < rounds
    → ¬ OccursAt bytes target j
unfolding stringa_from
stringa_from-none zero bytes target o h j lt = absurd (omega arith)
stringa_from-none (suc r) bytes target o h zero lt = not-OccursAt bytes target (ground arith)
stringa_from-none (suc r) bytes target o h (suc j) lt = λ at.
    stringa_from-none r (drop 1 bytes) target (o + 1) (ground arith) j (omega arith)
      ((OccursAt-suc bytes target j).1 at)

-- An occurrence lies inside the bytes.
OccursAt-le :
    (bytes target : List ℕ) (k : ℕ)
    → target ≢ []
    → OccursAt bytes target k
    → (0 < length target) × (k + length target ≤ length bytes)
OccursAt-le bytes [] k ne at = absurd (ne refl)
OccursAt-le bytes (t ∷ ts) k ne at =
    omega (arith, ap length at, length-take (length (t ∷ ts)) (drop k bytes), length-drop k bytes)

stringa-some :
    (bytes target : List ℕ) (k : ℕ) → stringa bytes target ≡ some k → FirstAt bytes target k
unfolding stringa
stringa-some bytes target k h =
    let (j, e, first) =
      stringa_from-some (length bytes - length target + 1) bytes target 0 k (ground arith) in
    let same : j ≡ k = omega arith in rw (← same) first

stringa-none :
    (bytes target : List ℕ)
    → target ≢ []
    → stringa bytes target ≡ none
    → (j : ℕ) → ¬ OccursAt bytes target j
unfolding stringa
stringa-none bytes target ne h j at =
    let inside = OccursAt-le bytes target j ne at in
    stringa_from-none (length bytes - length target + 1) bytes target 0 (ground arith) j
      (omega arith) at

FirstAt-unique :
    (bytes target : List ℕ) (j k : ℕ) → FirstAt bytes target j → FirstAt bytes target k → j ≡ k
FirstAt-unique bytes target j k a b = elim (dec_lt j k) [
  | yes p ↦ absurd (b.1 j p a.0)
  | no p ↦ elim (dec_lt k j) [ yes q ↦ absurd (a.1 k q b.0) | no q ↦ omega arith ]
]

-- The first occurrence is what the search returns.
pub stringa-first :
    (bytes target : List ℕ) (k : ℕ)
    → target ≢ []
    → FirstAt bytes target k
    → stringa bytes target ≡ some k
stringa-first bytes target k ne first = elim (Option-cases (stringa bytes target)) [
  | inl e ↦ absurd (stringa-none bytes target ne e k first.0)
  | inr (j, e) ↦ e ∙ ap some (FirstAt-unique bytes target j k (stringa-some bytes target j e) first)
]

-- `onion_stringa` with a target that is not empty returns an offset exactly when the target's first
-- occurrence stands there, and NULL exactly when the target occurs nowhere.
pub stringa_lem :
    (bytes target : List ℕ) (k : ℕ)
    → target ≢ []
    → ((stringa bytes target ≡ some k) ↔ FirstAt bytes target k)
      × ((stringa bytes target ≡ none) ↔ ((j : ℕ) → ¬ OccursAt bytes target j))
stringa_lem bytes target k ne = (
  (stringa-some bytes target k, stringa-first bytes target k ne),
  (
    stringa-none bytes target ne,
    λ nowhere. elim (Option-cases (stringa bytes target)) [
      | inl e ↦ e
      | inr (j, e) ↦ absurd (nowhere j (stringa-some bytes target j e).0)
    ],
  ),
)
