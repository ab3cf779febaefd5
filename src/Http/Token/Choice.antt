-- ===== src/Http/Token/Choice.antt =====
-- Lookup of methods and versions by name: `onion_http_choice_get` and its two callers in
-- src/onion/http.c.
use checks.Prelude.{
  ℕ, ◌≡◌, refl, ◌≢◌, ◌↔◌, ◌⊎◌, inl, inr, true, ◌&&◌, some, List, [], ◌∷◌, ◌==◌, Bool-cases, length,
  All, arith,
}
use checks.Http.Token.{
  Choice, same_text, choice_get, method_list, version_list, get_valid_method, get_valid_version,
  method_invalid,
}

same_text-eq :
    (a b : List ℕ)
    → All (λ c. c ≢ 0) b
    → length b ≡ length a
    → same_text (length a) a b ≡ true
    → a ≡ b
unfolding same_text
same_text-eq [] [] clean len h = refl
same_text-eq [] (y ∷ b) clean len h = absurd (omega arith)
same_text-eq (x ∷ a) [] clean len h = absurd (omega arith)
same_text-eq (x ∷ a) (y ∷ b) clean len h = ground (arith, same_text-eq a b clean.1)

-- `(name, token)` is a row of the table.
abbrev pub HasRow : List Choice → List ℕ → ℕ → Type 0
HasRow [] name token = ⊥
HasRow ((target, t) ∷ rest) name token = ((name ≡ target) × (token ≡ t)) ⊎ HasRow rest name token

-- No name of the table holds a NUL.
abbrev pub IsText : List Choice → Type 0
IsText [] = Unit
IsText ((target, t) ∷ rest) = All (λ c. c ≢ 0) target × IsText rest

choice_get-HasRow :
    (table : List Choice) (name : List ℕ) (token : ℕ)
    → IsText table
    → choice_get table name ≡ some token
    → HasRow table name token
unfolding choice_get
choice_get-HasRow [] name token clean h = cc
choice_get-HasRow ((target, t) ∷ rest) name token clean h =
    elim (Bool-cases ((length target == length name) && same_text (length name) name target)) [
      | inl hit ↦ inl (same_text-eq name target clean.0 (ground arith) (ground arith), ground arith)
      | inr miss ↦ inr (choice_get-HasRow rest name token clean.1 (ground arith))
    ]

method_list-IsText : IsText method_list
method_list-IsText = omega arith

version_list-IsText : IsText version_list
version_list-IsText = omega arith

row-method : (name : List ℕ) (m : ℕ) → HasRow method_list name m → get_valid_method name ≡ m
unfolding get_valid_method choice_get same_text
row-method name m (inl (n, t)) = rw (n, t)
row-method name m (inr (inl (n, t))) = rw (n, t)
row-method name m (inr (inr (inl (n, t)))) = rw (n, t)
row-method name m (inr (inr (inr (inl (n, t))))) = rw (n, t)
row-method name m (inr (inr (inr (inr (inl (n, t)))))) = rw (n, t)
row-method name m (inr (inr (inr (inr (inr (inl (n, t))))))) = rw (n, t)
row-method name m (inr (inr (inr (inr (inr (inr (inl (n, t)))))))) = rw (n, t)
row-method name m (inr (inr (inr (inr (inr (inr (inr h))))))) = absurd h

method-choice :
    (name : List ℕ) (m : ℕ)
    → m ≢ method_invalid
    → get_valid_method name ≡ m
    → choice_get method_list name ≡ some m
unfolding get_valid_method
method-choice name m ne h = ground arith

-- `onion_http_get_valid_method` returns a method exactly for the name that the table gives it.
pub get_valid_method_lem :
    (name : List ℕ) (m : ℕ)
    → m ≢ method_invalid
    → (get_valid_method name ≡ m) ↔ HasRow method_list name m
get_valid_method_lem name m ne = (
  λ h. choice_get-HasRow method_list name m method_list-IsText (method-choice name m ne h),
  row-method name m,
)

row-version : (name : List ℕ) (v : ℕ) → HasRow version_list name v → get_valid_version name ≡ some v
unfolding get_valid_version choice_get same_text
row-version name v (inl (n, t)) = rw (n, t)
row-version name v (inr h) = absurd h

-- `onion_http_get_valid_version` accepts the name `HTTP/1.1` and no other.
pub get_valid_version_lem :
    (name : List ℕ) (v : ℕ) → (get_valid_version name ≡ some v) ↔ HasRow version_list name v
unfolding get_valid_version
get_valid_version_lem name v =
    (choice_get-HasRow version_list name v version_list-IsText, row-version name v)
