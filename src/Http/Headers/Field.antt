-- ===== src/Http/Headers/Field.antt =====
-- The header lines that `onion_http_parse_headers` (src/onion/request.c) is meant for, and where the
-- searches find their parts.
use checks.Prelude.{
  ℕ, zero, suc, ◌+◌, ◌<◌, ◌≤◌, ◌≡◌, refl, ap, ◌∙◌, ◌≢◌, ◌⊎◌, inl, inr, true, false, some, List, [],
  ◌∷◌, ◌++◌, length, take, replicate, All, All-append, drop-append, drop-append_add, arith,
}
use checks.Http.Search.{stringa}
use checks.Http.Search.Stringa.{FirstAt, OccursAt, stringa-first}
use checks.Http.Token.Range.{is_tchar}
use checks.Http.Request.RequestLine.{All-map}
use checks.Http.Headers.{count_spaces, blank_line, header_name_size, header_value_size}

pub record Field : Type 0 where
  pub name : List ℕ
  pub spaces : ℕ
  pub value : List ℕ

-- `name ":" spaces value`.
abbrev pub field_text : Field → List ℕ
field_text f = f.name ++ (b':' ∷ (replicate f.spaces 32 ++ f.value))

-- The lines, the blank line and what follows.
abbrev pub fields_text : List Field → List ℕ → List ℕ
fields_text [] rest = 13 ∷ 10 ∷ rest
fields_text (f ∷ fs) rest = field_text f ++ (13 ∷ 10 ∷ fields_text fs rest)

abbrev pub IsText : ℕ → Type 0
IsText c = ((32 ≤ c) × (c ≤ 255)) ⊎ (c ≡ 9)

abbrev pub NoSpace : List ℕ → Type 0
NoSpace [] = Unit
NoSpace (c ∷ s) = c ≢ 32

-- A header that the server takes: a name of at most 63 token characters, and a value of at most 127
-- bytes that has no control character but TAB and no space in front.
pub record IsField (f : Field) : Type 0 where
  pub token : All (λ c. (c < 256) × (is_tchar c ≡ true)) f.name
  pub name_fits : length f.name < header_name_size
  pub text : All IsText f.value
  pub value_fits : length f.value < header_value_size
  pub trimmed : NoSpace f.value

-- No target begins inside a text without its first byte.
pub not-OccursAt_inside :
    (xs rest ts : List ℕ) (t j : ℕ)
    → All (λ c. c ≢ t) xs
    → j < length xs
    → ¬ OccursAt (xs ++ rest) (t ∷ ts) j
not-OccursAt_inside [] rest ts t j h lt = absurd (omega arith)
not-OccursAt_inside (x ∷ xs) rest ts t zero h lt = λ e. h.0 (cc)
not-OccursAt_inside (x ∷ xs) rest ts t (suc j) h lt =
    not-OccursAt_inside xs rest ts t j h.1 (omega arith)

-- A target behind a text without its first byte is found there.
pub stringa-behind :
    (xs rest ts : List ℕ) (t : ℕ)
    → All (λ c. c ≢ t) xs
    → take (length (t ∷ ts)) rest ≡ t ∷ ts
    → stringa (xs ++ rest) (t ∷ ts) ≡ some (length xs)
stringa-behind xs rest ts t h e =
    stringa-first (xs ++ rest) (t ∷ ts) (length xs) (λ e. cc)
      (rw (drop-append (length xs) xs rest refl) e, λ j lt. not-OccursAt_inside xs rest ts t j h lt)

tchar-ne : (c d : ℕ) → is_tchar d ≡ false → is_tchar c ≡ true → c ≢ d
tchar-ne c d n h e = let h' : is_tchar d ≡ true = rw (← e) h in cc

return_is_no_tchar : is_tchar 13 ≡ false
unfolding is_tchar
return_is_no_tchar = refl

colon_is_no_tchar : is_tchar b':' ≡ false
unfolding is_tchar
colon_is_no_tchar = refl

All-replicate : (P : ℕ → Type 0) (n c : ℕ) → P c → All P (replicate n c)
All-replicate P zero c h = tt
All-replicate P (suc n) c h = (h, All-replicate P n c h)

module _ (f : Field) (v : IsField f) where
  pub name-no_colon : All (λ c. c ≢ b':') f.name
  name-no_colon = All-map _ _ f.name (λ c h. tchar-ne c b':' colon_is_no_tchar h.1) v.token

  pub field_text-no_return : All (λ c. c ≢ 13) (field_text f)
  field_text-no_return =
      All-append (λ c. c ≢ 13) f.name (b':' ∷ (replicate f.spaces 32 ++ f.value))
        (All-map _ _ f.name (λ c h. tchar-ne c 13 return_is_no_tchar h.1) v.token)
        (
          omega arith,
          All-append (λ c. c ≢ 13) (replicate f.spaces 32) f.value
              (All-replicate (λ c. c ≢ 13) f.spaces 32 (omega arith))
              (All-map _ _ f.value (λ c h. elim h [ inl p ↦ omega arith | inr e ↦ omega arith ])
                v.text),
        )

count_spaces-value : (s rest : List ℕ) → NoSpace s → count_spaces (s ++ (13 ∷ rest)) ≡ 0
unfolding count_spaces
count_spaces-value [] rest h = refl
count_spaces-value (c ∷ s) rest h = ground arith

pub count_spaces-replicate :
    (n : ℕ) (s rest : List ℕ) → NoSpace s → count_spaces (replicate n 32 ++ (s ++ (13 ∷ rest))) ≡ n
unfolding count_spaces
count_spaces-replicate zero s rest h = count_spaces-value s rest h
count_spaces-replicate (suc n) s rest h = ap suc (count_spaces-replicate n s rest h)

-- Where the blank line begins that ends the header lines: at the CR LF of the last one.
abbrev pub blank_at : Field → List Field → ℕ
blank_at f [] = length (field_text f)
blank_at f (g ∷ fs) = length (field_text f) + 2 + blank_at g fs

abbrev NotReturn : List ℕ → Type 0
NotReturn [] = ⊥
NotReturn (c ∷ s) = c ≢ 13

third_eq : {a b c x y z : ℕ} {s t : List ℕ} → (a ∷ (b ∷ (c ∷ s))) ≡ (x ∷ (y ∷ (z ∷ t))) → c ≡ z
third_eq h = cc

front_eq : {a x : ℕ} {s t : List ℕ} → (a ∷ s) ≡ (x ∷ t) → a ≡ x
front_eq h = cc

line_feed_ne : ◌≡◌ {A = ℕ} 10 13 → ⊥
line_feed_ne e = omega arith

-- A blank line is not at the end of a line that another one follows.
OccursAt-later :
    (line rest : List ℕ) (j : ℕ)
    → All (λ c. c ≢ 13) line
    → NotReturn rest
    → OccursAt (line ++ (13 ∷ 10 ∷ rest)) blank_line j
    → (k : ℕ) × (j ≡ length line + 2 + k) × OccursAt rest blank_line k
OccursAt-later [] [] j h n o = absurd n
OccursAt-later [] (c ∷ s) zero h n o = absurd (n (third_eq o))
OccursAt-later [] (c ∷ s) (suc zero) h n o = absurd (line_feed_ne (front_eq o))
OccursAt-later [] (c ∷ s) (suc (suc j)) h n o = (j, omega arith, o)
OccursAt-later (x ∷ line) rest zero h n o = absurd (h.0 (front_eq o))
OccursAt-later (x ∷ line) rest (suc j) h n o =
    let (k, e, at) = OccursAt-later line rest j h.1 n o in (k, omega arith, at)

NotReturn-append :
    (xs ys : List ℕ) (c : ℕ)
    → All (λ c. c ≢ 13) (xs ++ (c ∷ ys))
    → (zs : List ℕ) → NotReturn ((xs ++ (c ∷ ys)) ++ zs)
NotReturn-append [] ys c h zs = h.0
NotReturn-append (x ∷ xs) ys c h zs = h.0

pub blank_line-FirstAt :
    (f : Field) (fs : List Field) (rest : List ℕ)
    → IsField f
    → All IsField fs
    → FirstAt (fields_text (f ∷ fs) rest) blank_line (blank_at f fs)
blank_line-FirstAt f [] rest v vs = (
  rw (drop-append (length (field_text f)) (field_text f) (13 ∷ 10 ∷ 13 ∷ 10 ∷ rest) refl),
  λ j lt.
      not-OccursAt_inside (field_text f) (13 ∷ 10 ∷ 13 ∷ 10 ∷ rest) (10 ∷ 13 ∷ 10 ∷ []) 13 j
        (field_text-no_return f v) lt,
)
blank_line-FirstAt f (g ∷ fs) rest v vs =
    let ih = blank_line-FirstAt g fs rest vs.0 vs.1 in
    let more = fields_text (g ∷ fs) rest in
    let apart =
      NotReturn-append g.name (replicate g.spaces 32 ++ g.value) b':' (field_text-no_return g vs.0)
        (13 ∷ 10 ∷ fields_text fs rest) in
    (
      ap (take 4) (
            drop-append_add (length (field_text f) + 2 + blank_at g fs) (suc (suc (blank_at g fs)))
              (field_text f) (13 ∷ 10 ∷ more) (omega arith))
          ∙ ih.0,
      λ j lt o.
          let (k, e, at) =
            OccursAt-later (field_text f) more j (field_text-no_return f v) apart o in
          ih.1 k (omega arith) at,
    )
