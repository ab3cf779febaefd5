-- ===== src/Http/Line/Shape.antt =====
-- What `find_line` finds: the first CR LF and the first two spaces before it
-- (`onion_http_parse_start_line` of src/onion/request.c).
use checks.Prelude.{
  ℕ, ◌+◌, ◌-◌, ◌≡◌, refl, sym, ap, ◌∙◌, ◌≢◌, inl, inr, none, List, [], ◌∷◌, ◌++◌, append_assoc,
  ◌==◌, false, Bool-cases, Option-cases, length, take, drop, All, length-append, take-append,
  drop-append, take-append-drop, length-take, length-drop, arith,
}
use checks.Prelude.Memory.{window}
use checks.Http.Search.{chacha, stringa}
use checks.Http.Search.Chacha.{chacha-found, chacha_lem}
use checks.Http.Search.Stringa.{FirstAt, OccursAt, stringa-first, stringa_lem}
use checks.Http.Line.{Line, Found, found, space, crlf, cut, find_url, find_name, find_line}

-- The text of a line with no CR LF.
abbrev pub text : List ℕ → List ℕ → List ℕ → List ℕ
text name url version = name ++ (space ∷ (url ++ (space ∷ version)))

-- `bytes` begin with a line of these parts, which ends at the first CR LF.
pub record Shape (bytes name url version rest : List ℕ) : Type 0 where
  pub split : bytes ≡ text name url version ++ (13 ∷ 10 ∷ rest)
  pub name_plain : All (λ c. c ≢ space) name
  pub url_plain : All (λ c. c ≢ space) url
  pub first : FirstAt bytes crlf (length (text name url version))

abbrev pub line_of : List ℕ → List ℕ → List ℕ → Line
line_of name url version = record {
  name = name;
  url = url;
  version = version;
  line_len = length (text name url version);
}

-- The middle one of three pieces is the window of its length behind the first.
pub window_middle :
    (o n : ℕ) (bytes xs ys zs : List ℕ)
    → bytes ≡ xs ++ (ys ++ zs)
    → o ≡ length xs
    → n ≡ length ys
    → window o n bytes ≡ ys
window_middle o n bytes xs ys zs e f g =
    ap (window o n) e ∙ ap (take n) (drop-append o xs (ys ++ zs) f) ∙ take-append n ys zs g

pub length-text :
    (name url version : List ℕ)
    → length (text name url version) ≡ length name + 1 + length url + 1 + length version
length-text name url version = omega (
  arith,
  length-append name (space ∷ (url ++ (space ∷ version))),
  length-append url (space ∷ version),
)

module _ (bytes name url version rest : List ℕ) (s : Shape bytes name url version rest) where
  open s use {split, name_plain, url_plain, first}

  tail : List ℕ
  tail = 13 ∷ 10 ∷ rest

  cut-line :
      cut bytes (length (text name url version)) (length name) (length url)
      ≡ line_of name url version
  unfolding cut tail
  cut-line = λ i. record {
    name = at_name i;
    url = at_url i;
    version = at_version i;
    line_len = length (text name url version);
  }
    where
      len : length (text name url version) ≡ length name + 1 + length url + 1 + length version
      len = length-text name url version

      at_name : take (length name) bytes ≡ name
      at_name =
          ap (take (length name)) (split ∙ append_assoc name _ tail) ∙ take-append _ name _ refl

      at_url : window (length name + 1) (length url) bytes ≡ url
      at_url =
          window_middle _ _ bytes (name ++ (space ∷ [])) url ((space ∷ version) ++ tail)
            (simp (split, append_assoc)) (omega (arith, length-append name (space ∷ []))) refl

      at_version :
          let o = length name + 1 + length url + 1 in
          window o (length (text name url version) - o) bytes ≡ version
      at_version =
          window_middle _ _ bytes (name ++ (space ∷ (url ++ (space ∷ [])))) version tail
            (simp (split, append_assoc))
            (omega (
              arith,
              length-append name (space ∷ (url ++ (space ∷ []))),
              length-append url (space ∷ []),
            ))
            (omega (arith, len))

  find_url-line :
      find_url bytes (length (text name url version)) (length name)
      ≡ found (line_of name url version)
  unfolding find_url tail
  find_url-line =
      rw (after_name, chacha-found url version space url_plain, find_url) (ap found cut-line)
    where
      after_name :
          let o = length name + 1 in
          window o (length (text name url version) - o) bytes ≡ url ++ (space ∷ version)
      after_name =
          window_middle _ _ bytes (name ++ (space ∷ [])) (url ++ (space ∷ version)) tail
            (simp (split, append_assoc)) (omega (arith, length-append name (space ∷ [])))
            (omega (arith, length-text name url version, length-append url (space ∷ version)))

  find_name-line :
      find_name bytes (length (text name url version)) ≡ found (line_of name url version)
  unfolding find_name tail
  find_name-line =
      rw (long, line, chacha-found name (url ++ (space ∷ version)) space name_plain, find_name)
        find_url-line
    where
      long : (length (text name url version) == 0) ≡ false
      long = ground (arith, length-text name url version)

      line : take (length (text name url version)) bytes ≡ text name url version
      line = ap (take (length (text name url version))) split ∙ take-append _ _ tail refl

  -- The search finds the line.
  pub find_line-found : find_line bytes ≡ found (line_of name url version)
  unfolding find_line
  find_line-found =
      rw (stringa-first bytes crlf (length (text name url version)) (λ e. cc) first, find_line)
        find_name-line

-- The bytes before the first CR LF, and those behind it.
crlf_split :
    (bytes : List ℕ) (k : ℕ)
    → OccursAt bytes crlf k
    → (rest : List ℕ) × (bytes ≡ take k bytes ++ (13 ∷ 10 ∷ rest)) × (length (take k bytes) ≡ k)
crlf_split bytes k at = (
  drop 2 (drop k bytes),
  sym (take-append-drop k bytes) ∙ ap (λ r. take k bytes ++ r) (front (drop k bytes) at),
  omega
      (arith, length-take k bytes, length-drop k bytes, length-take 2 (drop k bytes), ap length at),
)
  where
    front : (xs : List ℕ) → take 2 xs ≡ crlf → xs ≡ 13 ∷ 10 ∷ drop 2 xs
    front [] h = cc
    front (x ∷ []) h = cc
    front (x ∷ y ∷ xs) h = cc

-- What the search finds has the shape.
abbrev pub HasShape : List ℕ → Line → Type 0
HasShape bytes l =
    (name : List ℕ) × (url : List ℕ) × (version : List ℕ) × (rest : List ℕ) × Shape bytes name url
      version rest
    × (l ≡ line_of name url version)

-- The last step, from the two splits at spaces and the one at CR LF.
Shape-of_splits :
    (bytes line name after url version rest : List ℕ)
    → FirstAt bytes crlf (length line)
    → bytes ≡ line ++ (13 ∷ 10 ∷ rest)
    → line ≡ name ++ (space ∷ after)
    → All (λ c. c ≢ space) name
    → after ≡ url ++ (space ∷ version)
    → All (λ c. c ≢ space) url
    → Shape bytes name url version rest
Shape-of_splits bytes line name after url version rest first e f plain g plain' =
    let whole : line ≡ text name url version = f ∙ ap (λ r. name ++ (space ∷ r)) g in
    record {
      split = e ∙ ap (λ r. r ++ (13 ∷ 10 ∷ rest)) whole;
      name_plain = plain;
      url_plain = plain';
      first = rw (← whole) first;
    }

found-injective : {l l' : Line} → Found.found l ≡ found l' → l ≡ l'
found-injective h = cc

-- The window in which the second space is looked for is what follows the first.
after_space :
    (bytes line name after rest : List ℕ)
    → bytes ≡ line ++ (13 ∷ 10 ∷ rest)
    → line ≡ name ++ (space ∷ after)
    → window (length name + 1) (length line - (length name + 1)) bytes ≡ after
after_space bytes line name after rest e f =
    window_middle _ _ bytes (name ++ (space ∷ [])) after (13 ∷ 10 ∷ rest)
      (simp (e, f, append_assoc)) (omega (arith, length-append name (space ∷ [])))
      (omega (arith, ap length f, length-append name (space ∷ after)))

module _ (bytes line rest : List ℕ) (l : Line) (e : bytes ≡ line ++ (13 ∷ 10 ∷ rest))
    (first : FirstAt bytes crlf (length line)) (whole : find_line bytes ≡ found l) where
  find_url-shape :
      (name after : List ℕ)
      → line ≡ name ++ (space ∷ after)
      → All (λ c. c ≢ space) name
      → find_url bytes (length line) (length name) ≡ found l
      → HasShape bytes l
  unfolding find_url
  find_url-shape name after f plain h = elim (Option-cases (chacha after space)) [
    | inl none_left ↦ absurd (refuted none_left)
    | inr (k, at) ↦
        let (url, version, g, plain', len) = (chacha_lem after space k).0.0 at in
        let s = Shape-of_splits bytes line name after url version rest first e f plain g plain' in
        (
          name,
          url,
          version,
          rest,
          s,
          found-injective (sym whole ∙ find_line-found bytes name url version rest s),
        )
  ]
    where
      refuted : chacha after space ≡ none → ⊥
      refuted n = let h' = rw (after_space bytes line name after rest e f, n, find_url) at h in cc

  find_name-shape : find_name bytes (length line) ≡ found l → HasShape bytes l
  unfolding find_name
  find_name-shape h = elim (Bool-cases (length line == 0)) [
    | inl short ↦ let h' = rw (short, find_name) at h in absurd (malformed-ne h')
    | inr long ↦ elim (Option-cases (chacha line space)) [
      | inl none_left ↦
          let h' = rw (long, front, none_left, find_name) at h in absurd (malformed-ne h')
      | inr (k, at) ↦
          let (name, after, f, plain, len) = (chacha_lem line space k).0.0 at in
          let h' = rw (long, front, at, ← len, find_name) at h in
          find_url-shape name after f plain h'
    ]
  ]
    where
      malformed-ne : Found.malformed ≡ found l → ⊥
      malformed-ne h = cc

      front : take (length line) bytes ≡ line
      front = ap (take (length line)) e ∙ take-append _ line _ refl

pub find_line-shape : (bytes : List ℕ) (l : Line) → find_line bytes ≡ found l → HasShape bytes l
unfolding find_line
find_line-shape bytes l h = elim (Option-cases (stringa bytes crlf)) [
  | inl absent ↦ let h' = rw (absent, find_line) at h in absurd (incomplete-ne h')
  | inr (k, at) ↦
      let first = (stringa_lem bytes crlf k (λ e. cc)).0.0 at in
      let (rest, split, len) = crlf_split bytes k first.0 in
      let h' = rw (at, ← len, find_line) at h in
      find_name-shape bytes (take k bytes) rest l split (rw len first) h h'
]
  where
    incomplete-ne : Found.incomplete ≡ found l → ⊥
    incomplete-ne h = cc
