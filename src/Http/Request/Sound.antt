-- ===== src/Http/Request/Sound.antt =====
-- What `onion_http_parse_start_line` (src/onion/request.c) accepts is a request line.
use checks.Prelude.{
  ℕ, ◌+◌, ◌≤◌, ◌≡◌, refl, sym, ap, ◌∙◌, ◌≢◌, inl, inr, true, false, none, some, List, [], ◌∷◌, ◌++◌,
  append_assoc, leb, Bool-cases, Option-cases, length, All, arith,
}
use checks.Http.Allocator.{Allocator}
use checks.Http.Token.{
  get_valid_method, get_valid_version, method_invalid, method_list, version_list,
}
use checks.Http.Token.Choice.{HasRow, get_valid_method_lem, get_valid_version_lem}
use checks.Http.Token.Range.{InRange, check_in_range_lem}
use checks.Http.Buffer.{Buffer, contents, data_len}
use checks.Http.Buffer.Contents.{IsValid, length-contents}
use checks.Http.Line.{Line, Found, incomplete, malformed, found, space, crlf, find_line}
use checks.Http.Line.Shape.{text, Shape, find_line-shape}
use checks.Http.Request.{
  Request, complete, more, failed, line_max, sizes_fit, Parsed, tok_alloc, take_version, take_url,
  take_line, parse_start_line,
}
use checks.Http.Request.RequestLine.{http_1_1, request_line, IsTarget, Accepted}
use checks.Http.Request.StartLine.{parse_start_line-accepts}

-- Each step that reports success has taken its successful branch.
module _ (a : Allocator) (r : Request) (b : Buffer) where
  take_version-inv :
      (l : Line)
      → (take_version r b l).0 ≡ complete
      → (v : ℕ) × (get_valid_version l.version ≡ some v)
  unfolding take_version
  take_version-inv l h = elim (Option-cases (get_valid_version l.version)) [
    | inl e ↦ absurd (ground arith)
    | inr found_version ↦ found_version
  ]

  take_url-inv :
      (l : Line)
      → (take_url a r b l).0 ≡ complete
      → (url : List ℕ) × (tok_alloc a l.url ≡ some url)
        × ((take_version (record r { url = some url }) b l).0 ≡ complete)
  unfolding take_url
  take_url-inv l h = elim (Option-cases (tok_alloc a l.url)) [
    | inl e ↦ absurd (ground arith)
    | inr (url, e) ↦ (url, e, rw (e, take_url) at h)
  ]

  take_line-inv :
      (l : Line)
      → (take_line a r b l).0 ≡ complete
      → (sizes_fit l ≡ true)
        × (get_valid_method l.name ≢ method_invalid)
        × ((take_url a (record r { method = get_valid_method l.name }) b l).0 ≡ complete)
  unfolding take_line
  take_line-inv l h = (ground arith, ground arith, ground arith)

  parse_start_line-inv :
      (parse_start_line a r b).0 ≡ complete
      → (l : Line) × (leb line_max (data_len b) ≡ false)
        × (find_line (contents b) ≡ found l)
        × ((take_line a r b l).0 ≡ complete)
  unfolding parse_start_line
  parse_start_line-inv h = elim (Bool-cases (leb line_max (data_len b))) [
    | inl long ↦ absurd (ground arith)
    | inr short ↦ go (find_line (contents b)) refl short
  ]
    where
      go :
          (f : Found)
          → find_line (contents b) ≡ f
          → leb line_max (data_len b) ≡ false
          → (l : Line) × (leb line_max (data_len b) ≡ false)
            × (find_line (contents b) ≡ found l)
            × ((take_line a r b l).0 ≡ complete)
      go incomplete e short = let h' = rw (short, e, parse_start_line) at h in absurd (more-ne h')
        where
          more-ne : more ≡ complete → ⊥
          more-ne h = cc
      go malformed e short = let h' = rw (short, e, parse_start_line) at h in absurd (failed-ne h')
        where
          failed-ne : failed ≡ complete → ⊥
          failed-ne h = cc
      go (found l) e short = (l, short, e, rw (short, e, parse_start_line) at h)

tok_alloc-inv :
    (a : Allocator) (src block : List ℕ)
    → tok_alloc a src ≡ some block
    → (memory : List ℕ) × (a.malloc (length src + 1) ≡ some memory)
unfolding tok_alloc
tok_alloc-inv a src block h = elim (Option-cases (a.malloc (length src + 1))) [
  | inl e ↦ let h' = rw (e, tok_alloc) at h in absurd (none-ne h')
  | inr found_memory ↦ found_memory
]
  where
    none-ne : {x : List ℕ} → none ≡ some x → ⊥
    none-ne h = cc

-- A target that passes the checks, with no space in it.
sizes_fit-IsTarget : (l : Line) → sizes_fit l ≡ true → All (λ c. c ≢ space) l.url → IsTarget l.url
unfolding sizes_fit
sizes_fit-IsTarget l h plain = record {
  printable = both l.url plain ((check_in_range_lem l.url 32 126 []).0 (ground arith));
  some_bytes = ground arith;
  fits = ground arith;
}
  where
    both :
        (url : List ℕ)
        → All (λ c. c ≢ space) url
        → All (InRange 32 126 []) url
        → All (λ c. (33 ≤ c) × (c ≤ 126)) url
    both [] p q = tt
    both (c ∷ url) p q = (omega arith, both url p.1 q.1)

-- The text is a request line, and the request and the buffer are left as for that line.
abbrev pub AcceptedLine : Request → Buffer → Parsed → Type 0
AcceptedLine r b p =
    (name : List ℕ) × (url : List ℕ) × (rest : List ℕ) × (m : ℕ) × (contents b
      ≡ request_line name url ++ rest)
    × HasRow method_list name m
    × IsTarget url
    × Accepted r b m url rest p

Shape-AcceptedLine :
    (a : Allocator) (r : Request) (b : Buffer) (name url version rest memory : List ℕ) (v : ℕ)
    → IsValid b
    → Shape (contents b) name url version rest
    → leb line_max (data_len b) ≡ false
    → get_valid_method name ≢ method_invalid
    → get_valid_version version ≡ some v
    → IsTarget url
    → a.malloc (length url + 1) ≡ some memory
    → AcceptedLine r b (parse_start_line a r b)
Shape-AcceptedLine a r b name url version rest memory v valid shape short known is_v t got = (
  name,
  url,
  rest,
  get_valid_method name,
  text_is,
  row,
  t,
  parse_start_line-accepts a r b valid name url rest memory _ text_is
      (ground (arith, length-contents b valid)) row t got,
)
  where
    row : HasRow method_list name (get_valid_method name)
    row = (get_valid_method_lem name _ known).0 refl

    is_1_1 : HasRow version_list version v → version ≡ http_1_1
    is_1_1 (inl (e, _)) = e
    is_1_1 (inr h) = absurd h

    text_is : contents b ≡ request_line name url ++ rest
    text_is =
        shape.split
        ∙ ap (λ x. text name url x ++ (13 ∷ 10 ∷ rest))
            (is_1_1 ((get_valid_version_lem version v).0 is_v))
        ∙ sym (append_assoc (text name url http_1_1) crlf rest)

-- If `onion_http_parse_start_line` reports success on a valid buffer, then what waited to be read
-- was a request line of a known method, a printable target of 1 to 463 bytes and HTTP/1.1, and
-- some rest; and the request and the buffer are left as for that line.
pub parse_start_line_sound :
    (a : Allocator) (r : Request) (b : Buffer)
    → IsValid b
    → (parse_start_line a r b).0 ≡ complete
    → AcceptedLine r b (parse_start_line a r b)
parse_start_line_sound a r b valid h =
    let (l, short, at, h₁) = parse_start_line-inv a r b h in
    let (fit, known, h₂) = take_line-inv a r b l h₁ in
    let (block, allocated, h₃) = take_url-inv a _ b l h₂ in
    let (v, version) = take_version-inv a _ b l h₃ in
    let (memory, got) = tok_alloc-inv a l.url block allocated in
    let (name, url, ver, rest, shape, same) = find_line-shape (contents b) l at in
    let url_is : l.url ≡ url = ap (λ (x : Line). x.url) same in
    let target : IsTarget l.url = sizes_fit-IsTarget l fit (rw url_is shape.url_plain) in
    Shape-AcceptedLine a r b name url ver rest memory v valid shape short
      (rw (ap (λ (x : Line). x.name) same) at known)
      (rw (ap (λ (x : Line). x.version) same) at version) (rw url_is at target) (rw url_is at got)
