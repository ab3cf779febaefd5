-- ===== src/Http/Request/RequestLine.antt =====
-- The request lines that `onion_http_parse_start_line` (src/onion/request.c) is meant for, and how its
-- steps treat them.
use checks.Prelude.{
  ℕ, zero, suc, ◌+◌, ◌<◌, ◌≤◌, ◌≡◌, refl, ap, ◌∙◌, ◌≢◌, inl, inr, true, some, List, [], ◌∷◌, ◌++◌,
  append_assoc, length, All, All-append, length-append, drop-append, arith,
}
use checks.Prelude.Memory.{memcpy_whole}
use checks.Http.Allocator.{Allocator}
use checks.Http.Token.{method_invalid, method_list}
use checks.Http.Token.Choice.{HasRow}
use checks.Http.Token.Range.{check_in_range_lem}
use checks.Http.Search.Stringa.{OccursAt}
use checks.Http.Buffer.{Buffer, contents}
use checks.Http.Buffer.Contents.{IsValid}
use checks.Http.Line.{space, crlf}
use checks.Http.Line.Shape.{text, Shape, line_of}
use checks.Http.Request.{Request, complete, headers, line_url_max, sizes_fit, Parsed, tok_alloc}

abbrev pub http_1_1 : List ℕ
http_1_1 = b'H' ∷ b'T' ∷ b'T' ∷ b'P' ∷ b'/' ∷ b'1' ∷ b'.' ∷ b'1' ∷ []

-- A line `method SP url SP HTTP/1.1 CR LF`.
abbrev pub request_line : List ℕ → List ℕ → List ℕ
request_line name url = text name url http_1_1 ++ crlf

-- A target that the server takes: printable ASCII with no space, of 1 to 463 bytes.
pub record IsTarget (url : List ℕ) : Type 0 where
  pub printable : All (λ c. (33 ≤ c) × (c ≤ 126)) url
  pub some_bytes : 0 < length url
  pub fits : length url < line_url_max

-- What a successful parse leaves behind.
pub record Accepted (r : Request) (b : Buffer) (m : ℕ) (url rest : List ℕ) (p : Parsed)
    : Type 0 where
  pub reported : p.0 ≡ complete
  pub method : p.1.method ≡ m
  pub target : p.1.url ≡ some (url ++ (0 ∷ []))
  pub version : p.1.version ≡ some 0
  pub next_state : p.1.state ≡ headers
  pub consumed : contents p.2 ≡ rest
  pub valid : IsValid p.2

pub All-map : (P Q : ℕ → Type 0) (xs : List ℕ) → ((c : ℕ) → P c → Q c) → All P xs → All Q xs
All-map P Q [] f h = tt
All-map P Q (c ∷ xs) f h = (f c h.0, All-map P Q xs f h.1)

-- No CR LF begins inside a text with no CR.
no_crlf :
    (xs rest : List ℕ) (j : ℕ)
    → All (λ c. c ≢ 13) xs
    → j < length xs
    → ¬ OccursAt (xs ++ rest) crlf j
no_crlf [] rest j h lt = absurd (omega arith)
no_crlf (x ∷ xs) rest zero h lt = λ e. h.0 (cc)
no_crlf (x ∷ xs) rest (suc j) h lt = no_crlf xs rest j h.1 (omega arith)

-- What the seven method names have in common.
pub record IsMethodName (name : List ℕ) (m : ℕ) : Type 0 where
  pub plain : All (λ c. (c ≢ space) × (c ≢ 13)) name
  pub some_bytes : 0 < length name
  pub fits : length name < 32
  pub known : m ≢ method_invalid

pub HasRow-IsMethodName : (name : List ℕ) (m : ℕ) → HasRow method_list name m → IsMethodName name m
HasRow-IsMethodName name m (inl (n, t)) = rw (n, t) (omega arith)
HasRow-IsMethodName name m (inr (inl (n, t))) = rw (n, t) (omega arith)
HasRow-IsMethodName name m (inr (inr (inl (n, t)))) = rw (n, t) (omega arith)
HasRow-IsMethodName name m (inr (inr (inr (inl (n, t))))) = rw (n, t) (omega arith)
HasRow-IsMethodName name m (inr (inr (inr (inr (inl (n, t)))))) = rw (n, t) (omega arith)
HasRow-IsMethodName name m (inr (inr (inr (inr (inr (inl (n, t))))))) = rw (n, t) (omega arith)
HasRow-IsMethodName name m (inr (inr (inr (inr (inr (inr (inl (n, t)))))))) =
    rw (n, t) (omega arith)
HasRow-IsMethodName name m (inr (inr (inr (inr (inr (inr (inr h))))))) = absurd h

-- The bytes of a request line have its shape.
pub request_line-Shape :
    (bytes name url rest : List ℕ) (m : ℕ)
    → bytes ≡ request_line name url ++ rest
    → IsMethodName name m
    → IsTarget url
    → Shape bytes name url http_1_1 rest
request_line-Shape bytes name url rest m e n t = record {
  split = split;
  name_plain = All-map _ _ name (λ c h. h.0) n.plain;
  url_plain = All-map _ _ url (λ c h. omega arith) t.printable;
  first = rw split (at, λ j lt. no_crlf whole (13 ∷ 10 ∷ rest) j no_return lt);
}
  where
    whole : List ℕ
    whole = text name url http_1_1

    split : bytes ≡ text name url http_1_1 ++ (13 ∷ 10 ∷ rest)
    split = e ∙ append_assoc (text name url http_1_1) crlf rest

    at :
        OccursAt (text name url http_1_1 ++ (13 ∷ 10 ∷ rest)) crlf (length (text name url http_1_1))
    at = rw (drop-append _ (text name url http_1_1) (13 ∷ 10 ∷ rest) refl)

    no_return : All (λ c. c ≢ 13) (text name url http_1_1)
    no_return =
        All-append (λ c. c ≢ 13) name (space ∷ (url ++ (space ∷ http_1_1)))
          (All-map _ _ name (λ c h. h.1) n.plain)
          (
            omega arith,
            All-append (λ c. c ≢ 13) url (space ∷ http_1_1)
                (All-map _ _ url (λ c h. omega arith) t.printable) (omega arith),
          )

pub tok_alloc-some :
    (a : Allocator) (src block : List ℕ)
    → a.malloc (length src + 1) ≡ some block
    → tok_alloc a src ≡ some (src ++ (0 ∷ []))
unfolding tok_alloc
tok_alloc-some a src block e =
    rw (e, tok_alloc)
      (ap some (
        memcpy_whole block (src ++ (0 ∷ []))
          (omega (arith, a.length-malloc _ block e, length-append src (0 ∷ [])))))

pub sizes_fit-line :
    (name url : List ℕ) (m : ℕ)
    → IsMethodName name m
    → IsTarget url
    → sizes_fit (line_of name url http_1_1) ≡ true
unfolding sizes_fit
sizes_fit-line name url m n t = ground (
  arith,
  (check_in_range_lem url 32 126 []).1 (All-map _ _ url (λ c h. inl (omega arith)) t.printable),
)
