-- ===== src/Http/Request/StartLine.antt =====
-- `onion_http_parse_start_line` (src/onion/request.c) accepts request lines and no other text.
use checks.Prelude.{
  ℕ, ◌+◌, ◌<◌, ◌≡◌, refl, ap, ◌∙◌, inl, true, false, some, List, [], ◌∷◌, ◌++◌, leb, ◌==◌, length,
  drop, length-append, drop-append, arith,
}
use checks.Http.Allocator.{Allocator}
use checks.Http.Token.{get_valid_method, get_valid_version, method_invalid, method_list}
use checks.Http.Token.Choice.{HasRow, get_valid_method_lem, get_valid_version_lem}
use checks.Http.Buffer.{Buffer, contents, data_len, buff_consume}
use checks.Http.Buffer.Contents.{IsValid, length-contents, buff_consume-drop}
use checks.Http.Line.{Line, found, crlf, find_line}
use checks.Http.Line.Shape.{text, Shape, line_of, find_line-found}
use checks.Http.Request.{
  Request, complete, headers, line_max, sizes_fit, tok_alloc, take_version, take_url, take_line,
  parse_start_line,
}
use checks.Http.Request.RequestLine.{
  http_1_1, request_line, IsTarget, Accepted, IsMethodName, HasRow-IsMethodName, request_line-Shape,
  tok_alloc-some, sizes_fit-line,
}

-- The successful branch of each step, as an equation.
module _ (a : Allocator) (r : Request) (b : Buffer) (l : Line) where
  take_line-ok :
      sizes_fit l ≡ true
      → (get_valid_method l.name == method_invalid) ≡ false
      → take_line a r b l ≡ take_url a (record r { method = get_valid_method l.name }) b l
  unfolding take_line
  take_line-ok fit known = rw (fit, known, take_line)

  take_url-ok :
      (url : List ℕ)
      → tok_alloc a l.url ≡ some url
      → take_url a r b l ≡ take_version (record r { url = some url }) b l
  unfolding take_url
  take_url-ok url e = rw (e, take_url)

  take_version-ok :
      (v : ℕ)
      → get_valid_version l.version ≡ some v
      → take_version r b l ≡ (
        complete,
        record r { version = some v; line_end = l.line_len + 2; state = headers },
        buff_consume b (l.line_len + 2),
      )
  unfolding take_version
  take_version-ok v e = rw (e, take_version) (rw e)

parse_start_line-found :
    (a : Allocator) (r : Request) (b : Buffer) (l : Line)
    → leb line_max (data_len b) ≡ false
    → find_line (contents b) ≡ found l
    → parse_start_line a r b ≡ take_line a r b l
unfolding parse_start_line
parse_start_line-found a r b l room e = rw (room, e, parse_start_line)

module _ (a : Allocator) (r : Request) (b : Buffer) (valid : IsValid b) where
  -- The request after its line is parsed.
  abbrev pub with_line : ℕ → List ℕ → ℕ → Request
  with_line m url line_end = record r {
    method = m;
    url = some (url ++ (0 ∷ []));
    version = some 0;
    line_end = line_end;
    state = headers;
  }

  pub parse_start_line-run :
      (name url rest block : List ℕ) (m : ℕ)
      → contents b ≡ request_line name url ++ rest
      → length (contents b) < line_max
      → HasRow method_list name m
      → IsTarget url
      → a.malloc (length url + 1) ≡ some block
      → let n = length (request_line name url) in
        parse_start_line a r b ≡ (complete, with_line m url n, buff_consume b n)
  parse_start_line-run name url rest block m e short row t memory =
      parse_start_line-found a r b l room
        (find_line-found (contents b) name url http_1_1 rest shape)
      ∙ take_line-ok a r b l (sizes_fit-line name url m n t) (rw is_m known)
      ∙ take_url-ok a _ b l _ (tok_alloc-some a url block memory)
      ∙ take_version-ok a _ b l 0 is_v
      ∙ ap (λ k. (complete, with_line k url (l.line_len + 2), buff_consume b (l.line_len + 2))) is_m
      ∙ ap (λ k. (complete, with_line m url k, buff_consume b k)) len
    where
      n : IsMethodName name m
      n = HasRow-IsMethodName name m row

      shape : Shape (contents b) name url http_1_1 rest
      shape = request_line-Shape (contents b) name url rest m e n t

      room : leb line_max (data_len b) ≡ false
      room = ground (arith, length-contents b valid)

      is_m : get_valid_method name ≡ m
      is_m = (get_valid_method_lem name m n.known).1 row

      known : (m == method_invalid) ≡ false
      known = ground (arith, n.known)

      is_v : get_valid_version http_1_1 ≡ some 0
      is_v = (get_valid_version_lem http_1_1 0).1 (inl (refl, refl))

      l : Line
      l = line_of name url http_1_1

      len : l.line_len + 2 ≡ length (request_line name url)
      len = omega (arith, length-append (text name url http_1_1) crlf)

  -- What a request line in front leaves when it is consumed.
  pub consume-line :
      (name url rest : List ℕ)
      → contents b ≡ request_line name url ++ rest
      → let b' = buff_consume b (length (request_line name url)) in
        IsValid b' × (contents b' ≡ rest)
  consume-line name url rest e =
      let n = length (request_line name url) in
      let left =
        buff_consume-drop b n valid
          (omega (arith, ap length e, length-append (request_line name url) rest)) in
      (left.0, left.1 ∙ ap (drop n) e ∙ drop-append n (request_line name url) rest refl)

  -- A buffer of less than 512 bytes that begins with a request line of a known method, a printable
  -- target of 1 to 463 bytes and HTTP/1.1: with memory for the target the parse succeeds, stores
  -- the three parts, leaves exactly what follows the line to be read and goes on to the headers.
  pub parse_start_line-accepts :
      (name url rest block : List ℕ) (m : ℕ)
      → contents b ≡ request_line name url ++ rest
      → length (contents b) < line_max
      → HasRow method_list name m
      → IsTarget url
      → a.malloc (length url + 1) ≡ some block
      → Accepted r b m url rest (parse_start_line a r b)
  parse_start_line-accepts name url rest block m e short row t memory =
      let left = consume-line name url rest e in
      rw (parse_start_line-run name url rest block m e short row t memory) (record {
        reported = refl;
        method = refl;
        target = refl;
        version = refl;
        next_state = refl;
        consumed = left.1;
        valid = left.0;
      })
