-- ===== src/Http/Request/Next.antt =====
-- The state that a successful `onion_http_parse_start_line` (src/onion/request.c) leads to.
use checks.Prelude.{◌≡◌, refl, inl, inr, leb, Bool-cases, Option-cases}
use checks.Prelude.{arith}
use checks.Http.Allocator.{Allocator}
use checks.Http.Token.{get_valid_version}
use checks.Http.Buffer.{Buffer, contents, data_len}
use checks.Http.Line.{Line, incomplete, malformed, found, find_line}
use checks.Http.Request.{
  ParseState, Request, complete, line_max, tok_alloc, take_version, take_url, take_line,
  parse_start_line,
}

-- A start line that is accepted leads to the headers.
module _ (a : Allocator) (r : Request) (b : Buffer) where
  take_version-next :
      (l : Line)
      → (take_version r b l).0 ≡ complete
      → (take_version r b l).1.state ≡ ParseState.headers
  unfolding take_version
  take_version-next l h = elim (Option-cases (get_valid_version l.version)) [
    | inl e ↦ absurd (ground arith)
    | inr (v, e) ↦ ground arith
  ]

  take_url-next :
      (l : Line) → (take_url a r b l).0 ≡ complete → (take_url a r b l).1.state ≡ ParseState.headers
  unfolding take_url take_version
  take_url-next l h = elim (Option-cases (tok_alloc a l.url)) [
    | inl e ↦ absurd (ground arith)
    | inr (url, e) ↦ ground arith
  ]

  take_line-next :
      (l : Line)
      → (take_line a r b l).0 ≡ complete
      → (take_line a r b l).1.state ≡ ParseState.headers
  unfolding take_line take_url take_version
  take_line-next l h = ground arith

  pub parse_start_line-next :
      (parse_start_line a r b).0 ≡ complete → (parse_start_line a r b).1.state ≡ ParseState.headers
  unfolding parse_start_line
  parse_start_line-next h = elim (Bool-cases (leb line_max (data_len b))) [
    | inl long ↦ ground arith
    | inr short ↦
        elim (find_line (contents b))
            as (λ f.
              find_line (contents b) ≡ f → (parse_start_line a r b).1.state ≡ ParseState.headers) [
                | incomplete ↦ λ e. ground arith
                | malformed ↦ λ e. ground arith
                | found l ↦ λ e. ground (arith, take_line-next l)
              ]
          refl
  ]
