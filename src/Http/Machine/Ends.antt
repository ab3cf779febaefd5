-- ===== src/Http/Machine/Ends.antt =====
-- When `onion_http_request_parse` (src/onion/request.c) ends.
use checks.Prelude.{
  ℕ, zero, suc, ◌+◌, ◌-◌, ◌≤◌, ◌<◌, ◌≡◌, refl, ap, ◌∙◌, ◌≢◌, inl, inr, false, ◌&&◌, ◌||◌, Option,
  none, some, [], ◌∷◌, ◌++◌, leb, ltb, ◌==◌, Bool-cases, Option-cases, if◌then◌else◌, take, arith,
}
use checks.Prelude.Memory.{window}
use checks.Http.Allocator.{Allocator}
use checks.Http.CString.{strtol_hex}
use checks.Http.Search.{stringa}
use checks.Http.Buffer.{Buffer, contents, data_len}
use checks.Http.Line.{crlf}
use checks.Http.Request.{
  ParseState, Request, max_headers, complete, more, failed, undefined, Parsed, parse_start_line,
}
use checks.Http.Request.Next.{parse_start_line-next}
use checks.Http.Headers.{
  blank_line, header_rounds, max_header_size, Outcome, reports, corrupts, Walk, walked, broken,
  wild, close_headers, parse_headers,
}
use checks.Http.Body.{
  leaves, goes_on, take_chunk, read_chunk, chunk_round, chunk_rounds, transfer_encoding_handle,
  content_length_handle, parse_body,
}
use checks.Http.Machine.{
  Ended, spins, on_state, state_loop, request_parse, and_loop, behind_headers,
}

-- Each chunk takes at least six bytes.
take_chunk-advances :
    (a : Allocator) (r r' : Request) (b b' : Buffer) (body_size sum line_len n sum' : ℕ)
    → take_chunk a r b body_size sum line_len n ≡ goes_on r' b' sum'
    → (sum < sum') × (sum' ≤ body_size)
unfolding take_chunk
take_chunk-advances a r r' b b' body_size sum line_len n sum' h = ground arith

read_chunk-advances :
    (a : Allocator) (r r' : Request) (b b' : Buffer) (body_size sum line_len sum' : ℕ)
    (n : Option ℕ)
    → read_chunk a r b body_size sum line_len n ≡ goes_on r' b' sum'
    → (sum < sum') × (sum' ≤ body_size)
unfolding read_chunk
read_chunk-advances a r r' b b' body_size sum line_len sum' none h = cc
read_chunk-advances a r r' b b' body_size sum line_len sum' (some n) h =
    elim (Bool-cases (leb 8192 n)) [
      | inl large ↦ let h' = rw (large, read_chunk) at h in absurd (leaves-ne h')
      | inr small ↦ elim (Bool-cases (n == 0)) [
        | inl last ↦ let h' = rw (small, last, read_chunk) at h in absurd (leaves-ne h')
        | inr more_data ↦
            let h' = rw (small, more_data, read_chunk) at h in
            take_chunk-advances a r r' b b' body_size sum line_len n sum' h'
      ]
    ]
  where
    leaves-ne : {p : Parsed} → leaves p ≡ goes_on r' b' sum' → ⊥
    leaves-ne h = cc

chunk_round-advances :
    (a : Allocator) (r r' : Request) (b b' : Buffer) (body_size sum sum' : ℕ)
    → chunk_round a r b body_size sum ≡ goes_on r' b' sum'
    → (sum < sum') × (sum' ≤ body_size)
unfolding chunk_round
chunk_round-advances a r r' b b' body_size sum sum' h =
    let bytes = window (b.start + sum) (body_size - sum) b.block in
    elim (Option-cases (stringa bytes crlf)) [
      | inl e ↦ let h' = rw (e, chunk_round) at h in absurd (leaves-ne h')
      | inr (n, e) ↦ elim (Bool-cases ((n == 0) || ltb 16 n)) [
        | inl bad ↦ let h' = rw (e, bad, chunk_round) at h in absurd (leaves-ne h')
        | inr good ↦
            let h' = rw (e, good, chunk_round) at h in
            read_chunk-advances a r r' b b' body_size sum n sum'
              (strtol_hex (take n bytes ++ (0 ∷ []))) h'
      ]
    ]
  where
    leaves-ne : {p : Parsed} → leaves p ≡ goes_on r' b' sum' → ⊥
    leaves-ne h = cc

chunk_rounds-ends :
    (a : Allocator) (fuel : ℕ) (r : Request) (b : Buffer) (body_size sum : ℕ)
    → sum ≤ body_size
    → body_size < sum + fuel
    → (p : Parsed) × (chunk_rounds a fuel r b body_size sum ≡ some p)
unfolding chunk_rounds
chunk_rounds-ends a zero r b body_size sum le h = absurd (omega arith)
chunk_rounds-ends a (suc fuel) r b body_size sum le h =
    elim (chunk_round a r b body_size sum)
        as (λ c.
          chunk_round a r b body_size sum ≡ c
          → (p : Parsed) × (chunk_rounds a (suc fuel) r b body_size sum ≡ some p)) [
            | leaves p ↦ λ e. (p, rw (e, chunk_rounds) refl)
            | goes_on r' b' sum' ↦ λ e.
                let more_sum = chunk_round-advances a r r' b b' body_size sum sum' e in
                rw (e, chunk_rounds)
                  (chunk_rounds-ends a fuel r' b' body_size sum' more_sum.1 (omega arith))
          ]
      refl

-- A body is always done with: the fuel for the chunks is enough.
pub parse_body-ends :
    (a : Allocator) (r : Request) (b : Buffer) → (p : Parsed) × (parse_body a r b ≡ some p)
unfolding parse_body transfer_encoding_handle
parse_body-ends a r b = elim (Bool-cases (leb 8192 (data_len b))) [
  | inl large ↦ ((failed, r, b), rw (large, parse_body) refl)
  | inr small ↦ elim (Bool-cases r.is_chunked) [
    | inr plain ↦ elim (Bool-cases (r.is_content_length && ltb 0 r.body_capacity)) [
      | inl counted ↦ (content_length_handle a r b, simp (small, plain, counted))
      | inr unknown ↦ ((failed, r, b), simp (small, plain, unknown))
    ]
    | inl chunked ↦ elim (Bool-cases (leb (data_len b) r.chunk_dirty)) [
      | inl nothing_new ↦ ((more, r, b), simp (small, chunked, nothing_new))
      | inr new_bytes ↦
          let (p, e) =
            chunk_rounds-ends a (data_len b + 1) r b (data_len b) r.chunk_dirty (ground arith)
              (omega arith) in
          (p, simp (small, chunked, new_bytes) e)
    ]
  ]
]

-- Headers that are accepted lead to the body.
close_headers-next :
    (b : Buffer) (n : ℕ) (w : Walk) (p : Parsed)
    → close_headers b n w ≡ reports p
    → p.0 ≡ complete
    → p.1.state ≡ ParseState.body
unfolding close_headers
close_headers-next b n (walked r) p h c = ground arith
close_headers-next b n (broken r) p h c = ground arith
close_headers-next b n wild p h c = cc

parse_headers-next :
    (a : Allocator) (r : Request) (b : Buffer) (p : Parsed)
    → parse_headers a r b ≡ reports p
    → p.0 ≡ complete
    → p.1.state ≡ ParseState.body
unfolding parse_headers
parse_headers-next a r b p h c = elim (Option-cases (stringa (contents b) blank_line)) [
  | inl e ↦ let h' = rw (e, parse_headers) at h in absurd (not_complete h')
  | inr (end, e) ↦
      let h' = rw (e, parse_headers) at h in
      close_headers-next b (end + 4) (header_rounds a (max_headers + 1) 0 r (contents b)) p h' c
]
  where
    not_complete :
        Outcome.reports (if leb max_header_size (data_len b) then failed else more, r, b)
          ≡ reports p
        → ⊥
    not_complete e = ground arith

-- What follows a `break` does not spin, if nothing behind it does.
and_loop-ends :
    (p : Parsed) (loop : Request → Buffer → Ended)
    → (p.0 ≡ complete → loop p.1 p.2 ≢ spins)
    → and_loop p loop ≢ spins
and_loop-ends (complete, r, b) loop h = h refl
and_loop-ends (more, r, b) loop h = λ e. cc
and_loop-ends (failed, r, b) loop h = λ e. cc
and_loop-ends (undefined, r, b) loop h = λ e. cc

module _ (a : Allocator) where
  pub state_loop-step :
      (fuel : ℕ) (r : Request) (b : Buffer) {s : ParseState}
      → r.state ≡ s
      → state_loop a (suc fuel) r b ≡ on_state a (state_loop a fuel) s r b
  unfolding state_loop
  state_loop-step fuel r b e = ap (λ s. on_state a (state_loop a fuel) s r b) e

  module _ (fuel : ℕ) (r : Request) (b : Buffer) where
    body-ends : r.state ≡ ParseState.body → state_loop a (suc fuel) r b ≢ spins
    unfolding on_state
    body-ends s = let (p, e) = parse_body-ends a r b in rw (state_loop-step fuel r b s, e) (λ h. cc)

  module _ (fuel : ℕ) (r : Request) (b : Buffer) where
    headers-ends : r.state ≡ ParseState.headers → state_loop a (suc (suc fuel)) r b ≢ spins
    unfolding on_state
    headers-ends s = rw (state_loop-step (suc fuel) r b s) (behind (parse_headers a r b) refl)
      where
        behind :
            (o : Outcome)
            → parse_headers a r b ≡ o
            → behind_headers o (state_loop a (suc fuel)) ≢ spins
        behind corrupts e = λ h. cc
        behind (reports p) e =
            and_loop-ends p (state_loop a (suc fuel))
              (λ c. body-ends fuel p.1 p.2 (parse_headers-next a r b p e c))

  module _ (fuel : ℕ) (r : Request) (b : Buffer) where
    start_line-ends :
        r.state ≡ ParseState.start_line → state_loop a (suc (suc (suc fuel))) r b ≢ spins
    unfolding on_state
    start_line-ends s = rw (state_loop-step (suc (suc fuel)) r b s) (
        and_loop-ends (parse_start_line a r b) (state_loop a (suc (suc fuel)))
          (λ c. headers-ends fuel _ _ (parse_start_line-next a r b c)))

  state_loop-ends :
      (fuel : ℕ) (r : Request) (b : Buffer) (s : ParseState)
      → r.state ≡ s
      → s ≢ ParseState.error
      → state_loop a (suc (suc (suc (suc fuel)))) r b ≢ spins
  unfolding on_state
  state_loop-ends fuel r b ParseState.start_line e n = start_line-ends (suc fuel) r b e
  state_loop-ends fuel r b ParseState.headers e n = headers-ends (suc (suc fuel)) r b e
  state_loop-ends fuel r b ParseState.body e n = body-ends (suc (suc (suc fuel))) r b e
  state_loop-ends fuel r b ParseState.done e n =
      rw (state_loop-step (suc (suc (suc fuel))) r b e) (start_line-ends fuel _ b refl)
  state_loop-ends fuel r b ParseState.error e n = absurd (n refl)

  state_loop-error :
      (fuel : ℕ) (r : Request) (b : Buffer)
      → r.state ≡ ParseState.error
      → state_loop a fuel r b ≡ spins
  unfolding on_state state_loop
  state_loop-error zero r b e = refl
  state_loop-error (suc fuel) r b e = state_loop-step fuel r b e ∙ state_loop-error fuel r b e

-- A call of the parser ends within four rounds of its loop, whatever the request and the buffer hold
-- and however the allocator answers, in each state but the one for errors; and in that one the loop
-- goes on for ever, unless the request is ready.
pub request_parse-ends :
    (a : Allocator) (r : Request) (b : Buffer)
    → (r.state ≢ ParseState.error → request_parse a r b ≢ spins)
      × (r.state ≡ ParseState.error
          → r.is_ready ≡ false
          → (fuel : ℕ) → state_loop a fuel r b ≡ spins)
unfolding request_parse
request_parse-ends a r b = (
  λ n. elim (Bool-cases r.is_ready) [
    | inl ready ↦ λ h. ground arith
    | inr waiting ↦ simp waiting (state_loop-ends a 0 r b r.state refl n)
  ],
  λ e _ fuel. state_loop-error a fuel r b e,
)
