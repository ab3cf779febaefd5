-- ===== src/Http/Machine/Message.antt =====
-- A whole request in the buffer: `onion_http_request_parse` (src/onion/request.c) takes it through its
-- states.
use checks.Prelude.{
  ℕ, ◌+◌, ◌<◌, ◌≤◌, ◌≡◌, refl, ap, ◌∙◌, true, false, ◌&&◌, some, List, [], ◌∷◌, ◌++◌, ltb, length,
  drop, All, length-append, arith,
}
use mathlib.Core.List.{map}
use checks.Http.Allocator.{Allocator}
use checks.Http.Token.{method_list}
use checks.Http.Token.Choice.{HasRow}
use checks.Http.Buffer.{Buffer, contents, buff_consume}
use checks.Http.Buffer.Contents.{IsValid}
use checks.Http.Request.{
  ParseState, Request, Parsed, complete, failed, max_headers, line_max, request_init,
  request_append, request_reset, Header, parse_start_line,
}
use checks.Http.Request.RequestLine.{request_line, IsTarget}
use checks.Http.Request.StartLine.{with_line, parse_start_line-run, consume-line}
use checks.Http.Headers.{host_name, content_length}
use checks.Http.Headers.Field.{Field, fields_text, IsField}
use checks.Http.Headers.Table.{header_of, named, says_chunked, any_field, declared}
use checks.Http.Headers.Accepts.{Accepted, parse_headers-accepts, fields_text-append}
use checks.Http.Body.{parse_body}
use checks.Http.Body.Length.{ready, parse_body-content_length, parse_body-none}
use checks.Http.Machine.{
  Ended, returns, on_state, state_loop, request_parse, and_loop, behind_headers, behind_body,
}
use checks.Http.Machine.Ends.{state_loop-step}

-- A request in one piece: the line, the header lines with a Host among them, and the body.
pub record IsMessage (bytes name url : List ℕ) (m : ℕ) (fs : List Field) (body : List ℕ)
    : Type 0 where
  pub split : bytes ≡ request_line name url ++ fields_text fs body
  pub short : length bytes < line_max
  pub method : HasRow method_list name m
  pub target : IsTarget url
  pub fields : All IsField fs
  pub few : length fs ≤ max_headers
  pub host : any_field (λ g. named g host_name) fs ≡ true

-- What the server knows of a request that it has read.
pub record Understood (m : ℕ) (url : List ℕ) (fs : List Field) (content : List ℕ) (hs : List Header)
    (r : Request) : Type 0 where
  pub method : r.method ≡ m
  pub target : r.url ≡ some (url ++ (0 ∷ []))
  pub table : r.headers ≡ map header_of fs ++ drop (length fs) hs
  pub body : r.body ≡ some content
  pub ready : r.is_ready ≡ true
  pub next_state : r.state ≡ ParseState.done

-- The allocator has a block for each part of a message.
abbrev pub HasMessageRoom : Allocator → Type 0
HasMessageRoom a = (n : ℕ) → 0 < n → n ≤ line_max → (block : List ℕ) × (a.malloc n ≡ some block)

-- A successful step goes on with the loop.
and_loop-complete :
    (p : Parsed) (loop : Request → Buffer → Ended) → p.0 ≡ complete → and_loop p loop ≡ loop p.1 p.2
and_loop-complete p loop e = ap (λ c. and_loop (c, p.1, p.2) loop) e

module _ (a : Allocator) (room : HasMessageRoom a) (r : Request) (b : Buffer) (name url : List ℕ)
    (m : ℕ) (fs : List Field) (body : List ℕ) (size : length r.headers ≡ max_headers)
    (valid : IsValid b) (msg : IsMessage (contents b) name url m fs body) where
  abbrev fresh : Request
  fresh = request_append (request_init r) (length (contents b))

  abbrev line_length : ℕ
  line_length = length (request_line name url)

  -- The request when its line is read.
  abbrev lined : Request
  lined = with_line a (record fresh { state = ParseState.start_line }) b valid m url line_length

  abbrev behind_line : Buffer
  behind_line = buff_consume b line_length

  parts : length (contents b) ≡ line_length + length (fields_text fs []) + length body
  parts = omega (
    arith,
    ap length msg.split,
    length-append (request_line name url) (fields_text fs body),
    ap length (fields_text-append fs body),
    length-append (fields_text fs []) body,
  )

  line_read :
      parse_start_line a (record fresh { state = ParseState.start_line }) b
      ≡ (complete, lined, behind_line)
  line_read =
      let (block, memory) = room (length url + 1) (omega arith) (omega (arith, msg.target.fits)) in
      parse_start_line-run a _ b valid name url (fields_text fs body) block m msg.split msg.short
        msg.method msg.target memory

  to_headers : request_parse a fresh b ≡ state_loop a 2 lined behind_line
  unfolding request_parse on_state request_append request_init request_reset
  to_headers =
      state_loop-step a 3 fresh b refl
      ∙ state_loop-step a 2 (record fresh { state = ParseState.start_line }) b refl
      ∙ ap (λ p. and_loop p (state_loop a 2)) line_read

  -- The body is reached with the headers taken in.
  to_body :
      (p : Parsed) × (request_parse a fresh b ≡ behind_body (parse_body a p.1 p.2))
      × Accepted lined fs body p
  unfolding on_state request_append request_init request_reset
  to_body =
      let left =
        consume-line a (record fresh { state = ParseState.start_line }) b valid name url
          (fields_text fs body) msg.split in
      let (p, e, acc) =
        parse_headers-accepts a lined behind_line fs body (λ n pos le. room n pos (omega arith))
          left.0 size refl left.1 msg.fields msg.few msg.host in
      (
        p,
        to_headers
            ∙ state_loop-step a 1 lined behind_line refl
            ∙ ap (λ o. behind_headers o (state_loop a 1)) e
            ∙ and_loop-complete p (state_loop a 1) acc.reported
            ∙ state_loop-step a 0 p.1 p.2 acc.next_state,
        acc,
      )

  -- What the body parser finds in the request.
  module _ (plain : any_field says_chunked fs ≡ false) where
    abbrev read : Request
    read = to_body.0.1

    acc : Accepted lined fs body to_body.0
    acc = to_body.2

    not_chunked : read.is_chunked ≡ false
    unfolding request_append request_init request_reset
    not_chunked = acc.is_chunked ∙ plain

    sized : read.body_capacity ≡ declared 0 fs
    unfolding request_append request_init request_reset
    sized = acc.capacity not_chunked

    has_size : read.is_content_length ≡ any_field (λ f. named f content_length) fs
    unfolding request_append request_init request_reset
    has_size = acc.has_length not_chunked

    received : read.bytes_received ≡ read.header_end + length body
    unfolding request_append request_init request_reset
    received = omega (arith, acc.frame.3, acc.ended, parts)

    -- A body at least as long as declared.
    with_body :
        any_field (λ f. named f content_length) fs ≡ true
        → 0 < declared 0 fs
        → declared 0 fs ≤ length body
        → (q : Parsed) × (request_parse a fresh b ≡ returns q)
          × (q.0 ≡ complete)
          × Understood m url fs body r.headers q.1
    unfolding request_append request_init request_reset
    with_body has positive enough =
        let (block, memory) = room (length body) (omega arith) (omega (arith, parts, msg.short)) in
        (
          (complete, ready read body, to_body.0.2),
          to_body.1
              ∙ ap behind_body (
                  parse_body-content_length a read to_body.0.2 body block acc.valid acc.consumed
                    (omega (arith, parts, msg.short)) not_chunked (has_size ∙ has)
                    (omega (arith, sized)) received (omega (arith, sized)) memory),
          refl,
          record {
            method = acc.frame.0;
            target = acc.frame.1;
            table = acc.table;
            body = refl;
            ready = refl;
            next_state = refl;
          },
        )

    without_body :
        (any_field (λ f. named f content_length) fs && ltb 0 (declared 0 fs)) ≡ false
        → (q : Parsed) × (request_parse a fresh b ≡ returns q) × (q.0 ≡ failed)
    without_body h = (
      (failed, read, to_body.0.2),
      to_body.1
          ∙ ap behind_body
              (parse_body-none a read to_body.0.2 not_chunked (ground (arith, has_size, sized, h))),
      refl,
    )

-- A whole request that waits in the buffer is understood in one call, from a fresh slot: the call
-- returns 1, and the request holds the method, the target, the headers in order and, as its body,
-- every byte that waits behind the blank line, also those behind the declared length. Conditions: the
-- bytes are a request line, up to 24 header lines with a Host, a blank line and a body, less than 512
-- bytes in all, in a valid buffer; no header says chunked, and a Content-Length declares a size that is positive and at most
-- what waits; the allocator has a block for each part.
pub request_parse-message :
    (a : Allocator) (r : Request) (b : Buffer) (name url : List ℕ) (m : ℕ) (fs : List Field)
    (body : List ℕ)
    → HasMessageRoom a
    → length r.headers ≡ max_headers
    → IsValid b
    → IsMessage (contents b) name url m fs body
    → any_field says_chunked fs ≡ false
    → any_field (λ f. named f content_length) fs ≡ true
    → 0 < declared 0 fs
    → declared 0 fs ≤ length body
    → (q : Parsed) × (request_parse a (request_append (request_init r) (length (contents b))) b
        ≡ returns q)
      × (q.0 ≡ complete)
      × Understood m url fs body r.headers q.1
request_parse-message a r b name url m fs body room size valid msg plain has positive enough =
    with_body a room r b name url m fs body size valid msg plain has positive enough

-- A whole request with neither a chunked body nor a positive Content-Length, such as a plain GET, is
-- refused: the call returns -1. Conditions: the bytes are a request line, up to 24 header lines with a
-- Host, a blank line and any rest, less than 512 bytes in all; the slot is fresh; the allocator has a
-- block for each part.
pub request_parse-bodiless :
    (a : Allocator) (r : Request) (b : Buffer) (name url : List ℕ) (m : ℕ) (fs : List Field)
    (rest : List ℕ)
    → HasMessageRoom a
    → length r.headers ≡ max_headers
    → IsValid b
    → IsMessage (contents b) name url m fs rest
    → any_field says_chunked fs ≡ false
    → (any_field (λ f. named f content_length) fs && ltb 0 (declared 0 fs)) ≡ false
    → (q : Parsed) × (request_parse a (request_append (request_init r) (length (contents b))) b
        ≡ returns q)
      × (q.0 ≡ failed)
request_parse-bodiless a r b name url m fs rest room size valid msg plain none =
    without_body a room r b name url m fs rest size valid msg plain none
