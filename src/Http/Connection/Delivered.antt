-- ===== src/Http/Connection/Delivered.antt =====
-- A request that a connection receives in one piece: `onion_http_parser_request` of src/onion/parser.c
-- with all that it calls.
use checks.Prelude.{
  ℕ, ◌-◌, ◌<◌, ◌≤◌, ◌≡◌, refl, sym, ap, ◌∙◌, true, false, ◌&&◌, some, List, [], ◌++◌, ltb, leb,
  get_elem?, get_elem?-set_self, subst, length, arith,
}
use checks.Prelude.Memory.{window}
use checks.Http.Allocator.{Allocator}
use checks.Http.Buffer.{
  Buffer, appended, contents, buff_append, buff_reinit, buff_init, buff_exit, copy_data,
}
use checks.Http.Buffer.Contents.{IsValid, copy_data-contents}
use checks.Http.Request.{
  Request, Parsed, complete, failed, line_max, max_headers, request_init, request_append,
  request_reset, request_exit,
}
use checks.Http.Headers.{content_length}
use checks.Http.Headers.Field.{Field}
use checks.Http.Headers.Table.{named, says_chunked, any_field, declared}
use checks.Http.Machine.{returns, request_parse}
use checks.Http.Machine.Message.{
  IsMessage, HasMessageRoom, Understood, request_parse-message, request_parse-bodiless,
}
use checks.Http.Connection.{
  Parser, answers, error, ok, hangs, max_requests, parser_error_exit, max_message_size,
  find_free_request, with_slot, after_parse, parser_request_append, after_append, serve,
  parser_request,
}
use checks.Http.Connection.Answers.{parser_request-after_error}

-- A connection that waits for a message: its buffer is new and empty.
pub record IsWaiting (p : Parser) : Type 0 where
  pub start : p.req_buff.start ≡ 0
  pub end : p.req_buff.end ≡ 0
  pub capacity : p.req_buff.capacity ≡ line_max
  pub limit : p.req_buff.limit ≡ max_message_size
  pub allocated : length p.req_buff.block ≡ line_max

-- A new buffer of the size that a connection starts with.
abbrev pub fresh_buffer : List ℕ → Buffer
fresh_buffer block = record {
  block = block;
  limit = max_message_size;
  capacity = line_max;
  start = 0;
  end = 0;
}

module _ (a messages : Allocator) (fuel : ℕ) (p : Parser) (index : ℕ) (slot : Request)
    (bytes : List ℕ) where
  append_whole :
      IsWaiting p
      → length bytes < line_max
      → buff_append a fuel p.req_buff bytes ≡ (appended, copy_data p.req_buff bytes)
  unfolding buff_append
  append_whole w short =
      let fits : leb (length bytes) (p.req_buff.capacity - p.req_buff.end) ≡ true =
        ground (arith, w.capacity, w.end) in
      rw (fits, buff_append) refl

  IsWaiting-IsValid : IsWaiting p → IsValid p.req_buff
  IsWaiting-IsValid w = record {
    ordered = omega (arith, w.start);
    inside = omega (arith, w.end);
    allocated = w.allocated ∙ sym w.capacity;
    not_empty = omega (arith, w.capacity);
    limited = omega (arith, w.capacity, w.limit);
    small = omega (arith, w.limit);
  }

  received :
      IsWaiting p
      → length bytes < line_max
      → IsValid (copy_data p.req_buff bytes) × (contents (copy_data p.req_buff bytes) ≡ bytes)
  received w short =
      let (valid, appended_to) =
        copy_data-contents p.req_buff bytes (IsWaiting-IsValid w)
          (omega (arith, w.end, w.capacity)) in
      (valid, appended_to ∙ ap (λ old. old ++ bytes) nothing)
    where
      none_waits : p.req_buff.end - p.req_buff.start ≡ 0
      none_waits = omega (arith, w.end)

      nothing : contents p.req_buff ≡ []
      nothing = ap (λ n. window p.req_buff.start n p.req_buff.block) none_waits

  -- The call up to the parser.
  serve-parse :
      IsWaiting p
      → length bytes < line_max
      → slot.is_active ≡ false
      → find_free_request p ≡ some index
      → get_elem? p.requests index ≡ some slot
      → parser_request a fuel messages p bytes
        ≡ after_parse a p index (
            request_parse messages
              (request_append (request_init slot) (length bytes))
              (copy_data p.req_buff bytes))
  unfolding parser_request serve request_init request_reset parser_request_append after_append
  serve-parse w short inactive found there =
      rw (found, there, inactive, append_whole w short, parser_request) refl

-- The report of a request that is ready.
after_parse-complete :
    (a : Allocator) (p : Parser) (index : ℕ) (q : Parsed) (block : List ℕ)
    → q.0 ≡ complete
    → a.malloc line_max ≡ some block
    → after_parse a p index (returns q) ≡ answers ok (with_slot p index q.1 (fresh_buffer block))
unfolding after_parse buff_reinit buff_init
after_parse-complete a p index q block done memory =
    ap (λ c. after_parse a p index (returns (c, q.1, q.2))) done ∙ rw (memory, after_parse) refl

-- The report of a request that is refused.
after_parse-failed :
    (a : Allocator) (p : Parser) (index : ℕ) (q : Parsed)
    → q.0 ≡ failed
    → after_parse a p index (returns q)
      ≡ answers error (with_slot p index (request_exit q.1) (buff_exit q.2))
unfolding after_parse parser_error_exit
after_parse-failed a p index q bad = ap (λ c. after_parse a p index (returns (c, q.1, q.2))) bad

-- A request without a body that a waiting connection receives in one piece is answered with error, and
-- the next call with data never returns. Conditions: the request is a request line, up to 24 header
-- lines with a Host, a blank line and any rest, less than 512 bytes in all; no header says chunked, and
-- no Content-Length declares a positive size; the table has its eight slots and the free one is not
-- active; the message allocator has a block for each part.
pub parser_request-bodiless :
    (a messages : Allocator) (fuel fuel' : ℕ) (p : Parser) (index : ℕ) (slot : Request)
    (bytes name url : List ℕ) (m : ℕ) (fs : List Field) (rest next : List ℕ)
    → IsWaiting p
    → length p.requests ≡ max_requests
    → find_free_request p ≡ some index
    → get_elem? p.requests index ≡ some slot
    → slot.is_active ≡ false
    → length slot.headers ≡ max_headers
    → IsMessage bytes name url m fs rest
    → any_field says_chunked fs ≡ false
    → (any_field (λ f. named f content_length) fs && ltb 0 (declared 0 fs)) ≡ false
    → HasMessageRoom messages
    → 0 < length next
    → (p' : Parser) × (parser_request a fuel messages p bytes ≡ answers error p')
      × (parser_request a fuel' messages p' next ≡ hangs)
parser_request-bodiless a messages fuel fuel' p index slot bytes name url m fs rest next w eight
      found there inactive size msg plain none room some_bytes =
    let b = copy_data p.req_buff bytes in
    let (valid, same) = received a messages fuel p index slot bytes w msg.short in
    let msg' : IsMessage (contents b) name url m fs rest =
      subst (λ s. IsMessage s name url m fs rest) (sym same) msg in
    let (q, run, bad) =
      request_parse-bodiless messages slot b name url m fs rest room size valid msg' plain none in
    let counted : request_parse messages (request_append (request_init slot) (length bytes)) b
        ≡ returns q =
      ap (λ s. request_parse messages (request_append (request_init slot) (length s)) b) (sym same)
      ∙ run in
    let p' = with_slot p index (request_exit q.1) (buff_exit q.2) in
    let refused : parser_request a fuel messages p bytes ≡ answers error p' =
      serve-parse a messages fuel p index slot bytes w msg.short inactive found there
      ∙ ap (after_parse a p index) counted
      ∙ after_parse-failed a p index q bad in
    (
      p',
      refused,
      parser_request-after_error a messages fuel fuel' p p' bytes next eight refused some_bytes,
    )

-- A message that a waiting connection receives in one piece is answered with ok in one call: the first
-- free slot holds the method, the target, the headers in order and the body, and the connection waits
-- again with a new, empty buffer. Conditions: the message is a request line, up to 24 header lines with
-- a Host, a blank line and a body, less than 512 bytes in all; no header says chunked; a Content-Length
-- declares a size that is positive and at most what follows the blank line; the free slot is not
-- active; the two allocators have a block for each part.
pub parser_request-message :
    (a messages : Allocator) (fuel : ℕ) (p : Parser) (index : ℕ) (slot : Request)
    (bytes name url : List ℕ) (m : ℕ) (fs : List Field) (body block : List ℕ)
    → IsWaiting p
    → find_free_request p ≡ some index
    → get_elem? p.requests index ≡ some slot
    → slot.is_active ≡ false
    → length slot.headers ≡ max_headers
    → index < length p.requests
    → IsMessage bytes name url m fs body
    → any_field says_chunked fs ≡ false
    → any_field (λ f. named f content_length) fs ≡ true
    → 0 < declared 0 fs
    → declared 0 fs ≤ length body
    → HasMessageRoom messages
    → a.malloc line_max ≡ some block
    → (p' : Parser) × (parser_request a fuel messages p bytes ≡ answers ok p')
      × IsWaiting p'
      × (r : Request) × (get_elem? p'.requests index ≡ some r)
      × Understood m url fs body slot.headers r
parser_request-message a messages fuel p index slot bytes name url m fs body block w found there
      inactive size inside msg plain has positive enough room memory =
    let b = copy_data p.req_buff bytes in
    let (valid, same) = received a messages fuel p index slot bytes w msg.short in
    let msg' : IsMessage (contents b) name url m fs body =
      subst (λ s. IsMessage s name url m fs body) (sym same) msg in
    let (q, run, done, understood) =
      request_parse-message messages slot b name url m fs body room size valid msg' plain has
        positive enough in
    let counted : request_parse messages (request_append (request_init slot) (length bytes)) b
        ≡ returns q =
      ap (λ s. request_parse messages (request_append (request_init slot) (length s)) b) (sym same)
      ∙ run in
    (
      with_slot p index q.1 (fresh_buffer block),
      serve-parse a messages fuel p index slot bytes w msg.short inactive found there
          ∙ ap (after_parse a p index) counted
          ∙ after_parse-complete a p index q block done memory,
      record {
        start = refl;
        end = refl;
        capacity = refl;
        limit = refl;
        allocated = a.length-malloc line_max block memory;
      },
      q.1,
      get_elem?-set_self p.requests index q.1 inside,
      understood,
    )
