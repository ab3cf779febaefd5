-- ===== src/Http/Body/Length.antt =====
-- A body with a Content-Length, and a request with no body (`onion_http_parse_body` of
-- src/onion/request.c).
use checks.Prelude.{
  ℕ, ◌+◌, ◌-◌, ◌%◌, ◌^◌, ◌<◌, ◌≤◌, ◌≡◌, sym, ap, ◌∙◌, true, false, some, List, leb, ltb, ◌&&◌,
  length, arith,
}
use checks.Prelude.Memory.{window, memcpy_whole}
use checks.Http.Allocator.{Allocator}
use checks.Http.Buffer.{Buffer, contents, data_len}
use checks.Http.Buffer.Contents.{IsValid, length-contents}
use checks.Http.Request.{ParseState, Request, complete, failed, request_reset}
use checks.Http.Body.{max_body_size, set_ready, report_ready, content_length_handle, parse_body}

-- The request when its body is complete.
abbrev pub ready : Request → List ℕ → Request
ready r body = record r {
  state = ParseState.done;
  header_count = 0;
  line_end = 0;
  header_end = 0;
  bytes_received = 0;
  body = some body;
  body_len = 0;
  body_capacity = length body;
  host = false;
  is_content_length = false;
  is_chunked = false;
  chunk_dirty = 0;
  is_active = false;
  is_ready = true;
}

pub set_ready-ok :
    (a : Allocator) (r : Request) (body block : List ℕ)
    → length body < max_body_size
    → a.malloc (length body) ≡ some block
    → set_ready a r body ≡ (true, ready r body)
unfolding set_ready request_reset
set_ready-ok a r body block small memory =
    let low : leb 8192 (length body) ≡ false = ground arith in
    rw (low, memory, set_ready)
      (ap (λ s. (true, record (ready r body) { body = some s }))
        (memcpy_whole block body (a.length-malloc (length body) block memory)))

module _ (a : Allocator) (r : Request) (b : Buffer) (body block : List ℕ) where
  -- All that waits is the body, and the sizes are counted as the connection counts them.
  pub content_length_handle-ok :
      IsValid b
      → contents b ≡ body
      → length body < max_body_size
      → r.bytes_received ≡ r.header_end + length body
      → r.body_capacity ≤ length body
      → a.malloc (length body) ≡ some block
      → content_length_handle a r b ≡ (complete, ready r body, b)
  unfolding content_length_handle
  content_length_handle-ok v all small counted enough memory =
      simp (size, covered) (ap (λ q. report_ready q b) stored)
    where
      len : data_len b ≡ length body
      len = sym (length-contents b v) ∙ ap length all

      size : (r.bytes_received + 2 ^ 64 - r.header_end) % 2 ^ 64 ≡ length body
      size = omega arith

      covered : leb r.body_capacity (length body) ≡ true
      covered = ground arith

      held : window b.start (length body) b.block ≡ body
      held = ap (λ k. window b.start k b.block) (sym len) ∙ all

      stored :
          set_ready a
            (record r { body_len = length body; is_ready = true })
            (window b.start (length body) b.block)
          ≡ (true, ready r body)
      stored = rw held (
          set_ready-ok a (record r { body_len = length body; is_ready = true }) body block small
            memory)

  pub parse_body-content_length :
      IsValid b
      → contents b ≡ body
      → length body < max_body_size
      → r.is_chunked ≡ false
      → r.is_content_length ≡ true
      → 0 < r.body_capacity
      → r.bytes_received ≡ r.header_end + length body
      → r.body_capacity ≤ length body
      → a.malloc (length body) ≡ some block
      → parse_body a r b ≡ some (complete, ready r body, b)
  unfolding parse_body
  parse_body-content_length v all small plain has positive counted enough memory =
      simp (low, plain, has, pos)
        (ap some (content_length_handle-ok v all small counted enough memory))
    where
      low : leb 8192 (data_len b) ≡ false
      low = ap (λ n. leb 8192 n) (sym (length-contents b v) ∙ ap length all) ∙ below
        where
          below : leb 8192 (length body) ≡ false
          below = ground arith

      pos : ltb 0 r.body_capacity ≡ true
      pos = ground arith

-- A request that has neither a chunked nor a positive Content-Length is refused.
pub parse_body-none :
    (a : Allocator) (r : Request) (b : Buffer)
    → r.is_chunked ≡ false
    → r.is_content_length && ltb 0 r.body_capacity ≡ false
    → parse_body a r b ≡ some (failed, r, b)
unfolding parse_body
parse_body-none a r b plain none = simp (plain, none) (ground arith)
