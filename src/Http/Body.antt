-- ===== src/Http/Body.antt =====
-- The bodies of src/onion/request.c: `onion_http_parse_body`, the two ways to read a body, and
-- `http_request_set_ready`.
pub mod Length
pub mod Chunks
pub mod Chunked
use checks.Prelude.{
  ℕ, zero, suc, ◌+◌, ◌-◌, ◌%◌, ◌^◌, Bool, true, false, ◌&&◌, ◌||◌, Option, none, some, List, [],
  ◌∷◌, ◌++◌, leb, ltb, ◌==◌, if◌then◌else◌, length, take,
}
use checks.Prelude.Memory.{memcpy, window}
use checks.Http.Allocator.{Allocator}
use checks.Http.CString.{strtol_hex}
use checks.Http.Search.{stringa}
use checks.Http.Buffer.{Buffer, data_len}
use checks.Http.Line.{crlf}
use checks.Http.Request.{
  ParseState, Request, Report, complete, more, failed, undefined, Parsed, request_reset,
}

-- `ONION_HTTP_MAX_BODY_SIZE`.
abbrev pub max_body_size : ℕ
max_body_size = 8192

-- `http_request_set_ready` for the bytes `src`: whether it returns 0, and the request.
unfoldable pub set_ready : Allocator → Request → List ℕ → Bool × Request
unfolding request_reset
set_ready a r src =
    if leb max_body_size (length src) then (false, r) else elim (a.malloc (length src)) [
      | none ↦ (false, record r { body = none })
      | some block ↦
          let r1 = record r { body = some (memcpy block 0 src) } in
          (
            true,
            record (request_reset r1) {
              body_capacity = length src;
              state = ParseState.done;
              is_ready = true;
            },
          )
    ]

-- Whether `n` bytes at two places have a byte in common.
abbrev pub overlap : ℕ → ℕ → ℕ → Bool
overlap to from n = ltb to (from + n) && ltb from (to + n)

-- The report on a body that is complete.
abbrev pub report_ready : Bool × Request → Buffer → Parsed
report_ready (true, r) b = (complete, r, b)
report_ready (false, r) b = (failed, r, b)

-- How a round of the chunk loop ends: with a return, or in the next round from `sum_size` on.
pub data ChunkRound : Type 0 where
  leaves : Parsed → ChunkRound
  goes_on : Request → Buffer → ℕ → ChunkRound

module _ (a : Allocator) where
  -- A chunk of `n` bytes behind its line. C leaves open what a `memcpy` does where the two places overlap.
  unfoldable pub take_chunk : Request → Buffer → ℕ → ℕ → ℕ → ℕ → ChunkRound
  take_chunk r b body_size sum_size line_len n =
      let total_need = line_len + 2 + n + 2 in
      let chunk = window (b.start + sum_size + line_len + 2) n b.block in
      if ltb (body_size - sum_size) total_need
      then leaves (more, r, b)
      else if leb max_body_size (r.bytes_received + n)
      then leaves (failed, r, b)
      else if overlap r.body_len (sum_size + line_len + 2) n
      then leaves (undefined, r, b)
      else goes_on
          (record r { body_len = r.body_len + n; chunk_dirty = r.chunk_dirty + total_need })
          (record b { block = memcpy b.block (b.start + r.body_len) chunk }) (sum_size + total_need)

  -- From the number of the line on.
  unfoldable pub read_chunk : Request → Buffer → ℕ → ℕ → ℕ → Option ℕ → ChunkRound
  read_chunk r b body_size sum_size line_len none = leaves (failed, r, b)
  read_chunk r b body_size sum_size line_len (some n) =
      if leb max_body_size n
      then leaves (failed, r, b)
      else if n == 0
      then leaves (report_ready (set_ready a r (window b.start r.body_len b.block)) b)
      else take_chunk r b body_size sum_size line_len n

  -- One round of the loop of `onion_http_transfer_encoding_handle`.
  unfoldable pub chunk_round : Request → Buffer → ℕ → ℕ → ChunkRound
  chunk_round r b body_size sum_size =
      let bytes = window (b.start + sum_size) (body_size - sum_size) b.block in
      elim (stringa bytes crlf) [
        | none ↦ leaves (more, r, b)
        | some line_len ↦
            if (line_len == 0) || ltb 16 line_len
            then leaves (more, r, b)
            else read_chunk r b body_size sum_size line_len
                (strtol_hex (take line_len bytes ++ (0 ∷ [])))
      ]

  -- The loop; `none` means that the fuel ran out.
  unfoldable pub chunk_rounds : ℕ → Request → Buffer → ℕ → ℕ → Option Parsed
  chunk_rounds zero r b body_size sum_size = none
  chunk_rounds (suc fuel) r b body_size sum_size = elim (chunk_round r b body_size sum_size) [
    | leaves p ↦ some p
    | goes_on r' b' sum_size' ↦ chunk_rounds fuel r' b' body_size sum_size'
  ]

  -- `onion_http_transfer_encoding_handle`.
  unfoldable pub transfer_encoding_handle : ℕ → Request → Buffer → ℕ → Option Parsed
  transfer_encoding_handle fuel r b body_size =
      if leb body_size r.chunk_dirty
      then some (more, r, b)
      else chunk_rounds fuel r b body_size r.chunk_dirty

  -- `onion_http_content_length_handle`. The difference of the two sizes wraps. The bytes that
  -- are copied wait in the buffer, as long as the request counts what the buffer is given.
  unfoldable pub content_length_handle : Request → Buffer → Parsed
  content_length_handle r b =
      let bytes_received = (r.bytes_received + 2 ^ 64 - r.header_end) % 2 ^ 64 in
      let r1 = record r { body_len = bytes_received } in
      if leb r.body_capacity bytes_received
      then report_ready
          (set_ready a (record r1 { is_ready = true }) (window b.start bytes_received b.block)) b
      else (more, r1, b)

  -- `onion_http_parse_body`. The fuel is for the chunks; one more than the bytes that wait is enough.
  unfoldable pub parse_body : Request → Buffer → Option Parsed
  parse_body r b =
      let body_size = data_len b in
      if leb max_body_size body_size
      then some (failed, r, b)
      else if r.is_chunked
      then transfer_encoding_handle (body_size + 1) r b body_size
      else if r.is_content_length && ltb 0 r.body_capacity
      then some (content_length_handle r b)
      else some (failed, r, b)
