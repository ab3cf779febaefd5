-- ===== src/Http/Tests/Message.antt =====
-- Whole requests: runs of the HTTP parser, and its theorems at concrete inputs.
mod Connection
use checks.Prelude.{
  ℕ, zero, suc, ◌≡◌, ◌≢◌, refl, true, false, List, [], ◌∷◌, ◌++◌, length, replicate, All, get_elem?,
  ltb, ◌&&◌, arith,
}
use checks.Http.CString.{same_nocase, atoi, to_size, digits_from, digit, skip_blanks, is_blank}
use checks.Http.Token.Range.{is_tchar}
use checks.Http.Buffer.{Buffer}
use checks.Http.Buffer.Contents.{IsValid}
use checks.Http.Request.{ParseState, Request, Parsed, request_init, request_append}
use checks.Http.Request.RequestLine.{request_line}
use checks.Http.Headers.{parse_headers, reports, corrupts, host_name, content_length}
use checks.Http.Headers.Field.{Field, fields_text, IsField}
use checks.Http.Headers.Table.{named, says_chunked, any_field, declared}
use checks.Http.Headers.Accepts.{Accepted, parse_headers-accepts, parse_headers-overrun}
use checks.Http.Body.Chunks.{Chunk, chunks_text, IsChunk}
use checks.Http.Machine.{returns, spins, state_loop, request_parse}
use checks.Http.Machine.Ends.{request_parse-ends}
use checks.Http.Machine.Message.{IsMessage, Understood, HasMessageRoom, request_parse-message}
use checks.Http.Connection.{
  Parser, answers, error, ok, hangs, find_from, find_free_request, parser_request,
}
use checks.Http.Connection.Slots.{IsFirstFree, find_free_request_lem}
use checks.Http.Connection.Answers.{parser_request-after_error}
use checks.Http.Connection.Delivered.{
  IsWaiting, fresh_buffer, parser_request-message, parser_request-bodiless,
}
use checks.Http.Tests.{zeroed, roomy, blank, get_method, slash-IsTarget, get_row}

-- `Host: a` and `Content-Length: 2`.
abbrev host_field : Field
host_field = record { name = b'H' ∷ b'o' ∷ b's' ∷ b't' ∷ []; spaces = 1; value = b'a' ∷ [] }

abbrev length_field : Field
length_field = record { name = content_length; spaces = 1; value = b'2' ∷ [] }

host_field-IsField : IsField host_field
unfolding is_tchar
host_field-IsField = ground arith

length_field-IsField : IsField length_field
unfolding is_tchar
length_field-IsField = ground arith

abbrev two_fields : List Field
two_fields = host_field ∷ length_field ∷ []

two_host : any_field (λ g. named g host_name) two_fields ≡ true
unfolding same_nocase
two_host = refl

two_plain : any_field says_chunked two_fields ≡ false
unfolding same_nocase
two_plain = refl

two_length : any_field (λ g. named g content_length) two_fields ≡ true
unfolding same_nocase
two_length = refl

two_declared : declared 0 two_fields ≡ 2
unfolding same_nocase atoi to_size digits_from digit skip_blanks is_blank
two_declared = refl

one_host : any_field (λ g. named g host_name) (host_field ∷ []) ≡ true
unfolding same_nocase
one_host = refl

one_plain : any_field says_chunked (host_field ∷ []) ≡ false
unfolding same_nocase
one_plain = refl

one_length :
    (any_field (λ g. named g content_length) (host_field ∷ [])
      && ltb 0 (declared 0 (host_field ∷ [])))
    ≡ false
unfolding same_nocase
one_length = refl

abbrev slash : List ℕ
slash = b'/' ∷ []

abbrev hi : List ℕ
hi = b'h' ∷ b'i' ∷ []

-- A buffer that holds just these bytes.
abbrev holding : List ℕ → Buffer
holding bytes = record {
  block = bytes;
  limit = 1024;
  capacity = length bytes;
  start = 0;
  end = length bytes;
}

abbrev head_waits : Buffer
head_waits = holding (fields_text two_fields hi)

head_waits-IsValid : IsValid head_waits
head_waits-IsValid = omega arith

roomy_message : HasMessageRoom roomy
roomy_message n pos le = (zeroed n, refl)

parse_headers-accepts_example :
    (p : Parsed) × (parse_headers roomy blank head_waits ≡ reports p)
    × Accepted blank two_fields hi p
parse_headers-accepts_example =
    parse_headers-accepts roomy blank head_waits two_fields hi (λ n pos le. (zeroed n, refl))
      head_waits-IsValid refl refl refl (host_field-IsField, (length_field-IsField, tt))
      (omega arith) two_host

abbrev many_fields : List Field
many_fields = replicate 25 host_field

All-replicate : (n : ℕ) → All IsField (replicate n host_field)
All-replicate zero = tt
All-replicate (suc n) = (host_field-IsField, All-replicate n)

parse_headers-overrun_example :
    parse_headers roomy blank (holding (fields_text many_fields [])) ≡ corrupts
parse_headers-overrun_example =
    parse_headers-overrun roomy blank (holding (fields_text many_fields [])) many_fields []
      (λ n pos le. (zeroed n, refl)) refl (All-replicate 25) (omega arith)

request_parse-ends_example :
    (blank.state ≢ ParseState.error → request_parse roomy blank head_waits ≢ spins)
    × (blank.state ≡ ParseState.error
        → blank.is_ready ≡ false
        → (fuel : ℕ) → state_loop roomy fuel blank head_waits ≡ spins)
request_parse-ends_example = request_parse-ends roomy blank head_waits

abbrev message : List ℕ
message = request_line get_method slash ++ fields_text two_fields hi

message-IsMessage : IsMessage message get_method slash 0 two_fields hi
message-IsMessage = record {
  split = refl;
  short = omega arith;
  method = get_row;
  target = slash-IsTarget;
  fields = (host_field-IsField, (length_field-IsField, tt));
  few = omega arith;
  host = two_host;
}

abbrev plain_get : List ℕ
plain_get = request_line get_method slash ++ fields_text (host_field ∷ []) []

plain-IsMessage : IsMessage plain_get get_method slash 0 (host_field ∷ []) []
plain-IsMessage = record {
  split = refl;
  short = omega arith;
  method = get_row;
  target = slash-IsTarget;
  fields = (host_field-IsField, tt);
  few = omega arith;
  host = one_host;
}

-- `2`, `hi`, `0` and a blank line.
abbrev hi_chunk : Chunk
hi_chunk = record { size_line = b'2' ∷ []; payload = hi }

abbrev chunks_wait : Buffer
chunks_wait = holding (chunks_text (hi_chunk ∷ []) (b'0' ∷ []) (13 ∷ 10 ∷ []))
