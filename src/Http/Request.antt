-- ===== src/Http/Request.antt =====
-- `onion_http_request_t` of src/onion/request.h, its life cycle, and
-- `onion_http_parse_start_line` (src/onion/request.c). The debug print is left out.
pub mod RequestLine
pub mod StartLine
pub mod Sound
pub mod Next
use checks.Prelude.{
  ℕ, zero, suc, ◌+◌, ◌-◌, Bool, true, false, ◌&&◌, ◌||◌, not, Option, none, some, List, [], ◌∷◌,
  ◌++◌, ltb, leb, ◌==◌, if◌then◌else◌, length,
}
use checks.Prelude.Memory.{memcpy}
use checks.Http.Allocator.{Allocator}
use checks.Http.Token.{check_in_range, get_valid_method, get_valid_version, method_invalid}
use checks.Http.Buffer.{Buffer, contents, data_len, buff_consume}
use checks.Http.Line.{Line, Found, incomplete, malformed, found, find_line}

-- `request_parse_state_t`.
pub data ParseState : Type 0 where
  start_line : ParseState
  headers : ParseState
  body : ParseState
  done : ParseState
  error : ParseState

-- `ontion_http_header_t`. A string is its block of memory, the closing NUL with it, and `none` is
-- NULL.
pub record Header : Type 0 where
  pub name : Option (List ℕ)
  pub value : Option (List ℕ)

-- `onion_http_request_t`, less its allocator and the unused `last_len`. The table has 24 headers.
pub record Request : Type 0 where
  pub state : ParseState
  pub method : ℕ
  pub url : Option (List ℕ)
  pub version : Option ℕ
  pub headers : List Header
  pub header_count : ℕ
  pub body : Option (List ℕ)
  pub body_len : ℕ
  pub body_capacity : ℕ
  pub line_end : ℕ
  pub header_end : ℕ
  pub bytes_received : ℕ
  pub is_content_length : Bool
  pub is_chunked : Bool
  pub chunk_dirty : ℕ
  pub host : Bool
  pub is_active : Bool
  pub is_ready : Bool

-- `onion_token_report`: `REQUEST_LINE`, `MORE_REQUEST_LINE` and `ERROR_REQUEST_LINE`, and a call in which the
-- source does what C leaves open.
pub data Report : Type 0 where
  complete : Report
  more : Report
  failed : Report
  undefined : Report

-- `onion_http_request_reset`.
unfoldable pub request_reset : Request → Request
request_reset r = record r {
  state = done;
  header_count = 0;
  line_end = 0;
  header_end = 0;
  bytes_received = 0;
  body_len = 0;
  body_capacity = 0;
  host = false;
  is_content_length = false;
  is_chunked = false;
  chunk_dirty = 0;
  is_active = false;
  is_ready = false;
}

-- `onion_http_request_init`.
unfoldable pub request_init : Request → Request
unfolding request_reset
request_init r = record (request_reset r) { is_active = true }

abbrev pub no_header : Header
no_header = record { name = none; value = none }

-- The first `n` headers freed and NULL. What is freed goes back to the allocator.
unfoldable pub clear_headers : ℕ → List Header → List Header
clear_headers zero hs = hs
clear_headers (suc n) [] = []
clear_headers (suc n) (h ∷ hs) = no_header ∷ clear_headers n hs

-- `onion_http_cleanup_headers`.
unfoldable pub cleanup_headers : Request → ℕ → Request
cleanup_headers r up_to_index = record r { headers = clear_headers up_to_index r.headers }

-- `ONION_HTTP_MAX_HEADERS`.
abbrev pub max_headers : ℕ
max_headers = 24

-- `onion_http_request_exit`.
unfoldable pub request_exit : Request → Request
unfolding request_reset
request_exit r = record (request_reset r) {
  body = none;
  url = none;
  headers = clear_headers max_headers r.headers;
}

-- `onion_http_request_reinit`.
unfoldable pub request_reinit : Request → Request
unfolding request_exit request_init
request_reinit r = request_init (request_exit r)

-- `onion_http_request_append`.
unfoldable pub request_append : Request → ℕ → Request
request_append r n = record r { bytes_received = r.bytes_received + n }

-- The limits of src/onion/onion.h.
abbrev pub line_method_max : ℕ
line_method_max = 32

abbrev pub line_url_max : ℕ
line_url_max = 464

abbrev pub line_version_max : ℕ
line_version_max = 16

abbrev pub line_max : ℕ
line_max = line_method_max + line_url_max + line_version_max

-- The checks of the three sizes and of the bytes of the URL.
pub sizes_fit : Line → Bool
sizes_fit l =
    (ltb (length l.name) line_method_max && not (length l.name == 0))
    && (ltb (length l.url) line_url_max && not (length l.url == 0))
    && (ltb (length l.version) line_version_max && not (length l.version == 0))
    && check_in_range l.url 32 126 []

abbrev pub Parsed : Type 0
Parsed = Report × Request × Buffer

-- `onion_http_tok_alloc`: a copy with a closing NUL.
pub tok_alloc : Allocator → List ℕ → Option (List ℕ)
tok_alloc a src = elim (a.malloc (length src + 1)) [
  | none ↦ none
  | some block ↦ some (memcpy block 0 (src ++ (0 ∷ [])))
]

-- From the version on.
pub take_version : Request → Buffer → Line → Parsed
take_version r b l =
    let r' = record r { version = get_valid_version l.version } in
    elim (get_valid_version l.version) [
      | none ↦ (failed, r', b)
      | some v ↦ (
        complete,
        record r' { line_end = l.line_len + 2; state = headers },
        buff_consume b (l.line_len + 2),
      )
    ]

-- From the copy of the URL on.
pub take_url : Allocator → Request → Buffer → Line → Parsed
take_url a r b l = elim (tok_alloc a l.url) [
  | none ↦ (failed, record r { url = none }, b)
  | some url ↦ take_version (record r { url = some url }) b l
]

-- From the checks of the sizes on.
pub take_line : Allocator → Request → Buffer → Line → Parsed
take_line a r b l =
    let r' = record r { method = get_valid_method l.name } in
    if sizes_fit l
    then (if get_valid_method l.name == method_invalid then (failed, r', b) else take_url a r' b l)
    else (failed, r, b)

-- `onion_http_parse_start_line`.
pub parse_start_line : Allocator → Request → Buffer → Parsed
parse_start_line a r b =
    if leb line_max (data_len b) then (failed, r, b) else elim (find_line (contents b)) [
      | incomplete ↦ (more, r, b)
      | malformed ↦ (failed, r, b)
      | found l ↦ take_line a r b l
    ]
