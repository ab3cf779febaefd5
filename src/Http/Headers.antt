-- ===== src/Http/Headers.antt =====
-- `onion_http_parse_headers` of src/onion/request.c.
pub mod Field
pub mod Store
pub mod Table
pub mod Accepts
use checks.Prelude.{
  ℕ, zero, suc, ◌+◌, ◌-◌, ◌*◌, Bool, true, false, ◌&&◌, ◌||◌, not, Option, none, some, List, [],
  ◌∷◌, leb, ltb, ◌==◌, if◌then◌else◌, length, take, drop, set, get_elem?,
}
use checks.Prelude.Memory.{window}
use checks.Http.Allocator.{Allocator}
use checks.Http.CString.{same_nocase, atoi}
use checks.Http.Search.{stringa}
use checks.Http.Token.{check_in_range, get_valid_header_name}
use checks.Http.Buffer.{Buffer, contents, data_len, buff_consume}
use checks.Http.Line.{crlf}
use checks.Http.Request.{
  ParseState, Request, Header, no_header, complete, more, failed, max_headers, cleanup_headers,
  tok_alloc, Report, Parsed,
}

-- The limits of src/onion/onion.h.
abbrev pub header_name_size : ℕ
header_name_size = 64

abbrev pub header_value_size : ℕ
header_value_size = 128

abbrev pub max_header_size : ℕ
max_header_size = max_headers * (header_name_size + header_value_size)

abbrev pub colon : List ℕ
colon = b':' ∷ []

abbrev pub blank_line : List ℕ
blank_line = 13 ∷ 10 ∷ 13 ∷ 10 ∷ []

abbrev pub host_name : List ℕ
host_name = b'H' ∷ b'o' ∷ b's' ∷ b't' ∷ []

abbrev pub transfer_encoding : List ℕ
transfer_encoding =
    b'T' ∷ b'r' ∷ b'a' ∷ b'n' ∷ b's' ∷ b'f' ∷ b'e' ∷ b'r' ∷ b'-' ∷ b'E' ∷ b'n' ∷ b'c' ∷ b'o' ∷ b'd'
    ∷ b'i' ∷ b'n' ∷ b'g' ∷ []

abbrev pub chunked : List ℕ
chunked = b'c' ∷ b'h' ∷ b'u' ∷ b'n' ∷ b'k' ∷ b'e' ∷ b'd' ∷ []

abbrev pub content_length : List ℕ
content_length =
    b'C' ∷ b'o' ∷ b'n' ∷ b't' ∷ b'e' ∷ b'n' ∷ b't' ∷ b'-' ∷ b'L' ∷ b'e' ∷ b'n' ∷ b'g' ∷ b't' ∷ b'h'
    ∷ []

-- What the loop does with the name and the value of a header that it has stored.
unfoldable pub note_header : Request → List ℕ → List ℕ → Request
note_header r name value =
    let r1 = if same_nocase name host_name then record r { host = true } else r in
    let r2 =
      if same_nocase name transfer_encoding && same_nocase value chunked
      then record r1 { is_chunked = true }
      else r1 in
    if not r2.is_chunked && same_nocase name content_length
    then record r2 { body_capacity = atoi value; is_content_length = true }
    else r2

-- The spaces at the front.
unfoldable pub count_spaces : List ℕ → ℕ
count_spaces [] = 0
count_spaces (c ∷ s) = if c == 32 then suc (count_spaces s) else 0

-- How a round of the loop ends: `break`, an error, the write of a header behind the table, or with
-- the request that the next round goes on from.
pub data Round : Type 0 where
  last_line : Round
  refused : Request → Round
  overrun : Round
  stored : Request → ℕ → Round

-- How the loop ends: behind it, at the error label, or by a write behind the table.
pub data Walk : Type 0 where
  walked : Request → Walk
  broken : Request → Walk
  wild : Walk

abbrev pub with_name : Header → Option (List ℕ) → Header
with_name h s = record h { name = s }

abbrev pub with_value : Header → Option (List ℕ) → Header
with_value h s = record h { value = s }

-- A write to a field of `request->headers[index]`.
abbrev pub set_header : Request → ℕ → (Header → Header) → Request
set_header r index f = elim (get_elem? r.headers index) [
  | none ↦ r
  | some h ↦ record r { headers = set r.headers index (f h) }
]

module _ (a : Allocator) where
  -- From the copy of the value on.
  unfoldable pub store_value : ℕ → Request → List ℕ → List ℕ → ℕ → Round
  store_value index r name value header_len = elim (tok_alloc a value) [
    | none ↦ refused (cleanup_headers (set_header r index (λ h. with_value h none)) index)
    | some text ↦
        let r1 = note_header (set_header r index (λ h. with_value h (some text))) name text in
        stored (record r1 { header_count = r1.header_count + 1 }) header_len
  ]

  -- From the copy of the name on, where `value` is the text behind the colon and its spaces.
  unfoldable pub store_name : ℕ → Request → List ℕ → List ℕ → ℕ → Round
  store_name index r name value header_len =
      if leb max_headers index then overrun else elim (tok_alloc a name) [
        | none ↦ refused (set_header r index (λ h. with_name h none))
        | some text ↦
            let r1 = set_header r index (λ h. with_name h (some text)) in
            if leb header_value_size (length value)
            then refused r1
            else if not (check_in_range value 32 255 (9 ∷ []))
            then refused r1
            else store_value index r1 text value header_len
      ]

  -- From the colon on. `bytes` begin at `ptr`; the spaces end before the CR.
  unfoldable pub split_header : ℕ → Request → List ℕ → ℕ → ℕ → Round
  split_header index r bytes header_len name_len =
      let behind = name_len + 1 in
      let val_start = behind + count_spaces (drop behind bytes) in
      let name = take name_len bytes in
      if leb header_name_size name_len
      then refused r
      else if not (get_valid_header_name name)
      then refused r
      else store_name index r name (window val_start (header_len - val_start) bytes) header_len

  -- One round of the loop.
  unfoldable pub header_round : ℕ → Request → List ℕ → Round
  header_round index r bytes = elim (stringa bytes crlf) [
    | none ↦ last_line
    | some header_len ↦
        if header_len == 0 then last_line else elim (stringa (take header_len bytes) colon) [
          | none ↦ refused r
          | some name_len ↦ split_header index r bytes header_len name_len
        ]
  ]

  -- The loop over the indices 0 to 24, of which `rounds` are left.
  unfoldable pub header_rounds : ℕ → ℕ → Request → List ℕ → Walk
  header_rounds zero index r bytes = walked r
  header_rounds (suc rounds) index r bytes = elim (header_round index r bytes) [
    | last_line ↦ walked r
    | refused r' ↦ broken r'
    | overrun ↦ wild
    | stored r' header_len ↦ header_rounds rounds (suc index) r' (drop (header_len + 2) bytes)
  ]

-- What a call returns: a report, or nothing where it writes behind the table.
pub data Outcome : Type 0 where
  reports : Parsed → Outcome
  corrupts : Outcome

-- Behind the loop.
unfoldable pub close_headers : Buffer → ℕ → Walk → Outcome
close_headers b total_size wild = corrupts
close_headers b total_size (broken r) = reports (failed, r, b)
close_headers b total_size (walked r) =
    if not r.host || ltb max_headers r.header_count
    then reports (failed, r, b)
    else reports (
      complete,
      record r { header_end = r.line_end + total_size; state = ParseState.body },
      buff_consume b total_size,
    )

-- `onion_http_parse_headers`.
unfoldable pub parse_headers : Allocator → Request → Buffer → Outcome
parse_headers a r b = elim (stringa (contents b) blank_line) [
  | none ↦ reports (if leb max_header_size (data_len b) then failed else more, r, b)
  | some end ↦ close_headers b (end + 4) (header_rounds a (max_headers + 1) 0 r (contents b))
]
