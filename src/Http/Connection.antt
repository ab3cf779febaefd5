-- ===== src/Http/Connection.antt =====
-- `onion_http_parser_t` of src/onion/parser.c: the parser of a connection, one receive buffer and eight
-- slots for requests.
pub mod Slots
pub mod Answers
pub mod Delivered
use checks.Prelude.{
  ℕ, zero, suc, ◌+◌, ◌%◌, Bool, true, false, Option, none, some, List, [], ◌∷◌, if◌then◌else◌,
  get_elem?, set, length,
}
use checks.Http.Allocator.{Allocator}
use checks.Http.Buffer.{
  Buffer, Appended, appended, refused, endless, buff_append, buff_init, buff_reinit, buff_exit,
}
use checks.Http.Request.{
  ParseState, Request, Report, complete, more, failed, undefined, line_max, request_init,
  request_append, request_exit,
}
use checks.Http.Machine.{Ended, returns, writes_wild, spins, request_parse}

-- Less the two allocators, which the operations take.
pub record Parser : Type 0 where
  pub req_buff : Buffer
  pub requests : List Request
  pub req_active : ℕ
  pub req_pos : ℕ
  pub req_head : ℕ

-- `ONION_HTTP_MAX_REQUESTS`.
abbrev pub max_requests : ℕ
max_requests = 8

-- `ONION_HTTP_MAX_MESSAGE_SIZE`.
abbrev pub max_message_size : ℕ
max_message_size = 13312

-- `onion_http_parser_request_type`.
pub data Answer : Type 0 where
  limit : Answer
  error : Answer
  ok : Answer

-- How a call ends: with an answer, by a write behind the header table, or not at all.
pub data Served : Type 0 where
  answers : Answer → Parser → Served
  corrupts : Served
  hangs : Served

abbrev pub is_busy : Option Request → Bool
is_busy none = false
is_busy (some r) = r.is_ready

-- The loop of `onion_http_find_free_request` from an index on, with its rounds left.
unfoldable pub find_from : Parser → ℕ → ℕ → Option ℕ
find_from p zero index = none
find_from p (suc rounds) index =
    let pos = (p.req_pos + index) % max_requests in
    let rest = find_from p rounds (suc index) in
    if is_busy (get_elem? p.requests pos) then rest else some pos

-- `onion_http_find_free_request`; `none` is -1.
unfoldable pub find_free_request : Parser → Option ℕ
find_free_request p = find_from p max_requests 0

abbrev pub is_error : ParseState → Bool
is_error ParseState.start_line = false
is_error ParseState.headers = false
is_error ParseState.body = false
is_error ParseState.done = false
is_error ParseState.error = true

abbrev pub count_received : ℕ → Request → Appended × Buffer → Appended × Request × Buffer
count_received n r (appended, b) = (appended, request_append r n, b)
count_received n r (refused, b) = (refused, r, b)
count_received n r (endless, b) = (endless, r, b)

-- The slot and the buffer written back.
abbrev pub with_slot : Parser → ℕ → Request → Buffer → Parser
with_slot p index r b = record p { req_buff = b; requests = set p.requests index r }

-- `parser_error_exit:`
unfoldable pub parser_error_exit : Parser → ℕ → Request → Buffer → Served
unfolding request_exit buff_exit
parser_error_exit p index r b = answers error (with_slot p index (request_exit r) (buff_exit b))

module _ (a : Allocator) where
  -- From the report of `onion_http_request_parse` on. Where there is no memory for a new buffer, the
  -- old one has been given back.
  unfoldable pub after_parse : Parser → ℕ → Ended → Served
  after_parse p index (returns (failed, r, b)) = parser_error_exit p index r b
  after_parse p index (returns (more, r, b)) = answers ok (with_slot p index r b)
  after_parse p index (returns (complete, r, b)) =
      elim (buff_reinit a b line_max max_message_size) [
        | none ↦ parser_error_exit p index r (buff_exit b)
        | some b' ↦ answers ok (with_slot p index r b')
      ]
  after_parse p index (returns (undefined, r, b)) = corrupts
  after_parse p index writes_wild = corrupts
  after_parse p index spins = hangs

  module _ (fuel : ℕ) where
    -- `onion_http_parser_request_append`. The fuel is for the append.
    unfoldable pub parser_request_append : Request → Buffer → List ℕ → Appended × Request × Buffer
    parser_request_append r b bytes =
        if is_error r.state
        then (refused, r, b)
        else count_received (length bytes) r (buff_append a fuel b bytes)

    module _ (messages : Allocator) where
      -- From the report of the append on.
      unfoldable pub after_append : Parser → ℕ → Appended × Request × Buffer → Served
      after_append p index (appended, r, b) = after_parse p index (request_parse messages r b)
      after_append p index (refused, r, b) = parser_error_exit p index r b
      after_append p index (endless, r, b) = hangs

      -- With the slot found. A slot that is not active is initialised first, which does not fail.
      unfoldable pub serve : Parser → List ℕ → ℕ → Request → Served
      serve p bytes index slot =
          let r = if slot.is_active then slot else request_init slot in
          after_append p index (parser_request_append r p.req_buff bytes)

      -- `onion_http_parser_request`. The search answers slots of the table only.
      unfoldable pub parser_request : Parser → List ℕ → Served
      parser_request p bytes = elim (find_free_request p) [
        | none ↦ answers limit p
        | some index ↦ elim (get_elem? p.requests index) [
          | none ↦ answers limit p
          | some slot ↦ serve p bytes index slot
        ]
      ]

-- `onion_http_parser_init`; `none` is -1. The slots are as the memory has them.
unfoldable pub parser_init : Allocator → Parser → Option Parser
parser_init a p = elim (buff_init a p.req_buff line_max max_message_size) [
  | none ↦ none
  | some b ↦ some (record p { req_buff = b; req_active = 0; req_pos = 0; req_head = 0 })
]

-- The loop of `onion_http_parser_exit`.
unfoldable pub exit_requests : ℕ → List Request → List Request
unfolding request_exit
exit_requests zero rs = rs
exit_requests (suc n) [] = []
exit_requests (suc n) (r ∷ rs) = request_exit r ∷ exit_requests n rs

-- `onion_http_parser_exit` of a parser whose buffer has been initialised.
unfoldable pub parser_exit : Parser → Parser
unfolding exit_requests buff_exit
parser_exit p = record p {
  requests = exit_requests p.req_active p.requests;
  req_buff = buff_exit p.req_buff;
}
