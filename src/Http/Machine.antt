-- ===== src/Http/Machine.antt =====
-- The state machine `onion_http_request_parse` of src/onion/request.c.
pub mod Ends
pub mod Message
use checks.Prelude.{ℕ, zero, suc, Bool, true, false, Option, none, some, if◌then◌else◌}
use checks.Http.Allocator.{Allocator}
use checks.Http.Buffer.{Buffer}
use checks.Http.Request.{
  ParseState, Request, Report, complete, more, failed, undefined, Parsed, parse_start_line,
}
use checks.Http.Headers.{Outcome, reports, corrupts, parse_headers}
use checks.Http.Body.{parse_body}

-- How a call ends: with a return, by a write behind the header table, or not at all.
pub data Ended : Type 0 where
  returns : Parsed → Ended
  writes_wild : Ended
  spins : Ended

-- `if (ret != …) return ret; break;`
abbrev pub and_loop : Parsed → (Request → Buffer → Ended) → Ended
and_loop (complete, r, b) loop = loop r b
and_loop (more, r, b) loop = returns (more, r, b)
and_loop (failed, r, b) loop = returns (failed, r, b)
and_loop (undefined, r, b) loop = returns (undefined, r, b)

abbrev pub behind_headers : Outcome → (Request → Buffer → Ended) → Ended
behind_headers (reports p) loop = and_loop p loop
behind_headers corrupts loop = writes_wild

abbrev pub behind_body : Option Parsed → Ended
behind_body none = spins
behind_body (some p) = returns p

-- The `switch`; `loop` is what follows a `break`.
unfoldable pub on_state :
    Allocator → (Request → Buffer → Ended) → ParseState → Request → Buffer → Ended
on_state a loop ParseState.start_line r b = and_loop (parse_start_line a r b) loop
on_state a loop ParseState.headers r b = behind_headers (parse_headers a r b) loop
on_state a loop ParseState.body r b = behind_body (parse_body a r b)
on_state a loop ParseState.done r b = loop (record r { state = ParseState.start_line }) b
on_state a loop ParseState.error r b = loop r b

-- The `while`.
unfoldable pub state_loop : Allocator → ℕ → Request → Buffer → Ended
unfolding on_state
state_loop a zero r b = spins
state_loop a (suc fuel) r b = on_state a (state_loop a fuel) r.state r b

-- A pass through all the states takes four rounds.
abbrev pub parse_fuel : ℕ
parse_fuel = 4

-- `onion_http_request_parse`; the report is 1, 0 or -1.
unfoldable pub request_parse : Allocator → Request → Buffer → Ended
request_parse a r b = if r.is_ready then returns (complete, r, b) else state_loop a parse_fuel r b
