-- ===== src/Http/Tests/Message/Connection.antt =====
-- Runs of the HTTP parser of a connection (src/onion/parser.c), and its theorems at concrete inputs.
use checks.Prelude.{◌≡◌, refl, true, false, some, [], ◌∷◌, replicate, get_elem?, arith}
use checks.Http.Request.{Request}
use checks.Http.Machine.Message.{Understood}
use checks.Http.Connection.{
  Parser, answers, error, ok, hangs, find_from, find_free_request, parser_request,
}
use checks.Http.Connection.Slots.{IsFirstFree, find_free_request_lem}
use checks.Http.Connection.Answers.{parser_request-after_error}
use checks.Http.Connection.Delivered.{
  IsWaiting, fresh_buffer, parser_request-message, parser_request-bodiless,
}
use checks.Http.Tests.{zeroed, roomy, blank, get_method}
use checks.Http.Tests.Message.{
  two_fields, hi, host_field, roomy_message, message, message-IsMessage, plain_get, plain-IsMessage,
  two_plain, two_length, two_declared, one_plain, one_length, slash,
}

abbrev slot : Request
slot = record blank { is_active = false }

-- A connection with its first slot free and the others busy.
abbrev connection : Parser
connection = record {
  req_buff = fresh_buffer (zeroed 512);
  requests = slot ∷ replicate 7 (record blank { is_ready = true });
  req_active = 0;
  req_pos = 0;
  req_head = 0;
}

finds_first : find_free_request connection ≡ some 0
unfolding find_free_request find_from
finds_first = refl

find_free_request_lem_example : IsFirstFree connection (find_free_request connection)
find_free_request_lem_example = find_free_request_lem connection refl

connection-IsWaiting : IsWaiting connection
connection-IsWaiting = record {
  start = refl;
  end = refl;
  capacity = refl;
  limit = refl;
  allocated = refl;
}

parser_request-message_example :
    (p : Parser) × (parser_request roomy 1 roomy connection message ≡ answers ok p)
    × IsWaiting p
    × (r : Request) × (get_elem? p.requests 0 ≡ some r)
    × Understood 0 slash two_fields hi slot.headers r
parser_request-message_example =
    parser_request-message roomy roomy 1 connection 0 slot message get_method slash 0 two_fields hi
      (zeroed 512) connection-IsWaiting finds_first refl refl refl (omega arith) message-IsMessage
      two_plain two_length (omega (arith, two_declared)) (omega (arith, two_declared)) roomy_message
      refl

parser_request-bodiless_example :
    (p : Parser) × (parser_request roomy 1 roomy connection plain_get ≡ answers error p)
    × (parser_request roomy 1000 roomy p slash ≡ hangs)
parser_request-bodiless_example =
    parser_request-bodiless roomy roomy 1 1000 connection 0 slot plain_get get_method slash 0
      (host_field ∷ []) [] slash connection-IsWaiting refl finds_first refl refl refl
      plain-IsMessage one_plain one_length roomy_message (omega arith)

refused_get :
    (p : Parser) × (parser_request roomy 1 roomy connection plain_get ≡ answers error p)
    × (parser_request roomy 1000 roomy p slash ≡ hangs)
refused_get =
    parser_request-bodiless roomy roomy 1 1000 connection 0 slot plain_get get_method slash 0
      (host_field ∷ []) [] slash connection-IsWaiting refl finds_first refl refl refl
      plain-IsMessage one_plain one_length roomy_message (omega arith)

parser_request-after_error_example : parser_request roomy 1000 roomy refused_get.0 slash ≡ hangs
parser_request-after_error_example =
    parser_request-after_error roomy roomy 1 1000 connection refused_get.0 plain_get slash refl
      refused_get.1 (omega arith)
