-- ===== src/Http/Connection/Answers.antt =====
-- What `onion_http_parser_request` (src/onion/parser.c) does to a connection.
use checks.Prelude.{
  ℕ, zero, suc, ◌+◌, ◌%◌, ◌<◌, ◌≡◌, refl, sym, ap, ◌∙◌, inl, inr, false, some, List, [], ◌∷◌,
  Option-cases, set, get_elem?, get_elem?-set_self, if◌then◌else◌, length, arith,
}
use checks.Http.Allocator.{Allocator}
use checks.Http.Buffer.{Buffer, Appended, appended, refused, endless, buff_reinit, buff_exit}
use checks.Http.Buffer.Exit.{buff_append-exit}
use checks.Http.Request.{
  Request, complete, more, failed, undefined, line_max, request_init, request_exit, request_reset,
}
use checks.Http.Machine.{Ended, returns, writes_wild, spins, request_parse}
use checks.Http.Connection.{
  Parser, answers, hangs, error, ok, limit, max_requests, max_message_size, is_busy, find_from,
  find_free_request, with_slot, parser_error_exit, after_parse, parser_request_append, after_append,
  serve, parser_request,
}
use checks.Http.Connection.Slots.{find_free_request-slot}

-- The search looks at nothing but which slots are busy.
find_from-same :
    (p q : Parser) (rounds index : ℕ)
    → p.req_pos ≡ q.req_pos
    → ((pos : ℕ) → is_busy (get_elem? p.requests pos) ≡ is_busy (get_elem? q.requests pos))
    → find_from p rounds index ≡ find_from q rounds index
unfolding find_from
find_from-same p q zero index e h = refl
find_from-same p q (suc rounds) index e h =
    let ih = find_from-same p q rounds (suc index) e h in
    let same : (p.req_pos + index) % 8 ≡ (q.req_pos + index) % 8 = omega arith in
    let here = h ((p.req_pos + index) % 8) ∙ ap (λ n. is_busy (get_elem? q.requests n)) same in
    ground (arith, ih, here, same)

-- A free slot written back free changes nothing for the search.
is_busy-set :
    (rs : List Request) (index pos : ℕ) (slot r : Request)
    → get_elem? rs index ≡ some slot
    → slot.is_ready ≡ false
    → r.is_ready ≡ false
    → is_busy (get_elem? (set rs index r) pos) ≡ is_busy (get_elem? rs pos)
is_busy-set [] index pos slot r there waits free = refl
is_busy-set (x ∷ rs) zero zero slot r there waits free = free ∙ sym (ap is_busy there ∙ waits)
is_busy-set (x ∷ rs) zero (suc pos) slot r there waits free = refl
is_busy-set (x ∷ rs) (suc index) zero slot r there waits free = refl
is_busy-set (x ∷ rs) (suc index) (suc pos) slot r there waits free =
    is_busy-set rs index pos slot r there waits free

-- The slot that was free is chosen again when it is written back free.
find_free_request-again :
    (p : Parser) (index : ℕ) (slot r : Request) (b : Buffer)
    → get_elem? p.requests index ≡ some slot
    → slot.is_ready ≡ false
    → r.is_ready ≡ false
    → find_free_request (with_slot p index r b) ≡ find_free_request p
unfolding find_free_request
find_free_request-again p index slot r b there waits free =
    find_from-same (with_slot p index r b) p max_requests 0 refl
      (λ pos. is_busy-set p.requests index pos slot r there waits free)

-- The shape of a connection after an error.
abbrev pub AfterError : Parser → ℕ → Parser → Type 0
AfterError p index p' =
    (r : Request) × (b : Buffer) × (with_slot p index (request_exit r) (buff_exit b) ≡ p')

error_inj : {p q : Parser} → answers error p ≡ answers error q → p ≡ q
error_inj e = cc

ok-ne : {p q : Parser} → answers ok p ≡ answers error q → ⊥
ok-ne e = cc

module _ (a : Allocator) (p : Parser) (index : ℕ) (p' : Parser) where
  after_parse-error :
      (e : Ended) → after_parse a p index e ≡ answers error p' → AfterError p index p'
  unfolding after_parse parser_error_exit
  after_parse-error (returns (failed, r, b)) h = (r, b, error_inj h)
  after_parse-error (returns (more, r, b)) h = cc
  after_parse-error (returns (undefined, r, b)) h = cc
  after_parse-error (returns (complete, r, b)) h =
      elim (Option-cases (buff_reinit a b line_max max_message_size)) [
        | inl e ↦ let h' = rw (e, after_parse) at h in (r, buff_exit b, error_inj h')
        | inr (b', e) ↦ let h' = rw (e, after_parse) at h in absurd (ok-ne h')
      ]
  after_parse-error writes_wild h = cc
  after_parse-error spins h = cc

  module _ (fuel : ℕ) (messages : Allocator) where
    after_append-error :
        (o : Appended × Request × Buffer)
        → after_append a fuel messages p index o ≡ answers error p'
        → AfterError p index p'
    unfolding after_append parser_error_exit
    after_append-error (appended, r, b) h = after_parse-error (request_parse messages r b) h
    after_append-error (refused, r, b) h = (r, b, error_inj h)
    after_append-error (endless, r, b) h = cc

-- An error comes from the slot that the search has found.
parser_request-error :
    (a messages : Allocator) (fuel : ℕ) (p p' : Parser) (bytes : List ℕ)
    → parser_request a fuel messages p bytes ≡ answers error p'
    → (index : ℕ) × (find_free_request p ≡ some index) × AfterError p index p'
unfolding parser_request serve
parser_request-error a messages fuel p p' bytes h = elim (Option-cases (find_free_request p)) [
  | inl full ↦ let h' = rw (full, parser_request) at h in absurd (limit-ne h')
  | inr (index, e) ↦ elim (Option-cases (get_elem? p.requests index)) [
    | inl missing ↦ let h' = rw (e, missing, parser_request) at h in absurd (limit-ne h')
    | inr (slot, there) ↦
        let h' = rw (e, there, parser_request) at h in
        let r = if slot.is_active then slot else request_init slot in
        (
          index,
          e,
          after_append-error a p index p' fuel messages
              (parser_request_append a fuel r p.req_buff bytes) h',
        )
  ]
]
  where
    limit-ne : answers limit p ≡ answers error p' → ⊥
    limit-ne e = cc

-- A slot that was given back is initialised again, and its append meets a buffer without room.
serve-after :
    (a messages : Allocator) (fuel : ℕ) (p : Parser) (index : ℕ) (r : Request) (b : Buffer)
    (bytes : List ℕ)
    → 0 < length bytes
    → serve a fuel messages
        (with_slot p index (request_exit r) (buff_exit b))
        bytes
        index
        (request_exit r)
      ≡ hangs
unfolding serve request_exit request_init request_reset parser_request_append after_append
serve-after a messages fuel p index r b bytes some_bytes =
    rw (buff_append-exit a fuel b bytes some_bytes) refl

-- After a call that answers error, the next call with data never returns, whatever the fuel: the
-- buffer is given back with capacity 0, the slot of the error is found again, and the loop that
-- doubles the capacity does not end. Condition: the table has its eight slots.
pub parser_request-after_error :
    (a messages : Allocator) (fuel fuel' : ℕ) (p p' : Parser) (bytes next : List ℕ)
    → length p.requests ≡ max_requests
    → parser_request a fuel messages p bytes ≡ answers error p'
    → 0 < length next
    → parser_request a fuel' messages p' next ≡ hangs
unfolding parser_request request_exit request_reset
parser_request-after_error a messages fuel fuel' p p' bytes next size h some_bytes =
    let (index, found, (r, b, shape)) = parser_request-error a messages fuel p p' bytes h in
    let (below, slot, there, waits) = find_free_request-slot p index size found in
    let q = with_slot p index (request_exit r) (buff_exit b) in
    let again : find_free_request q ≡ some index =
      find_free_request-again p index slot (request_exit r) (buff_exit b) there waits refl
      ∙ found in
    let stored : get_elem? q.requests index ≡ some (request_exit r) =
      get_elem?-set_self p.requests index (request_exit r) (omega (arith, size)) in
    rw (← shape) (
      rw (again, stored, parser_request) (serve-after a messages fuel' p index r b next some_bytes))
