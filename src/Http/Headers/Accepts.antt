-- ===== src/Http/Headers/Accepts.antt =====
-- `onion_http_parse_headers` (src/onion/request.c) on header lines that it is meant for.
use checks.Prelude.{
  ℕ, zero, suc, ◌+◌, ◌<◌, ◌≤◌, ◌≡◌, refl, sym, ap, ◌∙◌, true, false, ◌||◌, inl, inr, Bool-cases,
  some, List, [], ◌∷◌, ◌++◌, append_assoc, length, drop, All, ltb, leb, arith, length-append,
  drop-append,
}
use mathlib.Core.List.{map}
use checks.Http.Allocator.{Allocator}
use checks.Http.Search.{stringa}
use checks.Http.Search.Stringa.{stringa-first}
use checks.Http.Buffer.{Buffer, contents, buff_consume}
use checks.Http.Buffer.Contents.{IsValid, buff_consume-drop}
use checks.Http.Line.{crlf}
use checks.Http.Request.{ParseState, Request, Parsed, complete, max_headers}
use checks.Http.Headers.{
  host_name, content_length, blank_line, last_line, walked, wild, header_round, header_rounds,
  reports, corrupts, close_headers, parse_headers,
}
use checks.Http.Headers.Field.{
  Field, field_text, fields_text, IsField, blank_at, blank_line-FirstAt,
}
use checks.Http.Headers.Store.{HasRoom, with_field, header_round-ok, header_round-overrun}
use checks.Http.Headers.Table.{
  with_fields, header_of, named, says_chunked, any_field, declared, Frame, Stored,
  with_fields-Stored, put_fields, put_fields_all,
}

drop-field :
    (f : Field) (rest : List ℕ)
    → drop (length (field_text f) + 2) (field_text f ++ (13 ∷ 10 ∷ rest)) ≡ rest
drop-field f rest =
    ap (drop (length (field_text f) + 2)) (sym (append_assoc (field_text f) crlf rest))
    ∙ drop-append _ (field_text f ++ crlf) rest (omega (arith, length-append (field_text f) crlf))

module _ (a : Allocator) (room : HasRoom a) where
  header_rounds-blank :
      (rounds i : ℕ) (r : Request) (rest : List ℕ)
      → header_rounds a (suc rounds) i r (13 ∷ 10 ∷ rest) ≡ walked r
  unfolding header_rounds
  header_rounds-blank rounds i r rest = rw (blank, header_rounds) refl
    where
      at : stringa (13 ∷ 10 ∷ rest) crlf ≡ some 0
      at = stringa-first (13 ∷ 10 ∷ rest) crlf 0 (λ e. cc) (refl, λ j lt. absurd (omega arith))

      blank : header_round a i r (13 ∷ 10 ∷ rest) ≡ last_line
      blank = unfold header_round in rw (at, header_round) refl

  header_rounds-fields :
      (rounds i : ℕ) (r : Request) (fs : List Field) (rest : List ℕ)
      → All IsField fs
      → length fs < rounds
      → i + length fs ≤ max_headers
      → header_rounds a rounds i r (fields_text fs rest) ≡ walked (with_fields r i fs)
  unfolding header_rounds
  header_rounds-fields zero i r fs rest v lt fit = absurd (omega arith)
  header_rounds-fields (suc rounds) i r [] rest v lt fit = header_rounds-blank rounds i r rest
  header_rounds-fields (suc rounds) i r (f ∷ fs) rest v lt fit =
      rw (header_round-ok a room f v.0 (fields_text fs rest) i r (omega arith), header_rounds)
        (ap (header_rounds a rounds (suc i) (with_field r i f)) (drop-field f (fields_text fs rest))
          ∙ header_rounds-fields rounds (suc i) (with_field r i f) fs rest v.1 (omega arith)
              (omega arith))

  header_rounds-wild :
      (rounds i : ℕ) (r : Request) (fs : List Field) (rest : List ℕ)
      → All IsField fs
      → i + rounds ≡ max_headers + 1
      → max_headers < i + length fs
      → i ≤ max_headers
      → header_rounds a rounds i r (fields_text fs rest) ≡ wild
  unfolding header_rounds
  header_rounds-wild zero i r fs rest v e long le = absurd (omega arith)
  header_rounds-wild (suc rounds) i r [] rest v e long le = absurd (omega arith)
  header_rounds-wild (suc rounds) i r (f ∷ fs) rest v e long le =
      elim (Bool-cases (leb max_headers i)) [
        | inl full ↦
            rw
              (
                header_round-overrun a room f v.0 (fields_text fs rest) i r (ground arith),
                header_rounds,
              )
              refl
        | inr free ↦
            rw
              (header_round-ok a room f v.0 (fields_text fs rest) i r (ground arith), header_rounds)
              (ap (header_rounds a rounds (suc i) (with_field r i f))
                  (drop-field f (fields_text fs rest))
                ∙ header_rounds-wild rounds (suc i) (with_field r i f) fs rest v.1 (omega arith)
                    (omega arith) (ground arith))
      ]

-- What a successful parse of the headers leaves behind.
pub record Accepted (r : Request) (fs : List Field) (rest : List ℕ) (p : Parsed) : Type 0 where
  pub reported : p.0 ≡ complete
  pub next_state : p.1.state ≡ ParseState.body
  pub table : p.1.headers ≡ map header_of fs ++ drop (length fs) r.headers
  pub counted : p.1.header_count ≡ length fs
  pub frame : Frame r p.1
  pub ended : p.1.header_end ≡ r.line_end + length (fields_text fs [])
  pub is_chunked : p.1.is_chunked ≡ (r.is_chunked || any_field says_chunked fs)
  pub capacity : p.1.is_chunked ≡ false → p.1.body_capacity ≡ declared r.body_capacity fs
  pub has_length :
      p.1.is_chunked ≡ false
      → p.1.is_content_length ≡ (r.is_content_length || any_field (λ f. named f content_length) fs)
  pub consumed : contents p.2 ≡ rest
  pub valid : IsValid p.2

blank_at-length :
    (f : Field) (fs : List Field) → blank_at f fs + 4 ≡ length (fields_text (f ∷ fs) [])
blank_at-length f [] = omega (arith, length-append (field_text f) (13 ∷ 10 ∷ 13 ∷ 10 ∷ []))
blank_at-length f (g ∷ fs) =
    omega (
      arith,
      length-append (field_text f) (13 ∷ 10 ∷ fields_text (g ∷ fs) []),
      blank_at-length g fs,
    )

pub fields_text-append :
    (fs : List Field) (rest : List ℕ) → fields_text fs rest ≡ fields_text fs [] ++ rest
fields_text-append [] rest = refl
fields_text-append (f ∷ fs) rest =
    ap (λ s. field_text f ++ (13 ∷ 10 ∷ s)) (fields_text-append fs rest)
    ∙ sym (append_assoc (field_text f) (13 ∷ 10 ∷ fields_text fs []) rest)

module _ (a : Allocator) (room : HasRoom a) (r : Request) (b : Buffer) (f : Field) (fs : List Field)
    (rest : List ℕ) (text : contents b ≡ fields_text (f ∷ fs) rest) (v : IsField f)
    (vs : All IsField fs) where
  end_found : stringa (contents b) blank_line ≡ some (blank_at f fs)
  end_found =
      ap (λ s. stringa s blank_line) text
      ∙ stringa-first (fields_text (f ∷ fs) rest) blank_line (blank_at f fs) (λ e. cc)
          (blank_line-FirstAt f fs rest v vs)

  pub parse_headers-close :
      parse_headers a r b
      ≡ close_headers b
          (blank_at f fs + 4)
          (header_rounds a (max_headers + 1) 0 r (fields_text (f ∷ fs) rest))
  unfolding parse_headers
  parse_headers-close = rw (end_found, text, parse_headers) refl

  close_headers-host :
      (n : ℕ) (s : Request)
      → s.host ≡ true
      → s.header_count ≤ max_headers
      → close_headers b n (walked s)
        ≡ reports (
          complete,
          record s { header_end = s.line_end + n; state = ParseState.body },
          buff_consume b n,
        )
  unfolding close_headers
  close_headers-host n s h c =
      let few : ltb max_headers s.header_count ≡ false = ground arith in
      rw (h, few, close_headers) refl

  module _ (valid : IsValid b) (size : length r.headers ≡ max_headers)
      (none_yet : r.header_count ≡ 0) (fit : length (f ∷ fs) ≤ max_headers)
      (host : any_field (λ g. named g host_name) (f ∷ fs) ≡ true) where
    abbrev all_fields : List Field
    all_fields = f ∷ fs

    abbrev final : Request
    final = with_fields r 0 all_fields

    total : blank_at f fs + 4 ≡ length (fields_text all_fields [])
    total = blank_at-length f fs

    all_in_table : Stored r final 0 all_fields × (final.headers ≡ put_fields 0 r.headers all_fields)
    all_in_table = with_fields-Stored r 0 all_fields (omega (arith, size))

    run :
        parse_headers a r b
        ≡ reports (
          complete,
          record final {
            header_end = final.line_end + (blank_at f fs + 4);
            state = ParseState.body;
          },
          buff_consume b (blank_at f fs + 4),
        )
    run =
        parse_headers-close
        ∙ ap (close_headers b (blank_at f fs + 4)) (
            header_rounds-fields a room (max_headers + 1) 0 r all_fields rest (v, vs) (omega arith)
              (omega arith))
        ∙ close_headers-host (blank_at f fs + 4) final (ground (arith, all_in_table.0.hosted, host))
            (omega (arith, all_in_table.0.counted, none_yet, fit))

    left :
        IsValid (buff_consume b (blank_at f fs + 4))
        × (contents (buff_consume b (blank_at f fs + 4)) ≡ drop (blank_at f fs + 4) (contents b))
    left = buff_consume-drop b (blank_at f fs + 4) valid (
        omega (
          arith,
          total,
          ap length (text ∙ fields_text-append all_fields rest),
          length-append (fields_text all_fields []) rest,
        ))

    gone : drop (blank_at f fs + 4) (contents b) ≡ rest
    gone =
        ap (drop (blank_at f fs + 4)) (text ∙ fields_text-append all_fields rest)
        ∙ drop-append (blank_at f fs + 4) (fields_text all_fields []) rest total

    pub accepted : (p : Parsed) × (parse_headers a r b ≡ reports p) × Accepted r all_fields rest p
    accepted = (
      _,
      run,
      record {
        reported = refl;
        next_state = refl;
        table = all_in_table.1 ∙ put_fields_all r.headers all_fields (omega (arith, size));
        counted = omega (arith, all_in_table.0.counted);
        frame = all_in_table.0.frame;
        ended = omega (arith, all_in_table.0.same_line_end, total);
        is_chunked = all_in_table.0.is_chunked;
        capacity = all_in_table.0.capacity;
        has_length = all_in_table.0.has_length;
        consumed = left.1 ∙ gone;
        valid = left.0;
      },
    )

-- Up to 24 header lines with a Host among them, a blank line and any rest are parsed: the table holds
-- the names and the values in order, the chunked flag and the content length are those that the
-- headers say, the start line is kept, and exactly what follows the blank line is left to be read. Conditions: the lines are
-- ones that the server takes, the allocator has a block for each string, the buffer is valid, and the
-- request has its table of 24 and no header counted yet.
pub parse_headers-accepts :
    (a : Allocator) (r : Request) (b : Buffer) (fs : List Field) (rest : List ℕ)
    → HasRoom a
    → IsValid b
    → length r.headers ≡ max_headers
    → r.header_count ≡ 0
    → contents b ≡ fields_text fs rest
    → All IsField fs
    → length fs ≤ max_headers
    → any_field (λ g. named g host_name) fs ≡ true
    → (p : Parsed) × (parse_headers a r b ≡ reports p) × Accepted r fs rest p
parse_headers-accepts a r b [] rest room valid size none_yet text v fit host = cc
parse_headers-accepts a r b (f ∷ fs) rest room valid size none_yet text v fit host =
    accepted a room r b f fs rest text v.0 v.1 valid size none_yet fit host

-- More than 24 header lines that the server takes make the parser write a header behind the end of the
-- table of 24. Condition: the allocator has a block for each string.
pub parse_headers-overrun :
    (a : Allocator) (r : Request) (b : Buffer) (fs : List Field) (rest : List ℕ)
    → HasRoom a
    → contents b ≡ fields_text fs rest
    → All IsField fs
    → max_headers < length fs
    → parse_headers a r b ≡ corrupts
unfolding close_headers
parse_headers-overrun a r b [] rest room text v long = absurd (omega arith)
parse_headers-overrun a r b (f ∷ fs) rest room text v long =
    parse_headers-close a room r b f fs rest text v.0 v.1
    ∙ ap (close_headers b (blank_at f fs + 4)) (
        header_rounds-wild a room (max_headers + 1) 0 r (f ∷ fs) rest v refl (omega arith)
          (omega arith))
