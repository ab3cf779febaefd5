-- ===== src/Http/Tests.antt =====
-- Runs of the HTTP text functions, and their theorems at concrete inputs.
mod Message
use checks.Prelude.{
  ℕ, ◌≤◌, ◌≡◌, ◌≢◌, ◌↔◌, inl, refl, ◌∙◌, true, false, none, some, List, [], ◌∷◌, ◌++◌, length, take,
  replicate, length-replicate, All, arith,
}
use checks.Prelude.Memory.{memcpy, length-memcpy, take-memcpy}
use checks.Http.Allocator.{Allocator}
use checks.Http.Search.{chacha, stringa}
use checks.Http.Search.Chacha.{SplitsAt, chacha_lem}
use checks.Http.Search.Stringa.{FirstAt, OccursAt, stringa_lem}
use checks.Http.Token.{
  check_in_range, get_valid_method, get_valid_version, get_valid_header_name, method_list,
  version_list,
}
use checks.Http.Token.Choice.{HasRow, get_valid_method_lem, get_valid_version_lem}
use checks.Http.Token.Range.{InRange, is_tchar, check_in_range_lem, get_valid_header_name_lem}
use checks.Http.Buffer.{
  Buffer, endless, contents, grow, buff_append, buff_consume, buff_exit, buff_reinit,
}
use checks.Http.Buffer.Growth.{Suffices, grow-Suffices}
use checks.Http.Buffer.Contents.{IsValid, Outcome, buff_append-contents, buff_consume-drop}
use checks.Http.Buffer.Exit.{buff_append-exit, buff_reinit-empty}
use checks.Http.Request.{Request, ParseState, no_header, parse_start_line}
use checks.Http.Request.RequestLine.{request_line, IsTarget, Accepted}
use checks.Http.Request.StartLine.{parse_start_line-accepts}
use checks.Http.Request.Sound.{AcceptedLine, parse_start_line_sound}

-- An allocator that always has room.
abbrev zeroed : ℕ → List ℕ
zeroed n = replicate n 0

malloc_length : (n : ℕ) (block : List ℕ) → some (zeroed n) ≡ some block → length block ≡ n
malloc_length n block e = let same : zeroed n ≡ block = cc in rw (← same) (length-replicate n 0)

length-moved : (old : List ℕ) (n : ℕ) → length (memcpy (zeroed n) 0 old) ≡ n
length-moved old n = length-memcpy (zeroed n) 0 old ∙ length-replicate n 0

realloc_length :
    (old : List ℕ) (n : ℕ) (block : List ℕ)
    → some (memcpy (zeroed n) 0 old) ≡ some block
    → length block ≡ n
realloc_length old n block e =
    let same : memcpy (zeroed n) 0 old ≡ block = cc in rw (← same) (length-moved old n)

abbrev roomy : Allocator
roomy = record {
  malloc = λ n. some (zeroed n);
  realloc = λ old n. some (memcpy (zeroed n) 0 old);
  length-malloc = malloc_length;
  length-realloc = realloc_length;
}

abbrev get_method : List ℕ
get_method = b'G' ∷ b'E' ∷ b'T' ∷ []

-- `GET / HTTP/1.1`, CR LF, and two bytes behind it.
abbrev received : List ℕ
received = request_line get_method (b'/' ∷ []) ++ (b'A' ∷ b':' ∷ [])

-- A buffer that holds it.
abbrev waiting : Buffer
waiting = record { block = received; limit = 64; capacity = 18; start = 0; end = 18 }

abbrev blank : Request
blank = record {
  state = ParseState.start_line;
  method = 0;
  url = none;
  version = none;
  headers = replicate 24 no_header;
  header_count = 0;
  body = none;
  body_len = 0;
  body_capacity = 0;
  line_end = 0;
  header_end = 0;
  bytes_received = 0;
  is_content_length = false;
  is_chunked = false;
  chunk_dirty = 0;
  host = false;
  is_active = true;
  is_ready = false;
}

waiting-IsValid : IsValid waiting
waiting-IsValid = omega arith

slash-IsTarget : IsTarget (b'/' ∷ [])
slash-IsTarget = omega arith

get_row : HasRow method_list get_method 0
get_row = inl (refl, refl)

parse_start_line-accepts_example :
    Accepted blank waiting 0 (b'/' ∷ []) (b'A' ∷ b':' ∷ []) (parse_start_line roomy blank waiting)
parse_start_line-accepts_example =
    parse_start_line-accepts roomy blank waiting waiting-IsValid get_method (b'/' ∷ [])
      (b'A' ∷ b':' ∷ []) (0 ∷ 0 ∷ []) 0 refl (omega arith) get_row slash-IsTarget refl

parse_start_line_sound_example : AcceptedLine blank waiting (parse_start_line roomy blank waiting)
parse_start_line_sound_example =
    parse_start_line_sound roomy blank waiting waiting-IsValid
      (parse_start_line-accepts_example.reported)

buff_append-contents_example :
    let (r, b') = buff_append roomy 65 waiting (b'x' ∷ []) in
    IsValid b' × Outcome roomy waiting (b'x' ∷ []) r b'
buff_append-contents_example =
    buff_append-contents roomy 65 waiting (b'x' ∷ []) waiting-IsValid (omega arith) (omega arith)

buff_append-exit_example :
    buff_append roomy 1000 (buff_exit waiting) (b'x' ∷ []) ≡ (endless, buff_exit waiting)
buff_append-exit_example = buff_append-exit roomy 1000 waiting (b'x' ∷ []) (omega arith)

abbrev renewed : Buffer
renewed = record { block = zeroed 8; limit = 16; capacity = 8; start = 0; end = 0 }

buff_reinit_runs : buff_reinit roomy waiting 8 16 ≡ some renewed
unfolding buff_reinit
buff_reinit_runs = refl

abbrev et : List ℕ
et = b'E' ∷ b'T' ∷ []
