-- ===== src/Http/Body/Chunks.antt =====
-- The rounds that read a chunk, and the last one, of a chunked body (`onion_http_transfer_encoding_handle` of src/onion/request.c).
use checks.Prelude.{
  ℕ, suc, ◌+◌, ◌-◌, ◌<◌, ◌≤◌, ◌≡◌, ◌≢◌, refl, sym, ap, ◌∙◌, false, ◌||◌, some, List, [], ◌∷◌, ◌++◌,
  leb, ltb, ◌==◌, length, take, drop, All, length-append, take-append, drop-append_add, arith,
}
use checks.Prelude.Memory.{
  memcpy, window, length-window, window-memcpy, drop-memcpy, drop-window, take-take,
}
use checks.Http.Allocator.{Allocator}
use checks.Http.CString.{strtol_hex}
use checks.Http.Search.{stringa}
use checks.Http.Line.{crlf}
use checks.Http.Buffer.{Buffer}
use checks.Http.Request.{Request, complete}
use checks.Http.Headers.Field.{stringa-behind}
use checks.Http.Body.{
  set_ready, report_ready, overlap, leaves, goes_on, take_chunk, read_chunk, chunk_round,
}
use checks.Http.Body.Length.{ready, set_ready-ok}

-- The line of a chunk and its data.
pub record Chunk : Type 0 where
  pub size_line : List ℕ
  pub payload : List ℕ

-- The chunks, the last line, with the size 0, and what follows it.
abbrev pub chunks_text : List Chunk → List ℕ → List ℕ → List ℕ
chunks_text [] last rest = last ++ (13 ∷ 10 ∷ rest)
chunks_text (c ∷ cs) last rest =
    c.size_line ++ (13 ∷ 10 ∷ (c.payload ++ (13 ∷ 10 ∷ chunks_text cs last rest)))

abbrev pub chunks_data : List Chunk → List ℕ
chunks_data [] = []
chunks_data (c ∷ cs) = c.payload ++ chunks_data cs

-- A line of at most 16 bytes that `strtol` reads as a number.
pub record IsSizeLine (line : List ℕ) (n : ℕ) : Type 0 where
  pub plain : All (λ c. c ≢ 13) line
  pub some_bytes : 0 < length line
  pub fits : length line ≤ 16
  pub value : strtol_hex (line ++ (0 ∷ [])) ≡ some n

-- A chunk with data and its size in its line.
pub record IsChunk (c : Chunk) : Type 0 where
  pub sized : IsSizeLine c.size_line (length c.payload)
  pub not_empty : 0 < length c.payload

-- What a chunk takes of the text.
abbrev pub needs : Chunk → ℕ
needs c = length c.size_line + 2 + length c.payload + 2

-- The data of each chunk ends before its own place when it is moved behind the data before it, `done` of
-- which have been moved to the front of the `sum` bytes read.
abbrev pub Apart : ℕ → ℕ → List Chunk → Type 0
Apart done sum [] = Unit
Apart done sum (c ∷ cs) =
    (done + length c.payload ≤ sum + length c.size_line + 2)
    × Apart (done + length c.payload) (sum + needs c) cs

-- The request and the buffer behind a chunk.
abbrev pub counted : Request → Chunk → Request
counted r c = record r {
  body_len = r.body_len + length c.payload;
  chunk_dirty = r.chunk_dirty + needs c;
}

abbrev pub moved : Request → Buffer → Chunk → Buffer
moved r b c = record b { block = memcpy b.block (b.start + r.body_len) c.payload }

module _ (a : Allocator) (r : Request) (b : Buffer) (body_size sum : ℕ) (low : body_size < 8192)
    (inside : b.start + body_size ≤ length b.block) (sum_le : sum ≤ body_size) where
  abbrev bytes : List ℕ
  bytes = window (b.start + sum) (body_size - sum) b.block

  length-bytes : length bytes ≡ body_size - sum
  length-bytes = length-window (b.start + sum) (body_size - sum) b.block (omega arith)

  -- A round that finds the line of a chunk reads it.
  chunk_round-line :
      (line tail : List ℕ) (n : ℕ)
      → bytes ≡ line ++ (13 ∷ 10 ∷ tail)
      → IsSizeLine line n
      → chunk_round a r b body_size sum ≡ read_chunk a r b body_size sum (length line) (some n)
  unfolding chunk_round
  chunk_round-line line tail n e v =
      rw (found, small, chunk_round) (ap (read_chunk a r b body_size sum (length line)) number)
    where
      found : stringa bytes crlf ≡ some (length line)
      found =
          ap (λ s. stringa s crlf) e
          ∙ stringa-behind line (13 ∷ 10 ∷ tail) (10 ∷ []) 13 v.plain refl

      small : ((length line == 0) || ltb 16 (length line)) ≡ false
      small = ground (arith, v.some_bytes, v.fits)

      number : strtol_hex (take (length line) bytes ++ (0 ∷ [])) ≡ some n
      number =
          ap (λ s. strtol_hex (s ++ (0 ∷ [])))
            (ap (take (length line)) e ∙ take-append (length line) line _ refl)
          ∙ v.value

  module _ (c : Chunk) (tail : List ℕ)
      (e : bytes ≡ c.size_line ++ (13 ∷ 10 ∷ (c.payload ++ (13 ∷ 10 ∷ tail)))) where
    pub size_of_all : body_size - sum ≡ needs c + length tail
    size_of_all = omega (
      arith,
      length-bytes,
      ap length e,
      length-append c.size_line (13 ∷ 10 ∷ (c.payload ++ (13 ∷ 10 ∷ tail))),
      length-append c.payload (13 ∷ 10 ∷ tail),
    )

    -- What stands behind a place of the text.
    behind :
        (m k p : ℕ) (xs : List ℕ)
        → body_size - sum ≡ m + k
        → p ≡ b.start + sum + m
        → drop m bytes ≡ xs
        → window p k b.block ≡ xs
    behind m k p xs h at d =
        sym (drop-window (b.start + sum) (body_size - sum) m k p b.block h at) ∙ d

    behind_line : drop (length c.size_line + 2) bytes ≡ c.payload ++ (13 ∷ 10 ∷ tail)
    behind_line =
        ap (drop (length c.size_line + 2)) e
        ∙ drop-append_add (length c.size_line + 2) 2 c.size_line
            (13 ∷ 10 ∷ (c.payload ++ (13 ∷ 10 ∷ tail))) refl

    payload_found :
        window (b.start + sum + length c.size_line + 2) (length c.payload) b.block ≡ c.payload
    payload_found =
        let k = body_size - sum - (length c.size_line + 2) in
        let p = b.start + sum + length c.size_line + 2 in
        sym (take-take (length c.payload) k (drop p b.block) (omega (arith, size_of_all)))
        ∙ ap (take (length c.payload)) (
            behind (length c.size_line + 2) k p _ (omega (arith, size_of_all)) (omega arith)
              behind_line)
        ∙ take-append (length c.payload) c.payload (13 ∷ 10 ∷ tail) refl

    next_found : drop (needs c) bytes ≡ tail
    next_found =
        ap (drop (needs c)) e
        ∙ drop-append_add (needs c) (suc (suc (length c.payload + 2))) c.size_line
            (13 ∷ 10 ∷ (c.payload ++ (13 ∷ 10 ∷ tail))) (omega arith)
        ∙ drop-append_add (length c.payload + 2) 2 c.payload (13 ∷ 10 ∷ tail) refl

    -- What the next round finds.
    pub next_bytes :
        r.body_len ≤ sum
        → window (b.start + (sum + needs c)) (body_size - (sum + needs c)) (moved r b c).block
          ≡ tail
    next_bytes le =
        ap (take (body_size - (sum + needs c))) (
          drop-memcpy b.block c.payload (b.start + (sum + needs c)) (b.start + r.body_len)
            (omega arith))
        ∙ behind (needs c) (body_size - (sum + needs c)) (b.start + (sum + needs c)) tail
            (omega (arith, size_of_all)) (omega arith) next_found

    -- The data before it and its own.
    pub next_done :
        (done : List ℕ)
        → r.body_len ≤ sum
        → window b.start r.body_len b.block ≡ done
        → window b.start (r.body_len + length c.payload) (moved r b c).block ≡ done ++ c.payload
    next_done done le held =
        window-memcpy b.block c.payload b.start r.body_len (b.start + r.body_len)
          (r.body_len + length c.payload) refl refl (omega (arith, size_of_all))
        ∙ ap (λ s. s ++ c.payload) held

    -- A chunk that has arrived is moved behind the data before it.
    pub chunk_round-chunk :
        IsChunk c
        → r.bytes_received + body_size < 8192
        → r.body_len + length c.payload ≤ sum + length c.size_line + 2
        → chunk_round a r b body_size sum ≡ goes_on (counted r c) (moved r b c) (sum + needs c)
    unfolding read_chunk take_chunk
    chunk_round-chunk v room away =
        chunk_round-line c.size_line (c.payload ++ (13 ∷ 10 ∷ tail)) (length c.payload) e v.sized
        ∙ rw (fits, some_data, all_here, within, apart)
            (ap
              (λ s.
                goes_on (counted r c) (record b { block = memcpy b.block (b.start + r.body_len) s })
                  (sum + needs c))
              payload_found)
      where
        fits : leb 8192 (length c.payload) ≡ false
        fits = ground (arith, size_of_all)

        some_data : (length c.payload == 0) ≡ false
        some_data = ground (arith, v.not_empty)

        all_here : ltb (body_size - sum) (needs c) ≡ false
        all_here = ground (arith, size_of_all)

        apart : overlap r.body_len (sum + length c.size_line + 2) (length c.payload) ≡ false
        apart = ground (arith, away)

        within : leb 8192 (r.bytes_received + length c.payload) ≡ false
        within = ground (arith, size_of_all)

  -- The last line ends the body.
  pub chunk_round-last :
      (last rest done block : List ℕ)
      → bytes ≡ last ++ (13 ∷ 10 ∷ rest)
      → IsSizeLine last 0
      → window b.start r.body_len b.block ≡ done
      → length done < 8192
      → a.malloc (length done) ≡ some block
      → chunk_round a r b body_size sum ≡ leaves (complete, ready r done, b)
  unfolding read_chunk
  chunk_round-last last rest done block e v held small memory =
      chunk_round-line last rest 0 e v
      ∙ ap (λ s. leaves (report_ready (set_ready a r s) b)) held
      ∙ ap (λ q. leaves (report_ready q b)) (set_ready-ok a r done block small memory)
