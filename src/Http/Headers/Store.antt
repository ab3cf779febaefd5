-- ===== src/Http/Headers/Store.antt =====
-- One round of the loop of `onion_http_parse_headers` (src/onion/request.c) at a good header line.
use checks.Prelude.{
  ℕ, ◌+◌, ◌-◌, ◌<◌, ◌≤◌, ◌≡◌, refl, ap, ◌∙◌, inl, inr, true, false, some, List, [], ◌∷◌, ◌++◌,
  append_assoc, leb, ◌==◌, length, take, drop, replicate, length-append, length-replicate,
  take-append, drop-append, arith,
}
use checks.Prelude.Memory.{window}
use checks.Http.Allocator.{Allocator}
use checks.Http.Search.{stringa}
use checks.Http.Token.{get_valid_header_name, check_in_range}
use checks.Http.Token.Range.{get_valid_header_name_lem, check_in_range_lem}
use checks.Http.Line.{crlf}
use checks.Http.Line.Shape.{window_middle}
use checks.Http.Request.{Request, max_headers}
use checks.Http.Request.RequestLine.{All-map, tok_alloc-some}
use checks.Http.Headers.{
  note_header, count_spaces, colon, stored, overrun, set_header, with_name, with_value, store_value,
  store_name, split_header, header_round,
}
use checks.Http.Headers.Field.{
  Field, field_text, IsField, stringa-behind, name-no_colon, field_text-no_return,
  count_spaces-replicate,
}

-- The allocator has a block for every header. Its sizes are positive: `onion_slab_malloc` gives none for 0.
abbrev pub HasRoom : Allocator → Type 0
HasRoom a = (n : ℕ) → 0 < n → n ≤ 128 → (block : List ℕ) × (a.malloc n ≡ some block)

abbrev pub stored_text : List ℕ → List ℕ
stored_text s = s ++ (0 ∷ [])

-- The request with a header stored at an index.
abbrev pub with_field : Request → ℕ → Field → Request
with_field r index f =
    let r1 = set_header r index (λ h. with_name h (some (stored_text f.name))) in
    let r2 = set_header r1 index (λ h. with_value h (some (stored_text f.value))) in
    let r3 = note_header r2 (stored_text f.name) (stored_text f.value) in
    record r3 { header_count = r3.header_count + 1 }

module _ (a : Allocator) (room : HasRoom a) (f : Field) (v : IsField f) where
  store_value-ok :
      (index len : ℕ) (r : Request)
      → let r1 = set_header r index (λ h. with_name h (some (stored_text f.name))) in
        store_value a index r1 (stored_text f.name) f.value len ≡ stored (with_field r index f) len
  unfolding store_value
  store_value-ok index len r =
      let (block, memory) = room (length f.value + 1) (omega arith) (omega (arith, v.value_fits)) in
      rw (tok_alloc-some a f.value block memory, store_value) refl

  text_valid : check_in_range f.value 32 255 (9 ∷ []) ≡ true
  text_valid =
      (check_in_range_lem f.value 32 255 (9 ∷ [])).1
        (All-map _ _ f.value (λ c h. elim h [ inl p ↦ inl p | inr e ↦ inr (inl e) ]) v.text)

  store_name-ok :
      (index len : ℕ) (r : Request)
      → index < max_headers
      → store_name a index r f.name f.value len ≡ stored (with_field r index f) len
  unfolding store_name
  store_name-ok index len r inside =
      let (block, memory) = room (length f.name + 1) (omega arith) (omega (arith, v.name_fits)) in
      let low : leb max_headers index ≡ false = ground arith in
      let short : leb 128 (length f.value) ≡ false = ground (arith, v.value_fits) in
      rw (low, tok_alloc-some a f.name block memory, short, text_valid, store_name)
        (store_value-ok index len r)

  name_valid : get_valid_header_name f.name ≡ true
  name_valid =
      (get_valid_header_name_lem f.name (All-map _ _ f.name (λ c h. h.0) v.token)).1
        (All-map _ _ f.name (λ c h. h.1) v.token)

  module _ (rest : List ℕ) where
    abbrev bytes : List ℕ
    bytes = field_text f ++ (13 ∷ 10 ∷ rest)

    behind_colon :
        drop (length f.name + 1) bytes ≡ replicate f.spaces 32 ++ (f.value ++ (13 ∷ 10 ∷ rest))
    behind_colon =
        ap (drop (length f.name + 1)) whole
        ∙ drop-append (length f.name + 1) (f.name ++ (b':' ∷ [])) _
            (omega (arith, length-append f.name (b':' ∷ [])))
      where
        whole :
            bytes
            ≡ (f.name ++ (b':' ∷ [])) ++ (replicate f.spaces 32 ++ (f.value ++ (13 ∷ 10 ∷ rest)))
        whole = simp append_assoc

    spaces : count_spaces (drop (length f.name + 1) bytes) ≡ f.spaces
    spaces =
        ap count_spaces behind_colon ∙ count_spaces-replicate f.spaces f.value (10 ∷ rest) v.trimmed

    length-field_text : length (field_text f) ≡ length f.name + 1 + f.spaces + length f.value
    length-field_text = omega (
      arith,
      length-append f.name (b':' ∷ (replicate f.spaces 32 ++ f.value)),
      length-append (replicate f.spaces 32) f.value,
      length-replicate {A = ℕ} f.spaces 32,
    )

    value_window :
        let o = length f.name + 1 + f.spaces in window o (length (field_text f) - o) bytes ≡ f.value
    value_window =
        window_middle _ _ bytes (f.name ++ (b':' ∷ replicate f.spaces 32)) f.value (13 ∷ 10 ∷ rest)
          (simp append_assoc)
          (omega (
            arith,
            length-append f.name (b':' ∷ replicate f.spaces 32),
            length-replicate {A = ℕ} f.spaces 32,
          ))
          (omega (arith, length-field_text))

    name_front : take (length f.name) bytes ≡ f.name
    name_front =
        ap (take (length f.name)) (append_assoc f.name _ _)
        ∙ take-append (length f.name) f.name _ refl

    split_header-store :
        (index : ℕ) (r : Request)
        → split_header a index r bytes (length (field_text f)) (length f.name)
          ≡ store_name a index r f.name f.value (length (field_text f))
    unfolding split_header
    split_header-store index r =
        let short : leb 64 (length f.name) ≡ false = ground (arith, v.name_fits) in
        rw (short, name_front, name_valid, spaces, value_window, split_header) refl

    pub header_round-store :
        (index : ℕ) (r : Request)
        → header_round a index r bytes ≡ store_name a index r f.name f.value (length (field_text f))
    unfolding header_round
    header_round-store index r =
        let line : stringa bytes crlf ≡ some (length (field_text f)) =
          stringa-behind (field_text f) (13 ∷ 10 ∷ rest) (10 ∷ []) 13 (field_text-no_return f v)
            refl in
        let long : (length (field_text f) == 0) ≡ false = ground (arith, length-field_text) in
        let front : take (length (field_text f)) bytes ≡ field_text f =
          take-append (length (field_text f)) (field_text f) _ refl in
        let at : stringa (field_text f) colon ≡ some (length f.name) =
          stringa-behind f.name (b':' ∷ (replicate f.spaces 32 ++ f.value)) [] b':'
            (name-no_colon f v) refl in
        rw (line, long, front, at, header_round) (split_header-store index r)

    -- The header is stored.
    pub header_round-ok :
        (index : ℕ) (r : Request)
        → index < max_headers
        → header_round a index r bytes ≡ stored (with_field r index f) (length (field_text f))
    header_round-ok index r inside =
        header_round-store index r ∙ store_name-ok index (length (field_text f)) r inside

    -- There is no room for it in the table.
    pub header_round-overrun :
        (index : ℕ) (r : Request) → max_headers ≤ index → header_round a index r bytes ≡ overrun
    unfolding store_name
    header_round-overrun index r outside =
        let high : leb max_headers index ≡ true = ground arith in
        header_round-store index r ∙ rw (high, store_name) refl
