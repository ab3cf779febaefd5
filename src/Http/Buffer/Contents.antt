-- ===== src/Http/Buffer/Contents.antt =====
-- `onion_http_buffer_t` (src/onion/http.c) as the byte string that waits to be read.
use checks.Prelude.{
  ℕ, ◌+◌, ◌-◌, ◌*◌, ◌^◌, ◌≤◌, ◌<◌, ◌≡◌, refl, sym, ◌∙◌, ap, ◌⊎◌, inl, inr, none, some, List, ◌++◌,
  ltb, leb, if◌then◌else◌, Bool-cases, Option-cases, length, drop, take, arith,
}
use checks.Prelude.Memory.{window, length-memcpy, length-window, window-memcpy, drop-window}
use checks.Http.Allocator.{Allocator}
use checks.Http.Buffer.{
  Buffer, Appended, appended, refused, endless, data_len, contents, Grown, enough, over_limit,
  out_of_fuel, copy_data, compact, reallocate, enlarge, buff_append, buff_consume,
}
use checks.Http.Buffer.Growth.{Suffices, grow-Suffices}

pub record IsValid (b : Buffer) : Type 0 where
  pub ordered : b.start ≤ b.end
  pub inside : b.end ≤ b.capacity
  pub allocated : length b.block ≡ b.capacity
  pub not_empty : 0 < b.capacity
  pub limited : b.capacity ≤ b.limit
  pub small : b.limit < 2 ^ 62

pub length-contents : (b : Buffer) → IsValid b → length (contents b) ≡ data_len b
length-contents b v = length-window b.start (data_len b) b.block (omega arith)

pub copy_data-contents :
    (b : Buffer) (bytes : List ℕ)
    → IsValid b
    → b.end + length bytes ≤ b.capacity
    → IsValid (copy_data b bytes) × (contents (copy_data b bytes) ≡ contents b ++ bytes)
unfolding copy_data
copy_data-contents b bytes v room = (
  omega (arith, length-memcpy b.block b.end bytes),
  window-memcpy b.block bytes b.start (data_len b) b.end _ (omega arith) (omega arith)
      (omega arith),
)

compact-contents :
    (b : Buffer) → IsValid b → IsValid (compact b) × (contents (compact b) ≡ contents b)
unfolding compact
compact-contents b v = (
  omega (arith, length-memcpy b.block 0 (contents b)),
  window-memcpy b.block (contents b) 0 0 0 _ (omega arith) (omega (arith, length-contents b v))
      (omega (arith, length-contents b v)),
)

compact-start : (b : Buffer) → (compact b).start ≡ 0
unfolding compact
compact-start b = refl

compact-limit : (b : Buffer) (fuel : ℕ) → b.limit < fuel → (compact b).limit < fuel
unfolding compact
compact-limit b fuel h = h

module _ (a : Allocator) where
  -- The allocator is asked to make the block of the buffer, with what waits at its front, one of `n` bytes:
  -- at least as many as before, enough for what waits and for the new bytes, and within the limit.
  pub record Asked (b : Buffer) (bytes old : List ℕ) (n : ℕ) : Type 0 where
    pub whole : length old ≡ b.capacity
    pub front : take (data_len b) old ≡ contents b
    pub larger : b.capacity ≤ n
    pub enough_room : data_len b + length bytes ≤ n
    pub within : n ≤ b.limit

  -- Why an append is refused: over the limit, or the allocator has no block of the size it is asked for.
  abbrev pub Refusal : Buffer → List ℕ → Type 0
  Refusal b bytes =
      (b.limit < 2 * (data_len b + length bytes))
      ⊎ ((old : List ℕ) × (n : ℕ) × Asked b bytes old n × (a.realloc old n ≡ none))

  -- What waits in front of the new bytes: what waited, or what stands in its place in the block that the
  -- allocator has made larger.
  abbrev pub Held : Buffer → List ℕ → List ℕ → Type 0
  Held b bytes held =
      (held ≡ contents b)
      ⊎ ((old : List ℕ) × (n : ℕ) × (block : List ℕ) × Asked b bytes old n
          × (a.realloc old n ≡ some block)
          × (held ≡ take (data_len b) block))

  abbrev pub Outcome : Buffer → List ℕ → Appended → Buffer → Type 0
  Outcome b bytes appended b' = (held : List ℕ) × (contents b' ≡ held ++ bytes) × Held b bytes held
  Outcome b bytes refused b' = (contents b' ≡ contents b) × Refusal b bytes
  Outcome b bytes endless b' = ⊥

  reallocate-Outcome :
      (b : Buffer) (bytes : List ℕ) (g : Grown)
      → IsValid b
      → b.start ≡ 0
      → Suffices b.capacity (b.end + length bytes) b.limit g
      → let (r, b') = reallocate a b bytes g in IsValid b' × Outcome b bytes r b'
  unfolding reallocate
  reallocate-Outcome b bytes over_limit v front h = (v, (refl, inl (omega arith)))
  reallocate-Outcome b bytes out_of_fuel v front h = absurd h
  reallocate-Outcome b bytes (enough n) v front h = elim (Option-cases (a.realloc b.block n)) [
    | inl e ↦ rw (e, reallocate) (v, (refl, inr (b.block, n, asked n h, e)))
    | inr (block, e) ↦
        let larger : Buffer = record b { block = block; capacity = n } in
        let len : length block ≡ n = a.length-realloc b.block n block e in
        let (v', c') = copy_data-contents larger bytes (omega arith) (omega arith) in
        rw (e, reallocate)
          (
            v',
            (
              contents larger,
              c',
              inr (b.block, n, block, asked n h, e, ap (λ s. window s (data_len b) block) front),
            ),
          )
  ]
    where
      asked :
          (n : ℕ)
          → Suffices b.capacity (b.end + length bytes) b.limit (enough n)
          → Asked b bytes b.block n
      asked n h = record {
        whole = v.allocated;
        front = ap (λ s. window s (data_len b) b.block) (sym front);
        larger = h.0;
        enough_room = omega (arith, h.1);
        within = h.2;
      }

  enlarge-Outcome :
      (fuel : ℕ) (b : Buffer) (bytes : List ℕ)
      → IsValid b
      → b.start ≡ 0
      → b.limit < fuel
      → length bytes < 2 ^ 62
      → let (r, b') = enlarge a fuel b bytes in IsValid b' × Outcome b bytes r b'
  unfolding enlarge
  enlarge-Outcome fuel b bytes v front f small = reallocate-Outcome b bytes _ v front (
      grow-Suffices fuel b.capacity (b.end + length bytes) b.limit v.not_empty v.limited v.small
        (omega arith))

  compact-data_len : (b : Buffer) → data_len b ≡ data_len (compact b)
  unfolding compact
  compact-data_len b = omega arith

  Asked-compact :
      (b : Buffer) (bytes old : List ℕ) (n : ℕ)
      → contents (compact b) ≡ contents b
      → Asked (compact b) bytes old n
      → Asked b bytes old n
  unfolding compact
  Asked-compact b bytes old n c q = record {
    whole = q.whole;
    front = ap (λ k. take k old) (compact-data_len b) ∙ q.front ∙ c;
    larger = q.larger;
    enough_room = omega (arith, q.enough_room, compact-data_len b);
    within = q.within;
  }

  -- What an append does to the compacted buffer it does to the buffer.
  Outcome-compact :
      (b b' : Buffer) (bytes : List ℕ) (r : Appended)
      → contents (compact b) ≡ contents b
      → Outcome (compact b) bytes r b'
      → Outcome b bytes r b'
  unfolding compact
  Outcome-compact b b' bytes appended c (held, e, what) = (
    held,
    e,
    elim what [
      | inl same ↦ inl (same ∙ c)
      | inr (old, n, block, asked, given, at) ↦ inr (
        old,
        n,
        block,
        Asked-compact b bytes old n c asked,
        given,
        at ∙ ap (λ k. take k block) (sym (compact-data_len b)),
      )
    ],
  )
  Outcome-compact b b' bytes refused c (same, why) = (
    same ∙ c,
    elim why [
      | inl over ↦ inl (omega arith)
      | inr (old, n, asked, given) ↦ inr (old, n, Asked-compact b bytes old n c asked, given)
    ],
  )
  Outcome-compact b b' bytes endless c h = h

  -- The branch that has moved the bytes to the front.
  moved-Outcome :
      (fuel : ℕ) (b : Buffer) (bytes : List ℕ)
      → IsValid b
      → b.limit < fuel
      → length bytes < 2 ^ 62
      → let m = compact b in
        let (r, b') =
          if ltb (length bytes) (m.capacity - m.end)
          then (appended, copy_data m bytes)
          else enlarge a fuel m bytes in
        IsValid b' × Outcome b bytes r b'
  moved-Outcome fuel b bytes v f small =
      let m = compact b in
      let (v', c) = compact-contents b v in
      elim (Bool-cases (ltb (length bytes) (m.capacity - m.end))) [
        | inl room ↦
            let (v'', c') = copy_data-contents m bytes v' (ground arith) in
            rw room (v'', (contents m, c', inl c))
        | inr full ↦
            let grown =
              enlarge-Outcome fuel m bytes v' (compact-start b) (compact-limit b fuel f) small in
            rw full (grown.0, Outcome-compact b _ bytes _ c grown.1)
      ]

  -- `onion_http_buff_append` of a valid buffer ends (with more fuel than the limit) and keeps the
  -- buffer valid. If it returns 0, the bytes are appended to what waits to be read, or, where the block was
  -- made larger, to what stands in its place in the block that the allocator gave for one with what waits at
  -- its front. If it returns -1, what waits is unchanged, and either twice the needed size is over the limit
  -- or the allocator had no block for a size that it was asked for: at least the capacity, enough for what
  -- waits and the new bytes, and within the limit.
  pub buff_append-contents :
      (fuel : ℕ) (b : Buffer) (bytes : List ℕ)
      → IsValid b
      → b.limit < fuel
      → length bytes < 2 ^ 62
      → let (r, b') = buff_append a fuel b bytes in IsValid b' × Outcome b bytes r b'
  unfolding buff_append
  buff_append-contents fuel b bytes v f small =
      elim (Bool-cases (leb (length bytes) (b.capacity - b.end))) [
        | inl room ↦
            let (v', c') = copy_data-contents b bytes v (ground arith) in
            rw room (v', (contents b, c', inl refl))
        | inr full ↦ elim (Bool-cases (ltb 0 b.start)) [
          | inr front ↦ rw (full, front) (enlarge-Outcome fuel b bytes v (ground arith) f small)
          | inl behind ↦ rw (full, behind) (moved-Outcome fuel b bytes v f small)
        ]
      ]

-- `onion_http_buff_consume` of at most what waits drops it from the front and keeps the buffer
-- valid.
pub buff_consume-drop :
    (b : Buffer) (n : ℕ)
    → IsValid b
    → n ≤ length (contents b)
    → IsValid (buff_consume b n) × (contents (buff_consume b n) ≡ drop n (contents b))
unfolding buff_consume
buff_consume-drop b n v le =
    let len = length-contents b v in
    elim (Bool-cases (leb b.end (b.start + n))) [
      | inl all ↦ rw all (
        omega arith,
        sym (drop-window b.start (data_len b) n 0 (b.start + n) b.block (ground arith) refl),
      )
      | inr part ↦ rw part (
        ground arith,
        sym (drop-window b.start (data_len b) n _ (b.start + n) b.block (ground arith) refl),
      )
    ]
