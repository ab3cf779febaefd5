-- ===== src/OpiumArena.antt =====
-- The arena of slabs of project/core/opium_arena.c, with the two functions on powers of two of
-- project/core/opium.c.
pub mod Index
pub mod Lifetime
mod Tests
use checks.Prelude.{
  ℕ, zero, suc, ◌+◌, ◌-◌, ◌*◌, ◌/◌, ◌%◌, ◌^◌, Bool, true, false, Option, none, some, List, [], ◌++◌,
  leb, ltb, ◌==◌, if◌then◌else◌,
}
use checks.OpiumSlab.{Slab, slab_init}
use checks.OpiumSlab.Alloc.{Allocated, null, item, undefined, slab_alloc, memzero}
use checks.OpiumSlab.Free.{slab_free}
use checks.OpiumSlab.Walk.{slab_exit}

-- The number of bits of a number: 64 less `__builtin_clzll`, for numbers of 64 bits above 0.
unfoldable pub bit_length : ℕ → ℕ → ℕ
bit_length zero n = 0
bit_length (suc width) n = let rest = bit_length width (n / 2) in if n == 0 then 0 else suc rest

-- `opium_round_of_two`, of at least 2 and at most 2 ^ 63.
unfoldable pub round_of_two : ℕ → ℕ
round_of_two x = 2 ^ bit_length 64 (x - 1)

-- `opium_log2`, of at least 1.
unfoldable pub log2 : ℕ → ℕ
log2 x = bit_length 64 x - 1

-- `opium_arena_t`, less its log, with the bytes that the headers of the slots are.
pub record Arena : Type 0 where
  pub shift_count : ℕ
  pub min_shift : ℕ
  pub max_shift : ℕ
  pub min_size : ℕ
  pub slabs : ℕ → Slab
  pub headers : ℕ → ℕ

-- `OPIUM_ARENA_MIN_SHIFT` and `OPIUM_ARENA_MAX_SHIFT`.
abbrev pub arena_min_shift : ℕ
arena_min_shift = 4

abbrev pub arena_max_shift : ℕ
arena_max_shift = 16

-- The loop of `opium_arena_init` over the slabs.
unfoldable pub init_slabs : (ℕ → ℕ) → ℕ → ℕ → (ℕ → Slab) → ℕ → Slab
init_slabs round_up zero index slabs = slabs
init_slabs round_up (suc rounds) index slabs = init_slabs round_up rounds (suc index) (λ i.
    if i == index
    then slab_init round_up (slabs index) (2 ^ (arena_min_shift + index))
    else slabs i)

-- `opium_arena_init`, where the allocation of the slabs succeeds or not; `round_up` is what
-- `opium_slab_init` calls, and `false` is `OPIUM_RET_ERR`.
unfoldable pub arena_init : (ℕ → ℕ) → Bool → (ℕ → Slab) → Arena → Bool × Arena
unfolding init_slabs
arena_init round_up slabs_ok zeroed arena =
    let count = arena_max_shift - arena_min_shift + 1 in
    let sized = record arena {
      min_shift = arena_min_shift;
      max_shift = arena_max_shift;
      min_size = 2 ^ arena_min_shift;
      shift_count = count;
    } in
    if slabs_ok
    then (true, record sized { slabs = init_slabs round_up count 0 zeroed })
    else (false, sized)

-- The size that is looked for, and the slab that is to hold it.
abbrev pub rounded_size : Arena → ℕ → ℕ
rounded_size arena size =
    let round_size = round_of_two size in
    if ltb round_size arena.min_size then arena.min_size else round_size

unfoldable pub slab_index : Arena → ℕ → ℕ
slab_index arena size = (log2 (rounded_size arena size) + 2 ^ 64 - arena_min_shift) % 2 ^ 64

abbrev pub set_slab : ℕ → Slab → (ℕ → Slab) → ℕ → Slab
set_slab index s slabs i = if i == index then s else slabs i

-- How an allocation ends; a write before address 0 or behind the slabs is `undefined`.
pub data ArenaAllocated : Type 0 where
  no_item : Arena → ArenaAllocated
  arena_item : ℕ → Arena → ArenaAllocated
  bad_access : ArenaAllocated

-- The header of an item that a slab has given, marked with the index of the slab in a byte.
unfoldable pub mark_item : Arena → ℕ → Allocated → ArenaAllocated
mark_item arena index (null s) = bad_access
mark_item arena index undefined = bad_access
mark_item arena index (item ptr s) = arena_item ptr (record arena {
  slabs = set_slab index s arena.slabs;
  headers = λ a. if a == ptr - 1 then index % 256 else s.headers a;
})

-- `opium_arena_alloc`; `chunk` is what the system would return.
unfoldable pub arena_alloc : Arena → ℕ → Option ℕ → ArenaAllocated
unfolding mark_item
arena_alloc arena size chunk =
    let index = slab_index arena size in
    if leb size 1
    then no_item arena
    else if ltb index arena.shift_count
    then mark_item arena index
        (slab_alloc (record (arena.slabs index) { headers = arena.headers }) chunk)
    else bad_access

-- `opium_arena_calloc`.
unfoldable pub arena_calloc : Arena → ℕ → Option ℕ → ArenaAllocated
unfolding arena_alloc
arena_calloc arena size chunk = elim (arena_alloc arena size chunk) [
  | no_item a ↦ no_item a
  | arena_item ptr a ↦ arena_item ptr (record a { headers = memzero ptr size a.headers })
  | bad_access ↦ bad_access
]

-- `opium_arena_free`; the first result is the chunk that is given back, and `none` is an access behind
-- the slabs.
unfoldable pub arena_free : Arena → ℕ → Option (Option ℕ × Arena)
arena_free arena ptr =
    let index = arena.headers (ptr - 1) in
    let freed = slab_free (record (arena.slabs index) { headers = arena.headers }) (ptr - 1) in
    if ltb index arena.shift_count
    then some (freed.0, record arena { slabs = set_slab index freed.1 arena.slabs })
    else none

-- The loop of `opium_arena_exit`: the chunks that are given back and the slabs that are left.
unfoldable pub exit_slabs : ℕ → ℕ → ℕ → (ℕ → Slab) → Option (List ℕ × (ℕ → Slab))
exit_slabs fuel zero index slabs = some ([], slabs)
exit_slabs fuel (suc rounds) index slabs = elim (slab_exit fuel (slabs index)) [
  | none ↦ none
  | some (chunks, left) ↦ elim (exit_slabs fuel rounds (suc index) (set_slab index left slabs)) [
    | none ↦ none
    | some (more, end) ↦ some (chunks ++ more, end)
  ]
]

-- `opium_arena_exit`, with fuel for the lists of each slab. The slabs themselves are not freed.
unfoldable pub arena_exit : ℕ → Arena → Option (List ℕ × Arena)
unfolding exit_slabs
arena_exit fuel arena = elim (exit_slabs fuel arena.shift_count 0 arena.slabs) [
  | none ↦ none
  | some (chunks, slabs) ↦ some (
    chunks,
    record arena { slabs = slabs; min_size = 0; shift_count = 0; min_shift = 0; max_shift = 0 },
  )
]
