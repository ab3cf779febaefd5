-- ===== src/Http/Buffer.antt =====
-- `onion_http_buffer_t` of src/onion/http.c: a growing buffer of received bytes, read at `start` and
-- written at `end`. `block` is the memory that `data` points to, all `capacity` bytes of it.

pub mod Growth
pub mod Contents
pub mod Exit
use checks.Prelude.{
  ℕ, zero, suc, ◌+◌, ◌-◌, ◌*◌, ◌%◌, ◌^◌, Bool, true, false, Option, none, some, List, ltb, leb,
  if◌then◌else◌, length,
}
use checks.Prelude.Memory.{memcpy, window}
use checks.Http.Allocator.{Allocator}

pub record Buffer : Type 0 where
  pub block : List ℕ
  pub limit : ℕ
  pub capacity : ℕ
  pub start : ℕ
  pub end : ℕ

-- What `onion_http_buff_append` returns: 0, -1, or nothing at all where its loop does not end.
pub data Appended : Type 0 where
  appended : Appended
  refused : Appended
  endless : Appended

-- The bytes that wait to be read: `onion_http_buff_data_start` and `onion_http_buff_data_len`. The source
-- returns an `int`, which is this number where it is less than 2 ^ 31; it compares it with limits of 512 and
-- 8192 bytes.
abbrev pub data_len : Buffer → ℕ
data_len b = b.end - b.start

abbrev pub contents : Buffer → List ℕ
contents b = window b.start (data_len b) b.block

-- How the loop that doubles the capacity ends.
pub data Grown : Type 0 where
  enough : ℕ → Grown
  over_limit : Grown
  out_of_fuel : Grown

-- `while (new_capacity < required) …`. `size_t` doubling wraps at 2 ^ 64.
unfoldable pub grow : ℕ → ℕ → ℕ → ℕ → Grown
grow zero capacity required limit = out_of_fuel
grow (suc fuel) capacity required limit =
    let doubled = (capacity * 2) % 2 ^ 64 in
    let again = grow fuel doubled required limit in
    if ltb capacity required
    then (if ltb limit doubled then over_limit else again)
    else enough capacity

-- `copy_data:`
unfoldable pub copy_data : Buffer → List ℕ → Buffer
copy_data b bytes = record b { block = memcpy b.block b.end bytes; end = b.end + length bytes }

-- The `memmove` to the front, where `start > 0`.
unfoldable pub compact : Buffer → Buffer
compact b = record b { block = memcpy b.block 0 (contents b); start = 0; end = data_len b }

module _ (a : Allocator) where
  open a use {realloc}

  -- The rest of the growing branch, from the loop's result on.
  unfoldable pub reallocate : Buffer → List ℕ → Grown → Appended × Buffer
  reallocate b bytes over_limit = (refused, b)
  reallocate b bytes out_of_fuel = (endless, b)
  reallocate b bytes (enough capacity) = elim (realloc b.block capacity) [
    | none ↦ (refused, b)
    | some block ↦ (appended, copy_data (record b { block = block; capacity = capacity }) bytes)
  ]

  unfoldable pub enlarge : ℕ → Buffer → List ℕ → Appended × Buffer
  enlarge fuel b bytes = reallocate b bytes (grow fuel b.capacity (b.end + length bytes) b.limit)

  -- `onion_http_buff_append`.
  unfoldable pub buff_append : ℕ → Buffer → List ℕ → Appended × Buffer
  buff_append fuel b bytes =
      if leb (length bytes) (b.capacity - b.end)
      then (appended, copy_data b bytes)
      else if ltb 0 b.start
      then (let moved = compact b in
          if ltb (length bytes) (moved.capacity - moved.end)
          then (appended, copy_data moved bytes)
          else enlarge fuel moved bytes)
      else enlarge fuel b bytes

-- `onion_http_buff_consume`.
unfoldable pub buff_consume : Buffer → ℕ → Buffer
buff_consume b n =
    if leb b.end (b.start + n)
    then record b { start = 0; end = 0 }
    else record b { start = b.start + n }

-- `onion_http_buff_exit`: the block is given back, and `data` keeps its stale address.
unfoldable pub buff_exit : Buffer → Buffer
buff_exit b = record b { start = 0; end = 0; capacity = 0; limit = 0 }

module _ (a : Allocator) where
  open a use {malloc}

  -- `onion_http_buff_init`; `none` is -1.
  unfoldable pub buff_init : Buffer → ℕ → ℕ → Option Buffer
  buff_init b capacity limit = if ltb limit 8 then none else elim (malloc capacity) [
    | none ↦ none
    | some block ↦
        some (record { block = block; limit = limit; capacity = capacity; start = 0; end = 0 })
  ]

  -- `onion_http_buff_reinit`.
  unfoldable pub buff_reinit : Buffer → ℕ → ℕ → Option Buffer
  unfolding buff_init buff_exit
  buff_reinit b capacity limit = buff_init (buff_exit b) capacity limit
