-- ===== src/Http/Buffer/Exit.antt =====
-- `onion_http_buff_exit` and `onion_http_buff_reinit` of src/onion/http.c.
use checks.Prelude.{
  ℕ, ◌+◌, ◌^◌, ◌≤◌, ◌<◌, ◌≡◌, inl, inr, some, List, [], ◌∷◌, Option-cases, length, arith,
}
use checks.Http.Allocator.{Allocator}
use checks.Http.Buffer.{
  Buffer, endless, contents, reallocate, enlarge, buff_append, buff_reinit, buff_exit,
}
use checks.Http.Buffer.Growth.{grow-endless}
use checks.Http.Buffer.Contents.{IsValid}

-- After `onion_http_buff_exit`, an append of one byte or more never returns: the capacity is 0, and
-- doubling leaves it 0. No amount of fuel is enough.
pub buff_append-exit :
    (a : Allocator) (fuel : ℕ) (b : Buffer) (bytes : List ℕ)
    → 0 < length bytes
    → buff_append a fuel (buff_exit b) bytes ≡ (endless, buff_exit b)
unfolding buff_append enlarge reallocate buff_exit
buff_append-exit a fuel b [] h = absurd (omega arith)
buff_append-exit a fuel b (c ∷ bytes) h =
    ground (arith, grow-endless fuel (0 + length (c ∷ bytes)) 0)

-- `onion_http_buff_reinit`, where it returns 0, leaves a valid buffer with nothing to read.
pub buff_reinit-empty :
    (a : Allocator) (b : Buffer) (capacity limit : ℕ) {b' : Buffer}
    → 0 < capacity
    → capacity ≤ limit
    → limit < 2 ^ 62
    → buff_reinit a b capacity limit ≡ some b'
    → IsValid b' × (contents b' ≡ []) × (b'.limit ≡ limit)
unfolding buff_reinit
buff_reinit-empty a b capacity limit pos le small h = elim (Option-cases (a.malloc capacity)) [
  | inl e ↦ ground arith
  | inr (block, e) ↦ ground (arith, a.length-malloc capacity block e)
]
