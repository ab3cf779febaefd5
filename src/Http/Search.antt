-- ===== src/Http/Search.antt =====
-- The two searches of src/onion/http.c. A C pair `start, size` is the list of the bytes
-- `start[0 .. size)`, and a returned pointer is its offset from `start` (`none` for NULL).
pub mod Chacha
pub mod Stringa
use checks.Prelude.{
  ℕ, zero, suc, ◌+◌, ◌-◌, Bool, true, false, ◌&&◌, ◌||◌, Option, none, some, List, [], ◌∷◌, ltb,
  ◌==◌, if◌then◌else◌, length, drop,
}

-- The loop of `onion_chacha`, from `offset` on.
chacha_from : List ℕ → ℕ → ℕ → Option ℕ
chacha_from [] target offset = none
chacha_from (c ∷ rest) target offset =
    if c == target then some offset else chacha_from rest target (offset + 1)

unfoldable pub chacha : List ℕ → ℕ → Option ℕ
unfolding chacha_from
chacha bytes target = chacha_from bytes target 0

-- `memcmp(a, b, n) == 0`, where `b` has `n` bytes and `a` at least as many.
pub same_bytes : List ℕ → List ℕ → Bool
same_bytes bytes [] = true
same_bytes [] (t ∷ ts) = false
same_bytes (c ∷ rest) (t ∷ ts) = (c == t) && same_bytes rest ts

-- The loop of `onion_stringa`: `rounds` offsets are left, `bytes` starts at the present one.
stringa_from : ℕ → List ℕ → List ℕ → ℕ → Option ℕ
stringa_from zero bytes target offset = none
stringa_from (suc rounds) bytes target offset =
    let rest = stringa_from rounds (drop 1 bytes) target (offset + 1) in
    if same_bytes bytes target then some offset else rest

unfoldable pub stringa : List ℕ → List ℕ → Option ℕ
unfolding stringa_from same_bytes
stringa bytes target =
    if (length target == 0) || ltb (length bytes) (length target)
    then none
    else stringa_from (length bytes - length target + 1) bytes target 0
