-- ===== src/Http/Allocator.antt =====
-- What the HTTP code asks of the allocator that it is given (src/utils/src/slab.c): blocks of the
-- asked size. `none` is NULL. What a block holds that was made larger is left open too. How the
-- allocator chooses, and when it refuses, is left open.
use checks.Prelude.{ℕ, ◌≡◌, Option, some, List, length}

pub record Allocator : Type 0 where
  pub malloc : ℕ → Option (List ℕ)
  pub realloc : List ℕ → ℕ → Option (List ℕ)
  pub length-malloc : (n : ℕ) (block : List ℕ) → malloc n ≡ some block → length block ≡ n
  pub length-realloc :
      (old : List ℕ) (n : ℕ) (block : List ℕ) → realloc old n ≡ some block → length block ≡ n
