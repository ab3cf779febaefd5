-- ===== src/Prelude/Memory.antt =====
-- Blocks of C memory as lists of bytes: `memcpy` into a block, and the bytes that stand in a window.
use checks.Prelude.Lists.{length, take, drop, length-take, length-drop}
use Prim.Native.Nat.{ℕ, zero, suc, ◌+◌, ◌≤◌}
use mathlib.Core.Path.{◌≡◌, refl, ap, ◌∙◌}
use mathlib.Core.List.{List, [], ◌∷◌, ◌++◌}
use native.Mathlib.Omega.{arith}

-- `memcpy(block + offset, src, n)`, where `src` lists the `n` bytes. What would fall outside the
-- block is dropped: the callers' bounds rule it out.
abbrev pub memcpy : List ℕ → ℕ → List ℕ → List ℕ
memcpy [] offset src = []
memcpy (x ∷ block) zero [] = x ∷ block
memcpy (x ∷ block) zero (b ∷ src) = b ∷ memcpy block zero src
memcpy (x ∷ block) (suc offset) src = x ∷ memcpy block offset src

-- The `n` bytes from `offset` on.
abbrev pub window : ℕ → ℕ → List ℕ → List ℕ
window offset n block = take n (drop offset block)

pub length-memcpy :
    (block : List ℕ) (offset : ℕ) (src : List ℕ) → length (memcpy block offset src) ≡ length block
length-memcpy [] offset src = refl
length-memcpy (x ∷ block) zero [] = refl
length-memcpy (x ∷ block) zero (b ∷ src) = ap suc (length-memcpy block zero src)
length-memcpy (x ∷ block) (suc offset) src = ap suc (length-memcpy block offset src)

pub length-window :
    (offset n : ℕ) (block : List ℕ) → offset + n ≤ length block → length (window offset n block) ≡ n
length-window offset n block h =
    omega (arith, length-take n (drop offset block), length-drop offset block)

pub take-memcpy :
    (block src : List ℕ) → length src ≤ length block → take (length src) (memcpy block 0 src) ≡ src
take-memcpy [] [] h = refl
take-memcpy [] (b ∷ src) h = absurd (omega arith)
take-memcpy (x ∷ block) [] h = refl
take-memcpy (x ∷ block) (b ∷ src) h = ap (λ r. b ∷ r) (take-memcpy block src (omega arith))

-- Bytes copied just behind a window extend it.
pub window-memcpy :
    (block src : List ℕ) (offset n e k : ℕ)
    → e ≡ offset + n
    → k ≡ n + length src
    → e + length src ≤ length block
    → window offset k (memcpy block e src) ≡ window offset n block ++ src
window-memcpy block src zero zero zero k p q h =
    let k' : k ≡ length src = omega arith in
    ap (λ j. take j (memcpy block 0 src)) k' ∙ take-memcpy block src (omega arith)
window-memcpy block src zero zero (suc e) k p q h = absurd (omega arith)
window-memcpy block src zero (suc n) zero k p q h = absurd (omega arith)
window-memcpy block src (suc o) n zero k p q h = absurd (omega arith)
window-memcpy [] src zero (suc n) (suc e) k p q h = absurd (omega arith)
window-memcpy [] src (suc o) n (suc e) k p q h = absurd (omega arith)
window-memcpy (x ∷ block) src zero (suc n) (suc e) zero p q h = absurd (omega arith)
window-memcpy (x ∷ block) src zero (suc n) (suc e) (suc k) p q h =
    ap (λ r. x ∷ r) (window-memcpy block src zero n e k (omega arith) (omega arith) (omega arith))
window-memcpy (x ∷ block) src (suc o) n (suc e) k p q h =
    window-memcpy block src o n e k (omega arith) (omega arith) (omega arith)

-- A copy behind a window or before it leaves it alone.
pub window-memcpy_before :
    (block src : List ℕ) (offset n e : ℕ)
    → offset + n ≤ e
    → window offset n (memcpy block e src) ≡ window offset n block
window-memcpy_before [] src offset n e h = refl
window-memcpy_before (x ∷ block) src zero zero e h = refl
window-memcpy_before (x ∷ block) src zero (suc n) zero h = absurd (omega arith)
window-memcpy_before (x ∷ block) src zero (suc n) (suc e) h =
    ap (λ r. x ∷ r) (window-memcpy_before block src zero n e (omega arith))
window-memcpy_before (x ∷ block) src (suc o) n zero h = absurd (omega arith)
window-memcpy_before (x ∷ block) src (suc o) n (suc e) h =
    window-memcpy_before block src o n e (omega arith)

pub drop-memcpy_zero :
    (block src : List ℕ) (offset : ℕ)
    → length src ≤ offset
    → drop offset (memcpy block 0 src) ≡ drop offset block
drop-memcpy_zero [] src offset h = refl
drop-memcpy_zero (x ∷ block) [] offset h = refl
drop-memcpy_zero (x ∷ block) (b ∷ src) zero h = absurd (omega arith)
drop-memcpy_zero (x ∷ block) (b ∷ src) (suc o) h = drop-memcpy_zero block src o (omega arith)

pub drop-memcpy :
    (block src : List ℕ) (offset e : ℕ)
    → e + length src ≤ offset
    → drop offset (memcpy block e src) ≡ drop offset block
drop-memcpy block src offset zero h = drop-memcpy_zero block src offset (omega arith)
drop-memcpy [] src offset (suc e) h = refl
drop-memcpy (x ∷ block) src zero (suc e) h = absurd (omega arith)
drop-memcpy (x ∷ block) src (suc o) (suc e) h = drop-memcpy block src o e (omega arith)

-- A block that begins with another has its windows.
pub window-take :
    (offset n m : ℕ) (block : List ℕ)
    → offset + n ≤ m
    → window offset n (take m block) ≡ window offset n block
window-take zero zero m block h = refl
window-take zero (suc n) zero block h = absurd (omega arith)
window-take (suc o) n zero block h = absurd (omega arith)
window-take zero (suc n) (suc m) [] h = refl
window-take (suc o) n (suc m) [] h = refl
window-take zero (suc n) (suc m) (x ∷ block) h =
    ap (λ r. x ∷ r) (window-take zero n m block (omega arith))
window-take (suc o) n (suc m) (x ∷ block) h = window-take o n m block (omega arith)

pub drop-take : (m n k : ℕ) (xs : List ℕ) → n ≡ m + k → drop m (take n xs) ≡ take k (drop m xs)
drop-take zero n k xs e = let same : n ≡ k = omega arith in ap (λ j. take j xs) same
drop-take (suc m) zero k xs e = absurd (omega arith)
drop-take (suc m) (suc n) zero [] e = refl
drop-take (suc m) (suc n) (suc k) [] e = refl
drop-take (suc m) (suc n) k (x ∷ xs) e = drop-take m n k xs (omega arith)

pub drop-drop : (m o p : ℕ) (xs : List ℕ) → p ≡ o + m → drop m (drop o xs) ≡ drop p xs
drop-drop m zero p xs e = let same : m ≡ p = omega arith in ap (λ j. drop j xs) same
drop-drop m (suc o) zero xs e = absurd (omega arith)
drop-drop zero (suc o) (suc p) [] e = refl
drop-drop (suc m) (suc o) (suc p) [] e = refl
drop-drop m (suc o) (suc p) (x ∷ xs) e = drop-drop m o p xs (omega arith)

-- Dropping the front of a window moves it on.
pub drop-window :
    (offset n m k p : ℕ) (block : List ℕ)
    → n ≡ m + k
    → p ≡ offset + m
    → drop m (window offset n block) ≡ window p k block
drop-window offset n m k p block e f =
    drop-take m n k (drop offset block) e ∙ ap (take k) (drop-drop m offset p block f)

-- Taking the front of a window makes it shorter.
pub take-take : (m n : ℕ) (xs : List ℕ) → m ≤ n → take m (take n xs) ≡ take m xs
take-take zero n xs h = refl
take-take (suc m) zero xs h = absurd (omega arith)
take-take (suc m) (suc n) [] h = refl
take-take (suc m) (suc n) (x ∷ xs) h = ap (λ r. x ∷ r) (take-take m n xs (omega arith))

-- A copy that fills the block is the block.
pub memcpy_whole : (block src : List ℕ) → length block ≡ length src → memcpy block 0 src ≡ src
memcpy_whole [] [] e = refl
memcpy_whole [] (b ∷ src) e = absurd (omega arith)
memcpy_whole (x ∷ block) [] e = absurd (omega arith)
memcpy_whole (x ∷ block) (b ∷ src) e = ap (λ r. b ∷ r) (memcpy_whole block src (omega arith))

-- A copy of no bytes changes nothing.
pub memcpy-nil : (block : List ℕ) (offset : ℕ) → memcpy block offset [] ≡ block
memcpy-nil [] offset = refl
memcpy-nil (x ∷ block) zero = refl
memcpy-nil (x ∷ block) (suc offset) = ap (λ r. x ∷ r) (memcpy-nil block offset)
