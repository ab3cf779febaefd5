-- ===== src/Chain/Ring.antt =====
-- The list of entries that the memory holds, for project/core/opium_list.h.
use checks.Prelude.{ℕ, ◌≡◌, ◌≢◌, sym, ◌∙◌, List, [], ◌∷◌, ◌++◌, All, true, ◌↔◌, arith}
use checks.Chain.{Memory, list_empty}

-- The entries `xs` stand in this order between `p` and `q`, linked both ways.
abbrev pub Between : Memory → ℕ → ℕ → List ℕ → Type 0
Between h p q [] = ((h p).next ≡ q) × ((h q).prev ≡ p)
Between h p q (x ∷ xs) = ((h p).next ≡ x) × ((h x).prev ≡ p) × Between h x q xs

-- The list with this head has the entries `xs`.
abbrev pub Ring : Memory → ℕ → List ℕ → Type 0
Ring h head xs = Between h head head xs

abbrev pub Apart : ℕ → List ℕ → Type 0
Apart a xs = All (λ b. b ≢ a) xs

abbrev pub Distinct : List ℕ → Type 0
Distinct [] = Unit
Distinct (x ∷ xs) = Apart x xs × Distinct xs

-- Entries stay linked where `next` changes at `m` and `n` only, `prev` at `k` and `l`, and these are
-- not among them.
pub Between-keep :
    (h h' : Memory) (m n k l : ℕ)
    → ((a : ℕ) → a ≢ m → a ≢ n → (h' a).next ≡ (h a).next)
    → ((a : ℕ) → a ≢ k → a ≢ l → (h' a).prev ≡ (h a).prev)
    → (p q : ℕ) (xs : List ℕ) → p ≢ m
    → p ≢ n
    → q ≢ k
    → q ≢ l
    → Apart m xs
    → Apart n xs
    → Apart k xs
    → Apart l xs
    → Between h p q xs
    → Between h' p q xs
Between-keep h h' m n k l f g p q [] pm pn qk ql am an ak al b = (f p pm pn ∙ b.0, g q qk ql ∙ b.1)
Between-keep h h' m n k l f g p q (x ∷ xs) pm pn qk ql am an ak al b = (
  f p pm pn ∙ b.0,
  g x ak.0 al.0 ∙ b.1,
  Between-keep h h' m n k l f g x q xs am.0 an.0 qk ql am.1 an.1 ak.1 al.1 b.2,
)

-- The last entry, or the start where there is none.
abbrev pub last : ℕ → List ℕ → ℕ
last p [] = p
last p (x ∷ xs) = last x xs

pub Between-last :
    (h : Memory) (p q : ℕ) (xs : List ℕ)
    → Between h p q xs
    → ((h (last p xs)).next ≡ q) × ((h q).prev ≡ last p xs)
Between-last h p q [] b = b
Between-last h p q (x ∷ xs) b = Between-last h x q xs b.2

pub last-Apart : (a p : ℕ) (xs : List ℕ) → p ≢ a → Apart a xs → last p xs ≢ a
last-Apart a p [] n d = n
last-Apart a p (x ∷ xs) n d = last-Apart a x xs d.0 d.1

-- The first entry, or the head where there is none.
abbrev pub first : ℕ → List ℕ → ℕ
first head [] = head
first head (x ∷ xs) = x

pub Between-first :
    (h : Memory) (head : ℕ) (xs : List ℕ)
    → Ring h head xs
    → ((h head).next ≡ first head xs) × ((h (first head xs)).prev ≡ head)
Between-first h head [] b = b
Between-first h head (x ∷ xs) b = (b.0, b.1)

pub first-Apart : (a head : ℕ) (xs : List ℕ) → a ≢ head → Apart a xs → a ≢ first head xs
first-Apart a head [] n d = n
first-Apart a head (x ∷ xs) n d = λ e. d.0 (sym e)

-- A new entry behind the last one: `next` changes there and at the new one, `prev` at the end.
pub Between-snoc :
    (h h' : Memory) (new p q : ℕ) (xs : List ℕ)
    → ((a : ℕ) → a ≢ last p xs → a ≢ new → (h' a).next ≡ (h a).next)
    → ((a : ℕ) → a ≢ q → a ≢ new → (h' a).prev ≡ (h a).prev)
    → ((h' (last p xs)).next ≡ new)
    → ((h' new).prev ≡ last p xs)
    → Between h' new q []
    → p ≢ new
    → Apart new xs
    → Apart q xs
    → Apart p xs
    → Distinct xs
    → Between h p q xs
    → Between h' p q (xs ++ (new ∷ []))
Between-snoc h h' new p q [] f g e1 e2 e pn an aq ap d b = (e1, e2, e)
Between-snoc h h' new p q (x ∷ xs) f g e1 e2 e pn an aq ap d b =
    let away : last x xs ≢ p = last-Apart p x xs ap.0 ap.1 in
    (
      f p (λ z. away (sym z)) pn ∙ b.0,
      g x aq.0 an.0 ∙ b.1,
      Between-snoc h h' new x q xs f g e1 e2 e an.0 an.1 aq.1 d.0 d.1 b.2,
    )

-- The emptiness test of a list succeeds exactly where it has no entries. Condition: the head is not
-- one of the entries.
pub list_empty-Ring :
    (h : Memory) (head : ℕ) (xs : List ℕ)
    → Apart head xs
    → Ring h head xs
    → (list_empty head h ≡ true) ↔ (xs ≡ [])
unfolding list_empty
list_empty-Ring h head [] a b = ground arith
list_empty-Ring h head (x ∷ xs) a b = ground arith
