-- ===== src/Chain/Delete.antt =====
-- `opium_list_del` of project/core/opium_list.h at any entry of a list.
use checks.Prelude.{ℕ, ◌≡◌, ◌≢◌, sym, ◌∙◌, List, [], ◌∷◌, ◌++◌, All, false, arith}
use checks.Chain.{Memory, list_del, is_linked}
use checks.Chain.Ring.{Ring, Between, Apart, Distinct, first, last, last-Apart, Between-keep}
use checks.Chain.Insert.{list_del-next, list_del-prev}

Apart-split : (a : ℕ) (xs ys : List ℕ) → Apart a (xs ++ ys) → Apart a xs × Apart a ys
Apart-split a [] ys h = (tt, h)
Apart-split a (x ∷ xs) ys h = let rest = Apart-split a xs ys h.1 in ((h.0, rest.0), rest.1)

-- No address of the first list is in the second.
abbrev Disjoint : List ℕ → List ℕ → Type 0
Disjoint xs ys = All (λ x. Apart x ys) xs

Distinct-split : (xs ys : List ℕ) → Distinct (xs ++ ys) → Distinct xs × Distinct ys × Disjoint xs ys
Distinct-split [] ys h = (tt, h, tt)
Distinct-split (x ∷ xs) ys h =
    let rest = Distinct-split xs ys h.1 in
    let a = Apart-split x xs ys h.0 in ((a.0, rest.0), rest.1, (a.1, rest.2))

Disjoint-Apart : (xs ys : List ℕ) (y : ℕ) → Disjoint xs (y ∷ ys) → Apart y xs
Disjoint-Apart [] ys y h = tt
Disjoint-Apart (x ∷ xs) ys y h = (λ e. h.0.0 (sym e), Disjoint-Apart xs ys y h.1)

Disjoint-tail : (xs ys : List ℕ) (y : ℕ) → Disjoint xs (y ∷ ys) → Disjoint xs ys
Disjoint-tail [] ys y h = tt
Disjoint-tail (x ∷ xs) ys y h = (h.0.1, Disjoint-tail xs ys y h.1)

last-Disjoint : (p : ℕ) (xs ys : List ℕ) → Apart p ys → Disjoint xs ys → Apart (last p xs) ys
last-Disjoint p [] ys a h = a
last-Disjoint p (x ∷ xs) ys a h = last-Disjoint x xs ys h.0 h.1

first-Disjoint : (q : ℕ) (xs ys : List ℕ) → Apart q xs → Disjoint xs ys → Apart (first q ys) xs
first-Disjoint q xs [] a h = a
first-Disjoint q xs (y ∷ ys) a h = Disjoint-Apart xs ys y h

-- The parts before and behind an entry.
Between-split :
    (h : Memory) (p q e : ℕ) (xs ys : List ℕ)
    → Between h p q (xs ++ (e ∷ ys))
    → Between h p e xs × Between h e q ys
Between-split h p q e [] ys b = ((b.0, b.1), b.2)
Between-split h p q e (x ∷ xs) ys b =
    let rest = Between-split h x q e xs ys b.2 in ((b.0, b.1, rest.0), rest.1)

-- The links round an entry.
Between-around :
    (h : Memory) (p q e : ℕ) (xs ys : List ℕ)
    → Between h p e xs
    → Between h e q ys
    → ((h e).next ≡ first q ys) × ((h e).prev ≡ last p xs)
Between-around h p q e [] [] a b = (b.0, a.1)
Between-around h p q e [] (y ∷ ys) a b = (b.0, a.1)
Between-around h p q e (x ∷ xs) ys a b = Between-around h x q e xs ys a.2 b

-- The part behind the entry, from the last address before it on.
Between-front :
    (h h' : Memory) (q e a : ℕ) (ys : List ℕ)
    → Between h e q ys
    → q ≢ e
    → Apart e ys
    → Apart q ys
    → Distinct ys
    → ((z : ℕ) → z ≢ a → z ≢ e → (h' z).next ≡ (h z).next)
    → ((z : ℕ) → z ≢ first q ys → z ≢ e → (h' z).prev ≡ (h z).prev)
    → (h' a).next ≡ first q ys
    → (h' (first q ys)).prev ≡ a
    → Apart a ys
    → Between h' a q ys
Between-front h h' q e a [] b qe ey qy d f g u v w = (u, v)
Between-front h h' q e a (y ∷ ys) b qe ey qy d f g u v w = (
  u,
  v,
  Between-keep h h' a e y e f g y q ys w.0 ey.0 (λ z. qy.0 (sym z)) qe w.1 ey.1 d.0 ey.1 b.2,
)

module _ (h h' : Memory) (q e : ℕ) (ys : List ℕ) (behind : Between h e q ys) (q_ne : q ≢ e)
    (e_ys : Apart e ys) (q_ys : Apart q ys) (d_ys : Distinct ys) where
  Between-skip :
      (p : ℕ) (xs : List ℕ)
      → ((z : ℕ) → z ≢ last p xs → z ≢ e → (h' z).next ≡ (h z).next)
      → ((z : ℕ) → z ≢ first q ys → z ≢ e → (h' z).prev ≡ (h z).prev)
      → (h' (last p xs)).next ≡ first q ys
      → (h' (first q ys)).prev ≡ last p xs
      → Apart (last p xs) ys
      → p ≢ e
      → Apart e xs
      → Apart p xs
      → Apart (first q ys) xs
      → Distinct xs
      → Between h p e xs
      → Between h' p q (xs ++ ys)
  Between-skip p [] f g u v w pe ex px fx d b =
      Between-front h h' q e p ys behind q_ne e_ys q_ys d_ys f g u v w
  Between-skip p (x ∷ xs) f g u v w pe ex px fx d b =
      let away : last x xs ≢ p = last-Apart p x xs px.0 px.1 in
      (
        f p (λ z. away (sym z)) pe ∙ b.0,
        g x (λ z. fx.0 z) ex.0 ∙ b.1,
        Between-skip x xs f g u v w ex.0 ex.1 d.0 fx.1 d.1 b.2,
      )

first-ne : (q e : ℕ) (ys : List ℕ) → q ≢ e → Apart e ys → first q ys ≢ e
first-ne q e [] n a = n
first-ne q e (y ∷ ys) n a = a.0

list_del-is_linked : (m : Memory) (entry : ℕ) → is_linked entry (list_del entry m) ≡ false
unfolding is_linked list_del
list_del-is_linked m entry = ground arith

-- Deletion of an entry of a list, wherever it stands, leaves the other entries in their order, and the
-- entry counts as not linked. Condition: the entries and the head are different addresses.
pub list_del-Ring :
    (h : Memory) (head e : ℕ) (xs ys : List ℕ)
    → Ring h head (xs ++ (e ∷ ys))
    → Apart head (xs ++ (e ∷ ys))
    → Distinct (xs ++ (e ∷ ys))
    → Ring (list_del e h) head (xs ++ ys) × (is_linked e (list_del e h) ≡ false)
list_del-Ring h head e xs ys r a d =
    let parts = Between-split h head head e xs ys r in
    let away = Apart-split head xs (e ∷ ys) a in
    let distinct = Distinct-split xs (e ∷ ys) d in
    let round = Between-around h head head e xs ys parts.0 parts.1 in
    let p = last head xs in
    let n = first head ys in
    let out = list_del-next h e p n round.0 round.1 in
    let back = list_del-prev h e p n round.0 round.1 in
    let pe : p ≢ e =
      last-Apart e head xs (λ z. away.1.0 (sym z)) (Disjoint-Apart xs ys e distinct.2) in
    let ne : n ≢ e = first-ne head e ys (λ z. away.1.0 (sym z)) distinct.1.0 in
    (
      Between-skip h (list_del e h) head e ys parts.1 (λ z. away.1.0 (sym z)) distinct.1.0 away.1.1
          distinct.1.1 head xs (λ z zp ze. rw (out z ze) (ground arith))
          (λ z zn ze. rw (back z ze) (ground arith)) (rw (out p pe) (ground arith))
          (rw (back n ne) (ground arith))
          (last-Disjoint head xs ys away.1.1 (Disjoint-tail xs ys e distinct.2))
          (λ z. away.1.0 (sym z)) (Disjoint-Apart xs ys e distinct.2) away.0
          (first-Disjoint head xs ys away.0 (Disjoint-tail xs ys e distinct.2)) distinct.0 parts.0,
      list_del-is_linked h e,
    )
