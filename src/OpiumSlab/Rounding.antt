-- ===== src/OpiumSlab/Rounding.antt =====
-- A rounding as `opium_slab_init` of project/core/opium_slab.c relies on.
use checks.Prelude.{
  ℕ, zero, suc, ◌+◌, ◌*◌, ◌^◌, ◌<◌, ◌≤◌, ◌≡◌, refl, subst, inl, inr, Bool-cases, ltb, if◌then◌else◌,
  arith,
}
use checks.OpiumSlab.Layout.{RoundsUp}

-- The least exponent from `e` on that reaches the number.
abbrev pub exponent_from : ℕ → ℕ → ℕ → ℕ
exponent_from zero n e = e
exponent_from (suc fuel) n e =
    let rest = exponent_from fuel n (suc e) in if ltb (2 ^ e) n then rest else e

abbrev pub rounded_up : ℕ → ℕ
rounded_up n = 2 ^ exponent_from n n 0

exponent_from-reaches :
    (fuel n e : ℕ)
    → 2 ^ e < 2 * n
    → n ≤ 2 ^ (e + fuel)
    → (n ≤ 2 ^ exponent_from fuel n e) × (2 ^ exponent_from fuel n e < 2 * n)
exponent_from-reaches zero n e low high =
    let at : e + 0 ≡ e = omega arith in (subst (λ k. n ≤ 2 ^ k) at high, low)
exponent_from-reaches (suc fuel) n e low high = elim (Bool-cases (ltb (2 ^ e) n)) [
  | inl more ↦ rw more (
      exponent_from-reaches fuel n (suc e) (ground arith)
        (let at : e + suc fuel ≡ suc e + fuel = omega arith in subst (λ k. n ≤ 2 ^ k) at high))
  | inr done ↦ rw done (ground arith, low)
]

under_power : (n : ℕ) → n < 2 ^ n
under_power zero = omega arith
under_power (suc n) = let rest = under_power n in omega (arith, rest)

reachable : (n : ℕ) → n ≤ 2 ^ (0 + n)
reachable n =
    let at : n ≡ 0 + n = omega arith in
    let under = under_power n in subst (λ k. n ≤ 2 ^ k) at (omega (arith, under))

pub rounded_up-RoundsUp : RoundsUp rounded_up
rounded_up-RoundsUp = record {
  exponent = λ n. exponent_from n n 0;
  power = λ n lt small. refl;
  above = λ n lt small. (exponent_from-reaches n n 0 (omega arith) (reachable n)).0;
  least = λ n lt small. (exponent_from-reaches n n 0 (omega arith) (reachable n)).1;
}
