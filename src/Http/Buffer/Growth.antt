-- ===== src/Http/Buffer/Growth.antt =====
-- The loop of `onion_http_buff_append` (src/onion/http.c) that doubles the capacity.
use checks.Prelude.{
  ℕ, zero, suc, ◌+◌, ◌*◌, ◌%◌, ◌^◌, ◌≤◌, ◌<◌, ◌≡◌, refl, inl, inr, ltb, Bool-cases, arith,
}
use checks.Http.Buffer.{Grown, enough, over_limit, out_of_fuel, grow}

-- A capacity that the loop may end with.
abbrev pub Suffices : ℕ → ℕ → ℕ → Grown → Type 0
Suffices capacity required limit (enough n) = (capacity ≤ n) × (required ≤ n) × (n ≤ limit)
Suffices capacity required limit over_limit = limit < 2 * required
Suffices capacity required limit out_of_fuel = ⊥

Suffices-le : (c d r l : ℕ) (g : Grown) → c ≤ d → Suffices d r l g → Suffices c r l g
Suffices-le c d r l (enough n) le h = omega arith
Suffices-le c d r l over_limit le h = h
Suffices-le c d r l out_of_fuel le h = h

-- With a capacity that is not 0, at most `limit`, and more fuel than the distance between them, the
-- loop ends: with a capacity that holds what is required and keeps to the limit, or over the limit,
-- and then twice what is required is over it too.
pub grow-Suffices :
    (fuel capacity required limit : ℕ)
    → 0 < capacity
    → capacity ≤ limit
    → limit < 2 ^ 62
    → limit < fuel + capacity
    → Suffices capacity required limit (grow fuel capacity required limit)
unfolding grow
grow-Suffices zero c r l pos le small fuel = absurd (omega arith)
grow-Suffices (suc f) c r l pos le small fuel = elim (Bool-cases (ltb c r)) [
  | inr enough_room ↦ rw enough_room (ground arith)
  | inl short ↦ elim (Bool-cases (ltb l ((c * 2) % 2 ^ 64))) [
    | inl over ↦ rw (short, over) (ground arith)
    | inr within ↦
        let d : ℕ = (c * 2) % 2 ^ 64 in
        rw (short, within)
          (Suffices-le c d r l (grow f d r l) (omega arith)
            (grow-Suffices f d r l (omega arith) (ground arith) small (omega arith)))
  ]
]

-- From capacity 0 the loop never ends, whatever is required.
pub grow-endless :
    (fuel required limit : ℕ) → 0 < required → grow fuel 0 required limit ≡ out_of_fuel
unfolding grow
grow-endless zero r l pos = refl
grow-endless (suc f) r l pos = ground (arith, grow-endless f r l pos)
