-- ===== src/Pool/Marks.antt =====
-- The marks of the map of bytes of src/onion/pool.c.
use checks.Prelude.{
  ℕ, ◌*◌, ◌/◌, ◌%◌, ◌<◌, ◌≡◌, ◌≢◌, refl, sym, ap, ◌∙◌, inl, inr, Bool, true, false, Bool-cases,
  some, List, ◌==◌, if◌then◌else◌, get_elem?, get_elem?-some, get_elem?-set_self, get_elem?-set_ne,
  set, length, length-set, arith,
}
use checks.Bitmask.{bit_of, with_bit, without_bit}
use checks.Bitmask.Words.{with_bit-here, with_bit-other, without_bit-here, without_bit-other}
use checks.Pool.{set_bit, clear_bit}
use checks.Pool.Map.{bit_in, is_taken}

-- A change of one bit of a byte of the map changes that mark.
module _ (bitmap : List ℕ) (index : ℕ) (inside : index < length bitmap * 8) (f : ℕ → ℕ) (v : Bool)
    (here : (w : ℕ) → bit_of (index % 8) (f w) ≡ v)
    (others : (w other : ℕ) → index % 8 ≢ other → bit_of other (f w) ≡ bit_of other w) where
  changed-is_taken :
      (w : ℕ)
      → get_elem? bitmap (index / 8) ≡ some w
      → (q : ℕ)
      → is_taken (set bitmap (index / 8) (f w)) q ≡ (if q == index then v else is_taken bitmap q)
  changed-is_taken w e q =
      let at : get_elem? (set bitmap (index / 8) (f w)) (index / 8) ≡ some (f w) =
        get_elem?-set_self bitmap (index / 8) (f w) (omega arith) in
      elim (Bool-cases (q == index)) [
        | inl same ↦
            let p : q ≡ index = ground arith in
            rw same (
              ap (is_taken (set bitmap (index / 8) (f w))) p
              ∙ ap (λ o. bit_in o (index % 8)) at
              ∙ here w)
        | inr differs ↦ rw differs (elim (Bool-cases (index / 8 == q / 8)) [
          | inl frame ↦
              let p : q / 8 ≡ index / 8 = ground arith in
              ap (λ n. bit_in (get_elem? (set bitmap (index / 8) (f w)) n) (q % 8)) p
              ∙ ap (λ o. bit_in o (q % 8)) at
              ∙ others w (q % 8) (λ r. absurd (apart r p differs))
              ∙ sym (ap (λ n. bit_in (get_elem? bitmap n) (q % 8)) p ∙ ap (λ o. bit_in o (q % 8)) e)
          | inr frame ↦
              ap (λ o. bit_in o (q % 8))
                (get_elem?-set_ne bitmap (f w) (λ r. absurd (ground arith)))
        ])
      ]
    where
      apart : index % 8 ≡ q % 8 → q / 8 ≡ index / 8 → (q == index) ≡ false → ⊥
      apart r p d = let same : q ≡ index = omega arith in ground arith

-- The map with one block marked, and with one mark taken away.
pub set_bit-is_taken :
    (bitmap : List ℕ) (index : ℕ)
    → index < length bitmap * 8
    → (bitmap' : List ℕ) × (set_bit bitmap index ≡ some bitmap')
      × (length bitmap' ≡ length bitmap)
      × ((q : ℕ) → is_taken bitmap' q ≡ (if q == index then true else is_taken bitmap q))
unfolding set_bit
set_bit-is_taken bitmap index inside =
    let (w, e) = get_elem?-some bitmap (index / 8) (omega arith) in
    (
      set bitmap (index / 8) (with_bit (index % 8) w),
      rw (e, set_bit) refl,
      length-set bitmap (index / 8) (with_bit (index % 8) w),
      changed-is_taken bitmap index inside (with_bit (index % 8)) true (with_bit-here (index % 8))
          (λ word other ne. with_bit-other (index % 8) other word ne) w e,
    )

pub clear_bit-is_taken :
    (bitmap : List ℕ) (index : ℕ)
    → index < length bitmap * 8
    → (bitmap' : List ℕ) × (clear_bit bitmap index ≡ some bitmap')
      × ((q : ℕ) → is_taken bitmap' q ≡ (if q == index then false else is_taken bitmap q))
unfolding clear_bit
clear_bit-is_taken bitmap index inside =
    let (w, e) = get_elem?-some bitmap (index / 8) (omega arith) in
    (
      set bitmap (index / 8) (without_bit (index % 8) w),
      rw (e, clear_bit) refl,
      changed-is_taken bitmap index inside (without_bit (index % 8)) false
          (without_bit-here (index % 8))
          (λ word other ne. without_bit-other (index % 8) other word ne) w e,
    )
