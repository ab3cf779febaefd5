-- ===== src/OpiumArena/Lifetime.antt =====
-- What the slabs of an arena are after `opium_arena_init`, and what `opium_arena_free` of
-- project/core/opium_arena.c gives back.
use checks.Prelude.{
  ℕ, zero, suc, ◌+◌, ◌-◌, ◌*◌, ◌^◌, ◌<◌, ◌≤◌, ◌≡◌, refl, sym, ap, subst, ◌∙◌, inl, inr, true, false,
  ◌&&◌, some, Option, Bool-cases, leb, ltb, ◌==◌, if◌then◌else◌, positive, power_le, arith,
}
use checks.OpiumSlab.{Slab, slab_init, slot_address}
use checks.OpiumSlab.Layout.{RoundsUp, choose_sizes-Fits}
use checks.OpiumSlab.Address.{IsLaid, slab_init-IsLaid}
use checks.OpiumSlab.Free.{free_slot, count_free, slab_free}
use checks.OpiumSlab.Branches.{slab_free-previous, requested}
use checks.OpiumArena.{
  Arena, init_slabs, arena_init, arena_free, slab_index, set_slab, arena_min_shift,
}
use checks.OpiumArena.Index.{slab_index-Chosen}

init_slabs-each :
    (round_up : ℕ → ℕ) (rounds index : ℕ) (slabs : ℕ → Slab) (i : ℕ)
    → init_slabs round_up rounds index slabs i ≡ (
        if leb index i && ltb i (index + rounds)
        then slab_init round_up (slabs i) (2 ^ (arena_min_shift + i))
        else slabs i)
unfolding init_slabs
init_slabs-each round_up zero index slabs i =
    let out : (leb index i && ltb i (index + 0)) ≡ false = ground arith in rw out refl
init_slabs-each round_up (suc rounds) index slabs i =
    init_slabs-each round_up rounds (suc index) next i ∙ elim (Bool-cases (i == index)) [
      | inl here ↦
          let at : index ≡ i = ground arith in
          let late : (leb (suc index) i && ltb i (suc index + rounds)) ≡ false = ground arith in
          let now : (leb index i && ltb i (index + suc rounds)) ≡ true = ground arith in
          rw (late, now, here)
            (ap (λ n. slab_init round_up (slabs n) (2 ^ (arena_min_shift + n))) at)
      | inr away ↦
          let same : (leb (suc index) i && ltb i (suc index + rounds))
              ≡ (leb index i && ltb i (index + suc rounds)) =
            ground arith in
          rw (same, away) refl
    ]
  where
    next : ℕ → Slab
    next n =
        if n == index
        then slab_init round_up (slabs index) (2 ^ (arena_min_shift + index))
        else slabs n

slab_init-item_size :
    (round_up : ℕ → ℕ) (s : Slab) (item_size : ℕ)
    → RoundsUp round_up
    → 0 < item_size
    → item_size < 2 ^ 24
    → (slab_init round_up s item_size).item_size ≡ item_size + 1
unfolding slab_init
slab_init-item_size round_up s item_size law some_bytes small =
    (choose_sizes-Fits round_up item_size law some_bytes small).item

module _ (round_up : ℕ → ℕ) (zeroed : ℕ → Slab) (before : Arena) where
  abbrev initialised : Arena
  initialised = (arena_init round_up true zeroed before).1

  initialised-slabs :
      (i : ℕ)
      → i < 13
      → initialised.slabs i ≡ slab_init round_up (zeroed i) (2 ^ (arena_min_shift + i))
  unfolding arena_init
  initialised-slabs i lt =
      let in_range : (leb 0 i && ltb i (0 + 13)) ≡ true = ground arith in
      init_slabs-each round_up 13 0 zeroed i
      ∙ ap (λ b. if b then slab_init round_up (zeroed i) (2 ^ (arena_min_shift + i)) else zeroed i)
          in_range

  initialised-min_size : initialised.min_size ≡ 16
  unfolding arena_init
  initialised-min_size = refl

-- The items of the thirteen slabs have less than 2 ^ 24 bytes.
below_power : (i : ℕ) → i < 13 → 2 ^ (arena_min_shift + i) < 2 ^ 24
below_power i lt = omega (arith, power_le (arena_min_shift + i) 16 (omega arith))

-- An initialised arena looks for a size from 2 to 65536 in a slab whose pages hold their items, and
-- these have room for the size and the header. Condition: the rounding gives the least power of two that
-- is not below its argument.
pub arena_init-slab_index :
    (round_up : ℕ → ℕ) (zeroed : ℕ → Slab) (before : Arena) (size : ℕ)
    → RoundsUp round_up
    → 1 < size
    → size ≤ 65536
    → let arena = (arena_init round_up true zeroed before).1 in
      let s = arena.slabs (slab_index arena size) in IsLaid s × (size < s.item_size)
arena_init-slab_index round_up zeroed before size law more small =
    let arena = initialised round_up zeroed before in
    let i = slab_index arena size in
    let chosen =
      slab_index-Chosen arena size (initialised-min_size round_up zeroed before) more
        (omega arith) in
    let e = initialised-slabs round_up zeroed before i (chosen.has_slab.1 small) in
    let pos = positive (arena_min_shift + i) in
    let low : 2 ^ (arena_min_shift + i) < 2 ^ 24 = below_power i (chosen.has_slab.1 small) in
    subst (λ s. IsLaid s × (size < s.item_size)) (sym e)
      (
        slab_init-IsLaid round_up (zeroed i) (2 ^ (arena_min_shift + i)) law pos low,
        omega (
          arith,
          slab_init-item_size round_up (zeroed i) (2 ^ (arena_min_shift + i)) law pos low,
          chosen.holds,
        ),
      )

-- What is left when a slab has taken an item back.
abbrev after : Arena → ℕ → Option ℕ × Slab → Option (Option ℕ × Arena)
after arena index freed =
    some (freed.0, record arena { slabs = set_slab index freed.1 arena.slabs })

arena_free-slab_free :
    (arena : Arena) (index ptr : ℕ)
    → arena.headers (ptr - 1) ≡ index
    → index < arena.shift_count
    → arena_free arena ptr
      ≡ after arena index
          (slab_free (record (arena.slabs index) { headers = arena.headers }) (ptr - 1))
unfolding arena_free
arena_free-slab_free arena index ptr header some_slab =
    let test : ltb (arena.headers (ptr - 1)) arena.shift_count ≡ true = ground (arith, header) in
    rw test (
      ap
        (λ i.
          after arena i (slab_free (record (arena.slabs i) { headers = arena.headers }) (ptr - 1)))
        header)

-- The free of an arena gives its slab the item before the one it is called with. Conditions: the header
-- of the item holds the index of its slab, whose pages hold their items; the page is aligned, and the
-- item is not the first of its page.
pub arena_free-previous :
    (arena : Arena) (index k slot : ℕ)
    → let t = record (arena.slabs index) { headers = arena.headers } in
      let ptr = slot_address t (k * t.page_size) (suc slot) in
      IsLaid t
      → suc slot < t.item_count
      → k * t.page_size + t.page_size ≤ 2 ^ 64
      → index < arena.shift_count
      → arena.headers (ptr - 1) ≡ index
      → let (chunk, end) = count_free (free_slot (requested t) (k * t.page_size) slot) in
        arena_free arena ptr ≡ some (chunk, record arena { slabs = set_slab index end arena.slabs })
arena_free-previous arena index k slot laid inside small some_slab header =
    let t = record (arena.slabs index) { headers = arena.headers } in
    arena_free-slab_free arena index (slot_address t (k * t.page_size) (suc slot)) header some_slab
    ∙ ap (λ freed. after arena index freed) (slab_free-previous t k slot laid inside small)
