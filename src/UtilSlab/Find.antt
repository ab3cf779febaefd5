-- ===== src/UtilSlab/Find.antt =====
-- The search for free blocks of src/utils/src/slab.c.
use checks.Prelude.{
  ℕ, zero, suc, ◌+◌, ◌*◌, ◌/◌, ◌%◌, ◌<◌, ◌≤◌, ◌≡◌, ◌⊎◌, refl, ap, ◌∙◌, inl, inr, Bool, true, false,
  Bool-cases, Option, none, some, leb, ltb, ◌==◌, if◌then◌else◌, arith,
}
use checks.Bitmask.{bit_of}
use checks.UtilSlab.{
  busy_bit, Search, start_at, not_found, open_shift, find_loop, find_consecutive_free_bits,
}

-- So many blocks from `p` on are free.
abbrev pub FreeRun : ℕ → ℕ → ℕ → Type 0
FreeRun word needed p = (j : ℕ) → p ≤ j → j < p + needed → bit_of j word ≡ false

-- The first run of free blocks among the first 31, or that there is none.
unfoldable pub FirstFit : ℕ → ℕ → Search → Type 0
FirstFit word needed (start_at p) =
    (p + needed ≤ 31) × FreeRun word needed p × ((q : ℕ) → q < p → ¬ FreeRun word needed q)
FirstFit word needed not_found = ⊥
FirstFit word needed open_shift = (q : ℕ) → q + needed ≤ 31 → ¬ FreeRun word needed q

busy_bit-low : (bitmap : ℕ → ℕ) (i : ℕ) → i < 31 → busy_bit bitmap i ≡ some (bit_of i (bitmap 0))
unfolding busy_bit
busy_bit-low bitmap i lt =
    let inside : ltb (i % 64) 31 ≡ true = ground arith in
    let bit : i % 64 ≡ i = omega arith in
    let frame : i / 64 ≡ 0 = omega arith in rw (inside, frame, bit) refl

busy_bit-open : (bitmap : ℕ → ℕ) → busy_bit bitmap 31 ≡ none
unfolding busy_bit
busy_bit-open bitmap = refl

module _ (bitmap : ℕ → ℕ) (needed : ℕ) (some_blocks : 0 < needed) where
  abbrev word : ℕ
  word = bitmap 0

  -- What is known before bit `i`: the last `c` bits, from `s` on, are free, a used one stands before
  -- them, and no run ends up to here.
  record Before (i c start s : ℕ) : Type 0 where
    pub few : c < needed
    pub at : s + c ≡ i
    pub first : (if c == 0 then i else start) ≡ s
    pub held : FreeRun word c s
    pub limit : (s ≡ 0) ⊎ ((b : ℕ) × (b + 1 ≡ s) × (bit_of b word ≡ true))
    pub no_run : (q : ℕ) → q + needed ≤ i → ¬ FreeRun word needed q

  clash : (j : ℕ) → bit_of j word ≡ true → bit_of j word ≡ false → ⊥
  clash j one nil = ground (arith, one, nil)

  -- A run that ends one bit further.
  at_end : (i q : ℕ) → q + needed ≤ suc i → ¬ (q + needed ≤ i) → q + needed ≡ suc i
  at_end i q le not_before = omega arith

  after_busy :
      (i c start s : ℕ) → Before i c start s → bit_of i word ≡ true → Before (suc i) 0 0 (suc i)
  after_busy i c start s b one = record {
    few = some_blocks;
    at = omega arith;
    first = refl;
    held = λ j le lt. absurd (omega arith);
    limit = inr (i, omega arith, one);
    no_run = λ q le run. elim (Bool-cases (leb (q + needed) i)) [
      | inl before ↦ b.no_run q (ground arith) run
      | inr now ↦ clash i one (run i (ground arith) (ground arith))
    ];
  }

  after_free :
      (i c start s : ℕ)
      → Before i c start s
      → bit_of i word ≡ false
      → c + 1 < needed
      → Before (suc i) (c + 1) (if c == 0 then i else start) s
  after_free i c start s b nil more = record {
    few = more;
    at = omega (arith, b.at);
    first = ground (arith, b.first);
    held = λ j le lt. elim (Bool-cases (ltb j i)) [
      | inl before ↦ b.held j le (ground (arith, b.at))
      | inr now ↦ let same : i ≡ j = ground (arith, b.at) in rw (← same) nil
    ];
    limit = b.limit;
    no_run = λ q le run. elim (Bool-cases (leb (q + needed) i)) [
      | inl before ↦ b.no_run q (ground arith) run
      | inr now ↦ elim b.limit [
        | inl start_zero ↦ absurd (ground (arith, b.at))
        | inr (u, before_s, one) ↦ clash u one (run u (ground (arith, b.at)) (ground (arith, b.at)))
      ]
    ];
  }

  found_here :
      (i c start s : ℕ)
      → Before i c start s
      → bit_of i word ≡ false
      → needed ≤ c + 1
      → i < 31
      → FirstFit word needed (start_at (if c == 0 then i else start))
  unfolding FirstFit
  found_here i c start s b nil enough lt = rw b.first (
    omega (arith, b.at, b.few),
    λ j le below. elim (Bool-cases (ltb j i)) [
      | inl before ↦ b.held j le (ground (arith, b.at))
      | inr now ↦ let same : i ≡ j = ground (arith, b.at, b.few) in rw (← same) nil
    ],
    λ q less run. b.no_run q (omega (arith, b.at, b.few)) run,
  )

  -- One round, from the outcome of the test on.
  abbrev round : ℕ → ℕ → ℕ → ℕ → Option Bool → Search
  round rounds i c start none = open_shift
  round rounds i c start (some true) = find_loop bitmap needed rounds (suc i) 0 0
  round rounds i c start (some false) =
      if leb needed (c + 1)
      then start_at (if c == 0 then i else start)
      else find_loop bitmap needed rounds (suc i) (c + 1) (if c == 0 then i else start)

  find_loop-round :
      (rounds i c start : ℕ) (o : Option Bool)
      → busy_bit bitmap i ≡ o
      → find_loop bitmap needed (suc rounds) i c start ≡ round rounds i c start o
  unfolding find_loop
  find_loop-round rounds i c start o e = ap (round rounds i c start) e

  no_fit : (i c start s : ℕ) → Before i c start s → i ≡ 31 → FirstFit word needed open_shift
  unfolding FirstFit
  no_fit i c start s b e q le run = b.no_run q (omega arith) run

  find_loop-FirstFit :
      (rounds i c start s : ℕ)
      → Before i c start s
      → i ≤ 31
      → 31 < i + rounds
      → FirstFit word needed (find_loop bitmap needed rounds i c start)
  find_loop-FirstFit zero i c start s b low enough = absurd (omega arith)
  find_loop-FirstFit (suc rounds) i c start s b low enough = elim (Bool-cases (ltb i 31)) [
    | inr last ↦
        let e : i ≡ 31 = ground arith in
        rw (find_loop-round rounds i c start none (ap (busy_bit bitmap) e ∙ busy_bit-open bitmap))
          (no_fit i c start s b e)
    | inl inside ↦ elim (Bool-cases (bit_of i word)) [
      | inl one ↦
          rw
            (find_loop-round rounds i c start (some true)
              (busy_bit-low bitmap i (ground arith) ∙ ap some one))
            (find_loop-FirstFit rounds (suc i) 0 0 (suc i) (after_busy i c start s b one)
              (ground arith) (omega arith))
      | inr nil ↦
          rw
            (find_loop-round rounds i c start (some false)
              (busy_bit-low bitmap i (ground arith) ∙ ap some nil))
            (elim (Bool-cases (leb needed (c + 1))) [
              | inl done ↦ rw done (found_here i c start s b nil (ground arith) (ground arith))
              | inr more ↦ rw more (
                  find_loop-FirstFit rounds (suc i) (c + 1) (if c == 0 then i else start) s
                    (after_free i c start s b nil (ground arith)) (ground arith) (omega arith))
            ])
    ]
  ]

-- The search for some blocks answers the first run of so many free ones among the first 31 blocks; where
-- there is none, it makes a shift that C leaves open. Conditions: at least one block is asked for and
-- the bitmask has a word.
pub find_consecutive_free_bits-FirstFit :
    (bitmap : ℕ → ℕ) (bitmask_size needed : ℕ)
    → 0 < bitmask_size
    → 0 < needed
    → FirstFit (bitmap 0) needed (find_consecutive_free_bits bitmap bitmask_size needed)
unfolding find_consecutive_free_bits
find_consecutive_free_bits-FirstFit bitmap bitmask_size needed words some_blocks =
    find_loop-FirstFit bitmap needed some_blocks (bitmask_size * 64) 0 0 0 0
      (record {
        few = some_blocks;
        at = refl;
        first = refl;
        held = λ j le lt. absurd (omega arith);
        limit = inl refl;
        no_run = λ q le run. absurd (omega arith);
      })
      (omega arith) (omega arith)
