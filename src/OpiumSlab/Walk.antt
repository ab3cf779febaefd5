-- ===== src/OpiumSlab/Walk.antt =====
-- `opium_slab_exit` and `opium_slab_traverse` of project/core/opium_slab.c.
use checks.Prelude.{
  ℕ, zero, suc, not, Option, none, some, ◌==◌, if◌then◌else◌, List, [], ◌∷◌, ◌++◌, ◌||◌,
}
use checks.Chain.{list_del, is_linked}
use checks.Bitmask.{without_bit, scan_bits}
use checks.OpiumSlab.{Slab, zero_stats, slot_address}

-- The loop of `opium_slab_exit` over one list, where `next` is read before the body. The first result is
-- the chunks that are given back, in their order; `none` means that the fuel ran out.
unfoldable pub exit_list : ℕ → Slab → ℕ → ℕ → Option (List ℕ × Slab)
exit_list zero s head current = none
exit_list (suc fuel) s head current =
    let boss = not ((s.pages current).refcount == 0) in
    let linked = is_linked current s.links in
    let left = record s { links = if boss || linked then list_del current s.links else s.links } in
    let rest = exit_list fuel left head (s.links current).next in
    if current == head then some ([], s) else elim rest [
      | none ↦ none
      | some (chunks, end) ↦ some ((if boss then current ∷ chunks else chunks), end)
    ]

-- The three lists in their order.
unfoldable pub exit_lists : ℕ → Slab → List ℕ → Option (List ℕ × Slab)
unfolding exit_list
exit_lists fuel s [] = some ([], s)
exit_lists fuel s (head ∷ heads) = elim (exit_list fuel s head (s.links head).next) [
  | none ↦ none
  | some (chunks, left) ↦ elim (exit_lists fuel left heads) [
    | none ↦ none
    | some (more, end) ↦ some (chunks ++ more, end)
  ]
]

-- `opium_slab_exit`.
unfoldable pub slab_exit : ℕ → Slab → Option (List ℕ × Slab)
unfolding exit_lists
slab_exit fuel s = elim (exit_lists fuel s (s.empty ∷ s.partial ∷ s.full ∷ [])) [
  | none ↦ none
  | some (chunks, left) ↦ some (
    chunks,
    record left {
      page_size = 0;
      pages_per_alloc = 0;
      item_size = 0;
      item_count = 0;
      alignment_mask = 0;
      stats = zero_stats;
    },
  )
]

-- The loop over the ones of a mask, of which there are 64 at most; the result is the addresses that
-- the callback is called with.
unfoldable pub traverse_mask : ℕ → Slab → ℕ → ℕ → List ℕ
traverse_mask zero s page mask = []
traverse_mask (suc rounds) s page mask = elim (scan_bits 64 0 mask) [
  | none ↦ []
  | some slot ↦ slot_address s page slot ∷ traverse_mask rounds s page (without_bit slot mask)
]

-- The loop over the items of a full page.
unfoldable pub traverse_items : ℕ → Slab → ℕ → ℕ → List ℕ
traverse_items zero s page index = []
traverse_items (suc rounds) s page index =
    slot_address s page index ∷ traverse_items rounds s page (suc index)

-- The loop over a list of pages; the callback changes none of them.
unfoldable pub traverse_list : ℕ → Slab → (ℕ → List ℕ) → ℕ → ℕ → Option (List ℕ)
traverse_list zero s items head current = none
traverse_list (suc fuel) s items head current =
    let rest = traverse_list fuel s items head (s.links current).next in
    if current == head
    then some []
    else elim rest [ none ↦ none | some later ↦ some (items current ++ later) ]

-- `opium_slab_traverse`.
unfoldable pub slab_traverse : ℕ → Slab → Option (List ℕ)
unfolding traverse_list traverse_mask traverse_items
slab_traverse fuel s =
    let partial =
      traverse_list fuel s (λ page. traverse_mask 64 s page (s.pages page).mask) s.partial
        (s.links s.partial).next in
    let full =
      traverse_list fuel s (λ page. traverse_items s.item_count s page 0) s.full
        (s.links s.full).next in
    elim partial [
      | none ↦ none
      | some first ↦ elim full [ none ↦ none | some second ↦ some (first ++ second) ]
    ]
