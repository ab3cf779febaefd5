-- ===== src/OpiumSlab/Free.antt =====
-- `opium_slab_free` of project/core/opium_slab.c.
use checks.Prelude.{
  ℕ, zero, suc, ◌+◌, ◌-◌, ◌*◌, ◌/◌, ◌%◌, ◌^◌, Option, none, some, ◌==◌, if◌then◌else◌,
}
use checks.Chain.{Memory, list_add, list_del, is_linked}
use checks.Bitmask.{without_bit}
use checks.OpiumSlab.{
  Slab, page_busy, slot_header, data_offset, page_one_used, set_mask, set_refcount,
}

-- The page of a slot and the index in it. The page size is a power of two, so that the mask takes away
-- the remainder.
abbrev pub page_of : Slab → ℕ → ℕ
page_of s slot_ptr = slot_ptr / s.page_size * s.page_size

abbrev pub slot_of : Slab → ℕ → ℕ
slot_of s slot_ptr = (slot_ptr + 2 ^ 64 - (page_of s slot_ptr + data_offset)) % 2 ^ 64 / s.item_size

-- An entry that is linked is taken out of its list.
abbrev pub unlink : ℕ → Memory → Memory
unlink entry links = if is_linked entry links then list_del entry links else links

-- The loop over the pages of a chunk that is given back, with its rounds left.
unfoldable pub unlink_slaves : ℕ → ℕ → ℕ → Memory → Memory
unlink_slaves zero current step links = links
unlink_slaves (suc rounds) current step links =
    unlink_slaves rounds (current + step) step (unlink current links)

-- The number of rounds. Each moves by `page_size` structures of 40 bytes.
abbrev pub slave_rounds : Slab → ℕ
slave_rounds s =
    let step = s.page_size * data_offset in (s.pages_per_alloc - s.page_size + (step - 1)) / step

-- The branch for a page that has one item left; the first result is the chunk that is given back.
unfoldable pub free_last : Slab → ℕ → ℕ → Option ℕ × Slab
unfolding unlink_slaves
free_last s page boss =
    if (s.pages boss).refcount == 1
    then (
      some boss,
      record s {
        links =
            unlink_slaves (slave_rounds s) (page + s.page_size) (s.page_size * data_offset)
              (unlink boss s.links);
      },
    )
    else (
      none,
      let kept =
            if is_linked page s.links
            then s
            else record s { links = list_add page s.empty s.links } in
          set_refcount kept boss (((s.pages boss).refcount + 2 ^ 64 - 1) % 2 ^ 64),
    )

-- The three branches of `opium_slab_free`. A slot of 64 or more, for which C leaves the shift open,
-- clears no bit.
unfoldable pub free_slot : Slab → ℕ → ℕ → Option ℕ × Slab
free_slot s page slot =
    let mask = (s.pages page).mask in
    let cleared = set_mask s page (without_bit slot mask) in
    let boss = if (s.pages page).refcount == 0 then (s.pages page).boss else page in
    if mask == page_busy
    then (none, record cleared { links = list_add page s.partial (list_del page s.links) })
    else if page_one_used mask s.item_count
    then free_last s page boss
    else (none, cleared)

-- The counters around the branches.
abbrev pub count_free : Option ℕ × Slab → Option ℕ × Slab
count_free (chunk, s) =
    (chunk, record s { stats = record s.stats { used = (s.stats.used + 2 ^ 64 - 1) % 2 ^ 64 } })

-- `opium_slab_free`.
unfoldable pub slab_free : Slab → ℕ → Option ℕ × Slab
unfolding free_slot
slab_free s ptr =
    let slot_ptr = ptr - slot_header in
    let r = record s { stats = record s.stats { reqs = (s.stats.reqs + 1) % 2 ^ 64 } } in
    count_free (free_slot r (page_of s slot_ptr) (slot_of s slot_ptr))
