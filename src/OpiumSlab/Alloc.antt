-- ===== src/OpiumSlab/Alloc.antt =====
-- `opium_slab_alloc` and `opium_slab_calloc` of project/core/opium_slab.c.
use checks.Prelude.{
  ℕ, zero, suc, ◌+◌, ◌-◌, ◌*◌, ◌%◌, ◌^◌, not, ◌&&◌, Option, none, some, leb, ltb, ◌==◌,
  if◌then◌else◌,
}
use checks.Chain.{init_list_head, list_empty, list_add, list_del}
use checks.Bitmask.{with_bit, inverted, scan_bits}
use checks.OpiumSlab.{
  Page, Slab, page_busy, system_page, slot_header, data_offset, page_init, slot_address, set_page,
  set_header, set_mask, set_refcount,
}

-- The end of `opium_slab_new_slot` with the slot found.
unfoldable pub take_slot : Slab → ℕ → ℕ → ℕ × Slab
take_slot s page slot =
    let mask = with_bit slot (s.pages page).mask in
    let marked = set_mask s page mask in
    let ptr = slot_address s page slot in
    let moved =
      if mask == page_busy
      then record marked { links = list_add page s.full (list_del page s.links) }
      else marked in
    (
      ptr,
      record moved {
        stats = record s.stats { used = (s.stats.used + 1) % 2 ^ 64 };
        headers = set_header (ptr - slot_header) slot s.headers;
      },
    )

-- `opium_slab_new_slot`; `none` where the mask has no zero, for which `__builtin_ctzll` says nothing.
unfoldable pub new_slot : Slab → ℕ → Option (ℕ × Slab)
new_slot s page = elim (scan_bits 64 0 (inverted 64 (s.pages page).mask)) [
  | none ↦ none
  | some slot ↦ some (take_slot s page slot)
]

-- The loop over the pages of a new chunk behind the first. Each round begins by setting `current` back to
-- `pos`, and ends by moving it by `page_size` structures of 40 bytes. `none` means that the fuel ran out.
unfoldable pub slave_loop : ℕ → Slab → ℕ → ℕ → ℕ → ℕ → Option Slab
slave_loop zero s chunk current pos end = none
slave_loop (suc fuel) s chunk current pos end =
    let slave : Page = record { boss = chunk; mask = page_init s.item_count; refcount = 0 } in
    let added = record s {
      pages = set_page pos slave s.pages;
      links = list_add pos s.empty (init_list_head pos s.links);
    } in
    let rest = slave_loop fuel added chunk (pos + s.page_size * data_offset) pos end in
    if ltb current end then rest else some s

-- How an allocation ends: with NULL, with the address of an item, or not at all or by something that C
-- leaves open.
pub data Allocated : Type 0 where
  null : Slab → Allocated
  item : ℕ → Slab → Allocated
  undefined : Allocated

abbrev pub item_of : Option (ℕ × Slab) → Allocated
item_of none = undefined
item_of (some (ptr, s)) = item ptr s

-- The branch with a new chunk, from what the system returns on. For pages of at most 4096 bytes it is asked
-- by `opium_mmap`, which hands on the `MAP_FAILED` of a call that fails, so that the page is written at an
-- address without memory; for others by `opium_memalign`, which returns NULL.
unfoldable pub alloc_chunk : Slab → Option ℕ → Allocated
unfolding page_init
alloc_chunk s none =
    if leb s.page_size system_page
    then undefined
    else null (record s { stats = record s.stats { fails = (s.stats.fails + 1) % 2 ^ 64 } })
alloc_chunk s (some page) =
    let boss = record (s.pages page) { mask = page_init s.item_count; refcount = 1 } in
    let first = record s {
      pages = set_page page boss s.pages;
      links = list_add page s.partial (init_list_head page s.links);
    } in
    let pos = page + s.page_size in
    elim (slave_loop 2 first page pos pos (page + s.pages_per_alloc)) [
      | none ↦ undefined
      | some ready ↦ item_of (new_slot ready page)
    ]

-- The branch with an empty page.
unfoldable pub alloc_empty : Slab → Allocated
unfolding page_init
alloc_empty s =
    let page = (s.links s.empty).next in
    let taken =
      set_mask (record s { links = list_add page s.partial (list_del page s.links) }) page
        (page_init s.item_count) in
    let count = (s.pages page).refcount in
    let boss = (s.pages page).boss in
    let counted =
      if count == 0
      then set_refcount taken boss (((taken.pages boss).refcount + 1) % 2 ^ 64)
      else set_refcount taken page ((count + 1) % 2 ^ 64) in
    item_of (new_slot counted page)

-- `opium_slab_alloc`; `chunk` is what the system would return.
unfoldable pub slab_alloc : Slab → Option ℕ → Allocated
slab_alloc s chunk =
    let r = record s { stats = record s.stats { reqs = (s.stats.reqs + 1) % 2 ^ 64 } } in
    if not (list_empty s.partial s.links)
    then item_of (new_slot r (s.links s.partial).next)
    else if not (list_empty s.empty s.links)
    then alloc_empty r
    else alloc_chunk r chunk

-- `opium_memzero`.
abbrev pub memzero : ℕ → ℕ → (ℕ → ℕ) → ℕ → ℕ
memzero p count bytes a = if leb p a && ltb a (p + count) then 0 else bytes a

-- `opium_slab_calloc`. The size of an item has its header in it.
unfoldable pub slab_calloc : Slab → Option ℕ → Allocated
unfolding slab_alloc
slab_calloc s chunk = elim (slab_alloc s chunk) [
  | null r ↦ null r
  | item ptr r ↦ item ptr (record r { headers = memzero ptr r.item_size r.headers })
  | undefined ↦ undefined
]
