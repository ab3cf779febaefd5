-- ===== src/OpiumSlab.antt =====
-- The slab allocator of project/core/opium_slab.c and opium_slab.h, for pointers of 8 bytes. The links of
-- its three lists stand in the memory of project/core/opium_list.h; a page's list entry is its first
-- field, so that both have one address.
pub mod Words
pub mod Layout
pub mod Address
pub mod Slot
pub mod Branches
pub mod Release
pub mod Fresh
pub mod Chunk
pub mod Alloc
pub mod Free
pub mod Walk
pub mod Rounding
mod Tests
use checks.Prelude.{
  ℕ, zero, suc, ◌+◌, ◌-◌, ◌*◌, ◌/◌, ◌%◌, ◌^◌, Bool, true, false, not, ◌&&◌, Option, none, some, leb,
  ltb, ◌==◌, if◌then◌else◌,
}
use checks.Chain.{Memory, init_list_head, list_empty, list_add, list_del, is_linked}
use checks.Bitmask.{bit_of, with_bit, without_bit, inverted, scan_bits}

-- `opium_slab_page_t`, less its list entry and its items.
pub record Page : Type 0 where
  pub boss : ℕ
  pub mask : ℕ
  pub refcount : ℕ

-- `opium_slab_stat_t`.
pub record Stat : Type 0 where
  pub total : ℕ
  pub used : ℕ
  pub reqs : ℕ
  pub fails : ℕ

-- `opium_slab_t`, less its log, and the memory that it uses: the links, the pages and the bytes that the
-- slot headers are. `empty`, `partial` and `full` are the addresses of the heads.
pub record Slab : Type 0 where
  pub page_size : ℕ
  pub pages_per_alloc : ℕ
  pub item_size : ℕ
  pub item_count : ℕ
  pub alignment_mask : ℕ
  pub empty : ℕ
  pub partial : ℕ
  pub full : ℕ
  pub stats : Stat
  pub links : Memory
  pub pages : ℕ → Page
  pub headers : ℕ → ℕ

-- `OPIUM_SLAB_PAGE_BUSY`.
abbrev pub page_busy : ℕ
page_busy = 2 ^ 64 - 1

-- `OPIUM_SLAB_PAGE_SIZE`, `OPIUM_SLAB_PAGE_MAX` and `OPIUM_SLAB_PAGE_MIN`.
abbrev pub system_page : ℕ
system_page = 4096

abbrev pub page_max : ℕ
page_max = 64

abbrev pub page_min : ℕ
page_min = 8

-- `OPIUM_SLAB_SLOT_HEADER`.
abbrev pub slot_header : ℕ
slot_header = 1

-- `offsetof(opium_slab_page_t, data)`, which is also the size of the structure.
abbrev pub data_offset : ℕ
data_offset = 40

-- `opium_slab_zero_stats`.
abbrev pub zero_stats : Stat
zero_stats = record { total = 0; used = 0; reqs = 0; fails = 0 }

-- `opium_slab_page_init`: ones above the first `count` bits, which are less than 64.
unfoldable pub page_init : ℕ → ℕ
page_init count = inverted 64 (2 ^ count - 1)

-- `mask & ((1ULL << count) - 1)`, bit by bit.
unfoldable pub low_bits : ℕ → ℕ → ℕ
low_bits zero mask = 0
low_bits (suc count) mask = low_bits count (mask / 2) * 2 + mask % 2

-- `relevant & (relevant - 1)`: the lowest one of so many bits is taken away.
unfoldable pub without_lowest : ℕ → ℕ → ℕ
without_lowest zero relevant = 0
without_lowest (suc width) relevant =
    let rest = without_lowest width (relevant / 2) in
    if relevant % 2 == 1 then relevant / 2 * 2 else rest * 2

-- `opium_slab_page_one_used`.
unfoldable pub page_one_used : ℕ → ℕ → Bool
page_one_used mask count =
    let relevant = low_bits count mask in not (relevant == 0) && (without_lowest 64 relevant == 0)

-- `opium_slab_slot`.
abbrev pub slot_address : Slab → ℕ → ℕ → ℕ
slot_address s page index = page + data_offset + index * s.item_size + slot_header

abbrev pub set_page : ℕ → Page → (ℕ → Page) → ℕ → Page
set_page p page pages a = if a == p then page else pages a

abbrev pub set_header : ℕ → ℕ → (ℕ → ℕ) → ℕ → ℕ
set_header p index headers a = if a == p then index else headers a

-- A page with its mask written.
abbrev pub set_mask : Slab → ℕ → ℕ → Slab
set_mask s page mask = record s {
  pages = set_page page (record (s.pages page) { mask = mask }) s.pages;
}

abbrev pub set_refcount : Slab → ℕ → ℕ → Slab
set_refcount s page n = record s {
  pages = set_page page (record (s.pages page) { refcount = n }) s.pages;
}

-- The sizes that `opium_slab_init` chooses; they wrap. `round_up n` is `1ULL << (size_t) ceil(log2(n))`.
pub record Sizes : Type 0 where
  pub page : ℕ
  pub item : ℕ
  pub count : ℕ

unfoldable pub choose_sizes : (ℕ → ℕ) → ℕ → Sizes
choose_sizes round_up item_size =
    let item = (item_size + slot_header) % 2 ^ 64 in
    let needed = (data_offset + page_max * item) % 2 ^ 64 in
    let page = round_up needed in
    let shrinked_page = page / 2 in
    let shrinked_data = shrinked_page - data_offset in
    if not (page == needed)
      && (ltb data_offset shrinked_page && ltb ((item * page_min) % 2 ^ 64) shrinked_data)
    then record { page = shrinked_page; item = item; count = shrinked_data / item }
    else record { page = page; item = item; count = page_max }

-- `opium_slab_init`. The heads are initialised in their order.
unfoldable pub slab_init : (ℕ → ℕ) → Slab → ℕ → Slab
unfolding choose_sizes init_list_head
slab_init round_up s item_size =
    let z = choose_sizes round_up item_size in
    record s {
      page_size = z.page;
      pages_per_alloc = if ltb system_page z.page then z.page else system_page;
      item_size = z.item;
      item_count = z.count;
      alignment_mask = 2 ^ 64 - z.page;
      stats = zero_stats;
      links = init_list_head s.full (init_list_head s.partial (init_list_head s.empty s.links));
    }
