-- ===== src/OpiumSlab/Chunk.antt =====
-- A new chunk of `opium_slab_alloc` of project/core/opium_slab.c.

use checks.Prelude.{
  ℕ, ◌+◌, ◌*◌, ◌%◌, ◌^◌, ◌<◌, ◌≤◌, ◌≡◌, ◌≢◌, refl, ap, ◌∙◌, inl, inr, Bool, true, false, ◌||◌,
  Bool-cases, Option, none, some, [], ◌∷◌, leb, ltb, ◌==◌, arith, if◌then◌else◌,
}
use checks.Bitmask.{bit_of}
use checks.Chain.{Memory, list_add, init_list_head, list_empty, add_between}
use checks.Chain.Ring.{Ring}
use checks.OpiumSlab.{Page, Slab, page_init, slot_address, set_page, system_page}
use checks.OpiumSlab.Alloc.{
  null, item, undefined, item_of, new_slot, slave_loop, alloc_chunk, slab_alloc,
}
use checks.OpiumSlab.Address.{IsLaid}
use checks.OpiumSlab.Branches.{requested}
use checks.OpiumSlab.Fresh.{self, with_first, first_bits, new_slot-first}

-- The lists of partial and empty pages have no page, and the new pages are at other addresses.
pub record NoPages (s : Slab) (page : ℕ) : Type 0 where
  pub no_partial : Ring s.links s.partial []
  pub no_empty : Ring s.links s.empty []
  pub heads : s.partial ≢ s.empty
  pub page_partial : page ≢ s.partial
  pub page_empty : page ≢ s.empty
  pub slave_partial : page + s.page_size ≢ s.partial
  pub slave_empty : page + s.page_size ≢ s.empty

-- The sizes of the chunks.
pub record HasChunks (s : Slab) : Type 0 where
  pub laid : IsLaid s
  pub small_pages : 128 ≤ s.page_size
  pub whole : s.pages_per_alloc ≡ (if ltb system_page s.page_size then s.page_size else system_page)

-- The links with the first page, and with the second one.
abbrev one : Memory → ℕ → ℕ → Memory
one h partial page = list_add page partial (init_list_head page h)

abbrev two : Memory → ℕ → ℕ → ℕ → ℕ → Memory
two h partial empty page pos = list_add pos empty (init_list_head pos (one h partial page))

module _ (h : Memory) (partial empty page pos : ℕ) (p : Ring h partial []) (e : Ring h empty [])
    (heads : partial ≢ empty) (pp : page ≢ partial) (pe : page ≢ empty) where
  one-Ring : Ring (one h partial page) partial (page ∷ []) × Ring (one h partial page) empty []
  unfolding list_add add_between init_list_head
  one-Ring = ground arith

  two-Ring :
      pos ≢ partial
      → pos ≢ empty
      → page ≢ pos
      → Ring (two h partial empty page pos) partial (page ∷ [])
        × Ring (two h partial empty page pos) empty (pos ∷ [])
  unfolding list_add add_between init_list_head
  two-Ring sp se new = ground arith

-- What an allocation from a new chunk leaves: its first page with its first item used, and a second page
-- where the pages are less than 4096 bytes, but never more.
pub record NewChunk (s : Slab) (page : ℕ) (r : Slab) : Type 0 where
  pub partial : Ring r.links s.partial (page ∷ [])
  pub empty :
      Ring r.links s.empty (if ltb s.page_size system_page then (page + s.page_size) ∷ [] else [])
  pub bits : (j : ℕ) → j < 64 → bit_of j (r.pages page).mask ≡ ((j == 0) || leb s.item_count j)
  pub boss : (r.pages page).refcount ≡ 1
  pub used : r.stats.used ≡ (s.stats.used + 1) % 2 ^ 64

module _ (s : Slab) (page : ℕ) (chunks : HasChunks s) (none_yet : NoPages s page) where
  abbrev pos : ℕ
  pos = page + s.page_size

  abbrev end : ℕ
  end = page + s.pages_per_alloc

  abbrev more : Bool
  more = ltb pos end

  abbrev boss : Page
  boss = record (s.pages page) { mask = page_init s.item_count; refcount = 1 }

  abbrev slave : Page
  slave = record { boss = page; mask = page_init s.item_count; refcount = 0 }

  -- The slab with its new pages.
  abbrev ready : Slab
  ready = record s {
    pages =
        if more
        then set_page pos slave (set_page page boss s.pages)
        else set_page page boss s.pages;
    links = if more then two s.links s.partial s.empty page pos else one s.links s.partial page;
  }

  slave_loop-ready :
      slave_loop 2
        (record s { pages = set_page page boss s.pages; links = one s.links s.partial page })
        page
        pos
        pos
        end
      ≡ some ready
  unfolding slave_loop
  slave_loop-ready = elim (Bool-cases more) [
    | inr whole ↦ rw whole refl
    | inl second ↦
        let over : ltb (pos + s.page_size * 40) end ≡ false =
          ground (arith, chunks.whole, chunks.small_pages) in
        rw (second, over) refl
  ]

  apart : (page == pos) ≡ false
  apart = ground (arith, chunks.small_pages)

  at_page : ready.pages page ≡ boss
  at_page = elim (Bool-cases more) [
    | inr whole ↦ rw (whole, self page) refl
    | inl second ↦ rw (second, apart, self page) refl
  ]

  allocated : alloc_chunk s (some page) ≡ item (slot_address s page 0) (with_first ready page)
  unfolding alloc_chunk
  allocated =
      ap (λ o. elim o [ none ↦ undefined | some t ↦ item_of (new_slot t page) ]) slave_loop-ready
      ∙ ap item_of (new_slot-first ready page chunks.laid.some_items (ap (λ p. p.mask) at_page))

  two_lists :
      Ring ready.links s.partial (page ∷ [])
      × Ring ready.links s.empty (if ltb s.page_size system_page then pos ∷ [] else [])
  two_lists = elim (Bool-cases more) [
    | inl second ↦
        let small : ltb s.page_size system_page ≡ true = ground (arith, chunks.whole, second) in
        rw (second, small)
          (two-Ring s.links s.partial s.empty page pos none_yet.no_partial none_yet.no_empty
            none_yet.heads none_yet.page_partial none_yet.page_empty none_yet.slave_partial
            none_yet.slave_empty (λ e. absurd (omega (arith, chunks.small_pages))))
    | inr whole ↦
        let large : ltb s.page_size system_page ≡ false = ground (arith, chunks.whole, whole) in
        rw (whole, large)
          (one-Ring s.links s.partial s.empty page pos none_yet.no_partial none_yet.no_empty
            none_yet.heads none_yet.page_partial none_yet.page_empty)
  ]

  new_chunk : NewChunk s page (with_first ready page)
  new_chunk = record {
    partial = two_lists.0;
    empty = two_lists.1;
    bits = λ j lt. rw (self page, at_page) (first_bits s.item_count chunks.laid.some_items j lt);
    boss = rw (self page, at_page) refl;
    used = refl;
  }

requested-HasChunks : (s : Slab) → HasChunks s → HasChunks (requested s)
requested-HasChunks s chunks = record {
  laid = record {
    some_bytes = chunks.laid.some_bytes;
    room = chunks.laid.room;
    some_items = chunks.laid.some_items;
    few_items = chunks.laid.few_items;
  };
  small_pages = chunks.small_pages;
  whole = chunks.whole;
}

requested-NoPages : (s : Slab) (page : ℕ) → NoPages s page → NoPages (requested s) page
requested-NoPages s page n = record {
  no_partial = n.no_partial;
  no_empty = n.no_empty;
  heads = n.heads;
  page_partial = n.page_partial;
  page_empty = n.page_empty;
  slave_partial = n.slave_partial;
  slave_empty = n.slave_empty;
}

slab_alloc-alloc_chunk :
    (s : Slab) (page : ℕ) (chunk : Option ℕ)
    → NoPages s page
    → slab_alloc s chunk ≡ alloc_chunk (requested s) chunk
unfolding slab_alloc list_empty
slab_alloc-alloc_chunk s page chunk n =
    let no_partial : ((s.links s.partial).next == s.partial) ≡ true =
      ground (arith, n.no_partial) in
    let no_empty : ((s.links s.empty).next == s.empty) ≡ true = ground (arith, n.no_empty) in
    rw (no_partial, no_empty) refl

-- With no page that has room, an allocation sets up the chunk that the system gives and returns the
-- first item of its first page. Where the system gives none, it does what C leaves open for pages of at
-- most 4096 bytes, and for larger ones returns NULL and counts the failure with all else but the counts
-- unchanged. Conditions: the sizes are those of an initialised slab, the
-- lists of partial and empty pages have no page, and the new pages are at none of their addresses.
pub slab_alloc-NewChunk :
    (s : Slab) (page : ℕ)
    → HasChunks s
    → NoPages s page
    → ((r : Slab) × (slab_alloc s (some page) ≡ item (slot_address s page 0) r) × NewChunk s page r)
      × (slab_alloc s none ≡ (
          if leb s.page_size system_page
          then undefined
          else null (record s {
            stats = record s.stats {
              reqs = (s.stats.reqs + 1) % 2 ^ 64;
              fails = (s.stats.fails + 1) % 2 ^ 64;
            };
          })))
unfolding alloc_chunk
slab_alloc-NewChunk s page chunks none_yet =
    let c = requested-HasChunks s chunks in
    let n = requested-NoPages s page none_yet in
    let new = new_chunk (requested s) page c n in
    (
      (
        with_first (ready (requested s) page c n) page,
        slab_alloc-alloc_chunk s page (some page) none_yet ∙ allocated (requested s) page c n,
        record {
          partial = new.partial;
          empty = new.empty;
          bits = new.bits;
          boss = new.boss;
          used = new.used;
        },
      ),
      slab_alloc-alloc_chunk s page none none_yet,
    )
