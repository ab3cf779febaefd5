-- ===== src/Chain.antt =====
-- The circular lists of project/core/opium_list.h. The memory holds a pair of links at each address.
pub mod Ring
pub mod Insert
pub mod Delete
pub mod Move
mod Tests
use checks.Prelude.{ℕ, zero, suc, ◌+◌, Bool, true, false, not, ◌&&◌, ◌==◌, if◌then◌else◌}

-- `opium_list_head_s`.
pub record Link : Type 0 where
  pub next : ℕ
  pub prev : ℕ

abbrev pub Memory : Type 0
Memory = ℕ → Link

abbrev pub set_next : ℕ → ℕ → Memory → Memory
set_next p q h a = if a == p then record (h a) { next = q } else h a

abbrev pub set_prev : ℕ → ℕ → Memory → Memory
set_prev p q h a = if a == p then record (h a) { prev = q } else h a

-- `OPIUM_LIST_POISON1` and `OPIUM_LIST_POISON2`.
abbrev pub poison_next : ℕ
poison_next = 1048832

abbrev pub poison_prev : ℕ
poison_prev = 2097664

-- `OPIUM_INIT_LIST_HEAD`.
unfoldable pub init_list_head : ℕ → Memory → Memory
init_list_head list h = set_prev list list (set_next list list h)

-- `__opium_list_add_valid`.
unfoldable pub add_valid : ℕ → ℕ → Memory → Bool
add_valid prev next h = ((h prev).next == next) && ((h next).prev == prev)

-- `__opium_list_add`.
unfoldable pub add_between : ℕ → ℕ → ℕ → Memory → Memory
unfolding add_valid
add_between new prev next h =
    if add_valid prev next h
    then set_next prev new (set_prev new prev (set_next new next (set_prev next new h)))
    else h

-- `opium_list_empty`.
unfoldable pub list_empty : ℕ → Memory → Bool
list_empty head h = (h head).next == head

-- `opium_list_add`.
unfoldable pub list_add : ℕ → ℕ → Memory → Memory
unfolding add_between
list_add new list h = add_between new list (h list).next h

-- `opium_list_add_tail`.
unfoldable pub list_add_tail : ℕ → ℕ → Memory → Memory
unfolding add_between
list_add_tail new list h = add_between new (h list).prev list h

-- `__opium_list_del`.
unfoldable pub del_between : ℕ → ℕ → Memory → Memory
del_between prev next h = set_next prev next (set_prev next prev h)

-- `opium_list_del`.
unfoldable pub list_del : ℕ → Memory → Memory
unfolding del_between
list_del entry h =
    set_prev entry poison_prev
      (set_next entry poison_next (del_between (h entry).prev (h entry).next h))

-- `opium_list_is_linked`.
unfoldable pub is_linked : ℕ → Memory → Bool
is_linked entry h = not ((h entry).next == poison_next) && not ((h entry).prev == poison_prev)
