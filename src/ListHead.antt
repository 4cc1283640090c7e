-- ===== src/ListHead.antt =====
-- list.c and include/list.h: the circular doubly linked lists of the kernel. A `struct list_head *`
-- is an address, and the store `Links` holds the `next` and `prev` word of each address. The store
-- is total: a write through NULL writes the cell at 0.
pub mod Ring
pub mod Insert
pub mod Delete
pub mod Walk
pub mod Apart
pub mod Rings
use so.Common.{ℕ, zero, suc, ◌≡◌, Bool, List, [], ◌∷◌, update, ◌==◌, if◌then◌else◌}

pub record Links : Type 0 where
  pub next : ℕ → ℕ
  pub prev : ℕ → ℕ

abbrev pub null : ℕ
null = 0

abbrev set_next : ℕ → ℕ → Links → Links
set_next p v h = record h { next = update h.next p v }

abbrev set_prev : ℕ → ℕ → Links → Links
set_prev p v h = record h { prev = update h.prev p v }

unfoldable pub init_list_head : ℕ → Links → Links
init_list_head list h = set_prev list list (set_next list list h)

-- `__list_add`, its four stores in the order of the source.
list_insert : ℕ → ℕ → ℕ → Links → Links
list_insert new prev next h =
    set_next prev new (set_prev new prev (set_next new next (set_prev next new h)))

unfoldable pub list_add : ℕ → ℕ → Links → Links
unfolding list_insert
list_add new head h = list_insert new head (h.next head) h

unfoldable pub list_add_tail : ℕ → ℕ → Links → Links
unfolding list_insert
list_add_tail new head h = list_insert new (h.prev head) head h

-- `__list_del`
list_unlink : ℕ → ℕ → Links → Links
list_unlink prev next h = set_next prev next (set_prev next prev h)

unfoldable pub list_del : ℕ → Links → Links
unfolding list_unlink
list_del entry h =
    set_prev entry null (set_next entry null (list_unlink (h.prev entry) (h.next entry) h))

unfoldable pub list_is_last : ℕ → ℕ → Links → Bool
list_is_last list head h = h.next list == head

unfoldable pub list_empty : ℕ → Links → Bool
list_empty head h = h.next head == head

unfoldable pub list_first : ℕ → Links → ℕ
list_first head h = h.next head

-- The addresses that the cursor of `list_for_each` takes, on fuel.
walk : ℕ → ℕ → ℕ → Links → List ℕ
walk zero pos head h = []
walk (suc f) pos head h =
    let rest = walk f (h.next pos) head h in if pos == head then [] else pos ∷ rest

unfoldable pub list_for_each : ℕ → ℕ → Links → List ℕ
unfolding walk
list_for_each fuel head h = walk fuel (h.next head) head h
