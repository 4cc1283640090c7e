-- ===== src/Kernel/Placement.antt =====
-- Where the globals may stand, and what `current` finds there.
use so.Common.{ℕ, ◌+◌, ◌*◌, ◌%◌, ◌^◌, ◌<◌, ◌≤◌, ◌≡◌, ◌≢◌, ◌⊎◌}
use so.Kernel.{Layout, task_at, task_size}
use so.Mm.Paging.{nr_tasks}

-- A queue head lies outside the array of tasks, and is not NULL.
abbrev IsGlobal : Layout → ℕ → Type 0
IsGlobal l p = (0 < p) × ((p < l.task) ⊎ (task_at l nr_tasks ≤ p))

-- The linker script puts the arrays on a page boundary, and the image into the address space. In
-- which order it puts the directories and the tables is left open.
pub record IsLayout (l : Layout) : Type 0 where
  pub page : l.task % task_size ≡ 0
  pub above : 0 < l.task
  pub fits : task_at l nr_tasks ≤ 2 ^ 32
  pub tables_page : l.pagusr_table % 4096 ≡ 0
  pub tables_fit : l.pagusr_table + 4096 * nr_tasks ≤ 2 ^ 32
  pub tables_apart :
      (l.dir_pages + 4096 * nr_tasks ≤ l.pagusr_table)
      ⊎ (l.pagusr_table + 4096 * nr_tasks ≤ l.dir_pages)
  pub ready_global : IsGlobal l l.readyq
  pub free_global : IsGlobal l l.freeq
  pub blocked_global : IsGlobal l l.blocked
  pub ready_ne_free : l.readyq ≢ l.freeq
  pub ready_ne_blocked : l.readyq ≢ l.blocked
  pub free_ne_blocked : l.freeq ≢ l.blocked

-- An address inside the task_union at `t`.
abbrev pub InUnion : ℕ → ℕ → Type 0
InUnion t p = (t ≤ p) × (p < t + task_size)
