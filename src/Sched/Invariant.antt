-- ===== src/Sched/Invariant.antt =====
-- The invariant of the scheduler.
use so.Common.{ℕ, ◌+◌, ◌^◌, ◌<◌, ◌≤◌, ◌≡◌, ◌≢◌, Bool, true, List, arith, ◌∈◌}
use so.Kernel.{Layout, Kernel, current, task_size, anchor, anchor_entry}
use so.Kernel.Placement.{IsLayout, InUnion}
use so.ListHead.Rings.{IsLoose}
use so.Sched.Queues.{is_field, is_anchor, is_head, Queued}

abbrev pub is_task : Layout → ℕ → Bool
is_task l = is_field l 0

-- A stack pointer from which `inner_task_switch` can resume the task at `t`.
abbrev pub IsResumable : ℕ → ℕ → Type 0
IsResumable t esp = (t ≤ esp) × (esp + 8 ≤ t + task_size)

-- A stack pointer of the task at `t`; on an empty stack it stands at the upper end of the union.
abbrev pub IsOnStack : ℕ → ℕ → Type 0
IsOnStack t p = (t ≤ p) × (p ≤ t + task_size)

abbrev pub IsParked : Kernel → ℕ → Type 0
IsParked k t = IsResumable t (k.tasks t).kernel_esp

-- The part that does not name the running task's place: `t` runs, and each task that waits, as
-- well as idle, has its saved stack pointer in its union; cr3 holds the directory of `t`.
pub record Runs (l : Layout) (live : ℕ → Bool) (k : Kernel) (rings : ℕ → List ℕ) (t : ℕ)
    : Type 0 where
  pub queued : Queued l live k.links rings
  pub task : is_task l t ≡ true
  pub running : IsOnStack t k.esp
  pub entry : (t < k.esp0) × (k.esp0 ≤ t + task_size)
  pub ready_parked : (p : ℕ) → p ∈ rings l.readyq → anchor_entry p ≢ t → IsParked k (anchor_entry p)
  pub blocked_parked :
      (p : ℕ) → p ∈ rings l.blocked → anchor_entry p ≢ t → IsParked k (anchor_entry p)
  pub idle_parked : k.idle_task ≢ t → IsParked k k.idle_task
  pub idle : is_task l k.idle_task ≡ true
  pub idle_waits :
      (hd : ℕ) → is_head l live hd ≡ true → anchor k.idle_task ∈ rings hd → hd ≡ l.readyq
  pub directory : k.cr3 ≡ (k.tasks t).dir
  pub quanta : (u : ℕ) → is_task l u ≡ true → (k.tasks u).quantum < 2 ^ 31

-- The invariant between two calls: the running task waits in no queue.
pub record Inv (l : Layout) (live : ℕ → Bool) (k : Kernel) (rings : ℕ → List ℕ) (t : ℕ)
    : Type 0 where
  pub runs : Runs l live k rings t
  pub loose : IsLoose (is_head l live) rings (anchor t)

module _ {l : Layout} (v : IsLayout l) where
  pub task-is_anchor : (t : ℕ) → is_task l t ≡ true → is_anchor l (anchor t) ≡ true
  unfolding is_anchor is_field
  task-is_anchor t h = ground (arith, v.page)

  pub anchor-is_task :
      (p : ℕ)
      → is_anchor l p ≡ true
      → (is_task l (anchor_entry p) ≡ true) × (anchor (anchor_entry p) ≡ p)
  unfolding is_anchor is_field
  anchor-is_task p h = ground (arith, v.page)

  pub readyq-is_head : (live : ℕ → Bool) → is_head l live l.readyq ≡ true
  unfolding is_head
  readyq-is_head live = ground arith

  pub blocked-is_head : (live : ℕ → Bool) → is_head l live l.blocked ≡ true
  unfolding is_head
  blocked-is_head live = ground arith

  pub current-running : (k : Kernel) (t : ℕ) → is_task l t ≡ true → InUnion t k.esp → current k ≡ t
  unfolding current is_field
  current-running k t h i = ground (arith, v.page)
