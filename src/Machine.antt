-- ===== src/Machine.antt =====
-- The kernel as a machine: what its queues promise, and what it means for a state to be safe.
pub mod Exit
pub mod NoBirths
pub mod Same
pub mod Wait
pub mod Tick
pub mod Lost
pub mod Spawned
pub mod Fork
pub mod ForkedChild
pub mod Start
pub mod Steps
pub mod Fair
pub mod Keys
pub mod Paged
pub mod Private
pub mod Quantum
pub mod Pids
use so.Common.{
  ℕ, ◌+◌, ◌-◌, ◌%◌, ◌^◌, ◌<◌, ◌≤◌, ◌⊎◌, ◌≡◌, ◌≢◌, Bool, true, false, List, [], ◌∷◌, ◌++◌, ◌∈◌,
  erase,
}
use so.Kernel.{Layout, Kernel, childs, anchor, anchor_entry, task_size}
use so.Sched.Invariant.{is_task, Inv}
use so.Sched.Switch.{next_task, remaining}
use so.Sys.Family.{Family}

-- The abstract view of the kernel: the running task, and the anchors in each queue in order.
pub record Queues : Type 0 where
  pub running : ℕ
  pub ready : List ℕ
  pub blocked : List ℕ
  pub free : List ℕ

abbrev pub view : Layout → (ℕ → List ℕ) → ℕ → Queues
view l rings t = record {
  running = t;
  ready = rings l.readyq;
  blocked = rings l.blocked;
  free = rings l.freeq;
}

-- What the kernel is asked to do.
pub data Event : Type 0 where
  on_tick on_block on_unblock on_fork on_exit on_other : Event

-- Whether the event may leave all queues alone.
abbrev pub may_stay : Event → Bool
may_stay on_tick = true
may_stay on_block = true
may_stay on_unblock = true
may_stay on_fork = true
may_stay on_exit = false
may_stay on_other = true

-- What each event may do to the queues.
pub data Move (idle : ℕ) (q q' : Queues) : Event → Type 0 where
  stay : (e : Event) → may_stay e ≡ true → q' ≡ q → Move idle q q' e
  preempt :
      (p : ℕ) (ps : List ℕ)
      → q.ready ≡ p ∷ ps
      → q' ≡ record q { running = anchor_entry p; ready = ps ++ anchor q.running ∷ [] }
      → Move idle q q' on_tick
  block :
      q.running ≢ idle
      → q' ≡ record q {
        running = next_task idle q.ready;
        ready = remaining q.ready;
        blocked = q.blocked ++ anchor q.running ∷ [];
      }
      → Move idle q q' on_block
  wake :
      (c : ℕ)
      → c ∈ q.blocked
      → q' ≡ record q { ready = q.ready ++ c ∷ []; blocked = erase c q.blocked }
      → Move idle q q' on_unblock
  spawn :
      (p : ℕ) (ps : List ℕ)
      → q.free ≡ p ∷ ps
      → q' ≡ record q { ready = q.ready ++ p ∷ []; free = ps }
      → Move idle q q' on_fork
  lose :
      (p : ℕ) (ps : List ℕ) → q.free ≡ p ∷ ps → q' ≡ record q { free = ps } → Move idle q q' on_fork
  leave :
      q.running ≢ idle
      → q' ≡ record q {
        running = next_task idle q.ready;
        ready = remaining q.ready;
        free = q.free ++ anchor q.running ∷ [];
      }
      → Move idle q q' on_exit

-- The invariant of the whole kernel: its lists are `rings`, and `t` runs.
pub record Safe (l : Layout) (live : ℕ → Bool) (k : Kernel) (rings : ℕ → List ℕ) (t : ℕ)
    : Type 0 where
  pub inv : Inv l live k rings t
  pub family : Family l live k rings t

-- A PID that no task has had before, while the counter does not wrap.
abbrev pub IsNewPid : Kernel → Kernel → ℕ → Type 0
IsNewPid k k' u =
    k.last_pid + 2 < 2 ^ 32 → (k.last_pid < (k'.tasks u).pid) × ((k'.tasks u).pid ≤ k'.last_pid)

-- At most one task comes into use, with a new PID; the other ones that are in use keep theirs.
pub record Births (l : Layout) (live live' : ℕ → Bool) (k k' : Kernel) : Type 0 where
  pub same :
      (u : ℕ)
      → is_task l u ≡ true
      → live' (childs u) ≡ true
      → ((live (childs u) ≡ true) × ((k'.tasks u).pid ≡ (k.tasks u).pid))
        ⊎ ((live (childs u) ≡ false) × IsNewPid k k' u)
  pub single :
      (u w : ℕ)
      → is_task l u ≡ true
      → is_task l w ≡ true
      → live' (childs u) ≡ true
      → live' (childs w) ≡ true
      → live (childs u) ≡ false
      → live (childs w) ≡ false
      → u ≡ w
  pub counter :
      k.last_pid + 2 < 2 ^ 32 → (k.last_pid ≤ k'.last_pid) × (k'.last_pid ≤ k.last_pid + 2)

-- A safe state again, which a move of the queues leads to.
pub record After (l : Layout) (live₀ : ℕ → Bool) (k : Kernel) (rings : ℕ → List ℕ) (t : ℕ)
    (e : Event) (k' : Kernel) : Type 0 where
  pub live : ℕ → Bool
  pub rings' : ℕ → List ℕ
  pub running : ℕ
  pub safe : Safe l live k' rings' running
  pub births : Births l live₀ live k k'
  pub move : Move k.idle_task (view l rings t) (view l rings' running) e

-- The task whose stack the processor takes on the way into the kernel.
unfoldable pub owner : Kernel → ℕ
owner k = k.esp0 - 1 - (k.esp0 - 1) % task_size
