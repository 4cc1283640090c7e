-- ===== src/Machine/Private.antt =====
-- No task reaches the memory that another task can write.
use so.Common.{ℕ, ◌+◌, ◌*◌, ◌≤◌, ◌<◌, ◌≡◌, ◌≢◌, Bool, true, List, ap, ◌∙◌}
use so.Mm.Frames.{num_pag_kernel, total_pages, free_mark}
use so.Mm.Paging.{Memory, nr_tasks, get_pt, pbase_addr}
use so.Mm.Isolation.{can_read, can_write, can_write-apart, can_read-above}
use so.Kernel.{Layout, Kernel, place}
use so.Kernel.Placement.{IsLayout}
use so.Machine.{Safe, owner, Event}
use so.Machine.Paged.{IsPaged, Step-IsPaged_at, task_table}
use so.Machine.Steps.{Step, Reach, start, next, Reach-Safe, owner-running}

-- The entry of page `q` in the table of the task at place `i`.
abbrev entry : Layout → Memory → ℕ → ℕ → ℕ
entry l m i q = m.entries (l.pagusr_table + 4096 * i) q

-- cr3 leads to the table of the running task. What a task can read stands above the kernel, in a
-- frame that is in use, and no task can read what another task can write.
pub record IsPrivate (l : Layout) (k : Kernel) : Type 0 where
  pub own_table : get_pt k.cr3 k.memory.entries ≡ l.pagusr_table + 4096 * place l (owner k)
  pub above :
      (i q : ℕ)
      → i < nr_tasks
      → q < total_pages
      → can_read (entry l k.memory i q) ≡ true
      → let frame = pbase_addr (entry l k.memory i q) in
        (num_pag_kernel ≤ frame) × (k.memory.frames frame ≢ free_mark)
  pub apart :
      (i q i' q' : ℕ)
      → i < nr_tasks
      → q < total_pages
      → i' < nr_tasks
      → q' < total_pages
      → i ≢ i'
      → can_write (entry l k.memory i q) ≡ true
      → can_read (entry l k.memory i' q') ≡ true
      → pbase_addr (entry l k.memory i q) ≢ pbase_addr (entry l k.memory i' q')

module _ {l : Layout} (v : IsLayout l) where
  -- A step, which is an interrupt or a system call other than the release of the keys d, n and c,
  -- page faults, the call of number 21 and a write that does not return, from a safe kernel whose
  -- tables are isolated leaves them isolated.
  pub Step-IsPaged :
      {k k' : Kernel} {live : ℕ → Bool} {rings : ℕ → List ℕ} {t : ℕ} {e : Event}
      → Safe l live k rings t
      → IsPaged l k.memory
      → Step l k e k'
      → IsPaged l k'.memory
  Step-IsPaged s g step = Step-IsPaged_at v s g (owner-running v s) step

  Reach-IsPaged :
      {k₀ k : Kernel} {live : ℕ → Bool} {rings : ℕ → List ℕ} {t : ℕ}
      → Safe l live k₀ rings t
      → IsPaged l k₀.memory
      → Reach l k₀ k
      → IsPaged l k.memory
  Reach-IsPaged s g start = g
  Reach-IsPaged s g (next k e k' before step) =
      let (live, rings, now) = Reach-Safe v s before in
      Step-IsPaged now (Reach-IsPaged s g before) step

  Safe-IsPrivate :
      {k : Kernel} {live : ℕ → Bool} {rings : ℕ → List ℕ}
      → Safe l live k rings (owner k)
      → IsPaged l k.memory
      → IsPrivate l k
  Safe-IsPrivate {k} s g = record {
    own_table =
        ap (λ d. get_pt d k.memory.entries) s.inv.runs.directory
        ∙ task_table s g (owner k) s.inv.runs.task s.family.running;
    above = can_read-above g.isolated;
    apart = can_write-apart g.isolated;
  }

  -- From a safe kernel whose tables are isolated, whatever the steps, cr3 leads to the table of the
  -- running task, the user reaches only frames above the kernel's that are in use, and no task can
  -- read what another task can write.
  pub Reach-IsPrivate :
      {k₀ k : Kernel} {live : ℕ → Bool} {rings : ℕ → List ℕ} {t : ℕ}
      → Safe l live k₀ rings t
      → IsPaged l k₀.memory
      → Reach l k₀ k
      → IsPrivate l k
  Reach-IsPrivate s g path =
      let (live, rings, now) = Reach-Safe v s path in Safe-IsPrivate now (Reach-IsPaged s g path)
