-- ===== src/System/Pids.antt =====
-- PIDs from the start of the kernel on.
use so.Common.{ℕ, ◌-◌, ◌^◌, ◌<◌, ◌≡◌, Bool, List, arith}
use so.ListHead.{null}
use so.Kernel.{Layout, Kernel, task_at}
use so.Kernel.Placement.{IsLayout, InUnion}
use so.Interrupt.{Idt, Handlers}
use so.Machine.{Safe, owner}
use so.Machine.Pids.{HasPids, Reach-HasPids, steps}
use so.Machine.Steps.{Reach}
use so.Sched.{allocate_dir, init_sched, init_idle, init_task1}
use so.Sched.Boot.{IsZeroed, first_childs}
use so.Segment.{init_mm}
use so.System.{System, main, start_kernel}
use so.System.Started.{started, main-Safe}

module _ {l : Layout} (v : IsLayout l) (tss : ℕ) (set_handlers : Idt → Idt) (handlers : Handlers)
    (mem : ℕ → ℕ) (s : System) (zeroed : IsZeroed s.kernel.links)
    (orphans : (u : ℕ) → (s.kernel.tasks u).parent ≡ null)
    (small : (u : ℕ) → (s.kernel.tasks u).quantum < 2 ^ 31) (last : s.kernel.last_pid ≡ 1)
    (esp : ℕ) where
  abbrev pub entered : Kernel
  entered = record (started v tss set_handlers handlers mem s zeroed orphans small) { esp = esp }

  main-HasPids : HasPids l (first_childs v) entered
  unfolding main start_kernel init_task1 init_idle init_sched init_mm allocate_dir
  main-HasPids = record {
    below = λ u task on. ground (arith, last);
    distinct = λ u w task task' on on' same. ground arith;
  }

  last_eq : entered.last_pid ≡ 1
  unfolding main start_kernel init_task1 init_idle init_sched init_mm allocate_dir
  last_eq = last

  -- On links and parents that are all NULL, quanta that are no negative ints and a counter of PIDs
  -- that is 1, after `main`, once task 1 has entered the kernel on its own stack, and for less than
  -- 2^31 - 1 steps, which leave out the release of the keys d, n and c, page faults, the call of
  -- number 21 and a write that does not return: the kernel is safe and PIDs tell the tasks in use
  -- apart.
  pub main-pids :
      (k : Kernel)
      → InUnion (task_at l 1) esp
      → (path : Reach l entered k) → steps path < 2 ^ 31 - 1
      → (live' : ℕ → Bool) × (rings' : ℕ → List ℕ) × Safe l live' k rings' (owner k)
        × HasPids l live' k
  main-pids k inside path few =
      let (live', rings', now, pids, count) =
        Reach-HasPids v
          (main-Safe v tss set_handlers handlers mem s zeroed orphans small esp inside) main-HasPids
          path (omega (arith, last_eq, few)) in
      (live', rings', now, pids)
