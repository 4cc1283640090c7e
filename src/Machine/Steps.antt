-- ===== src/Machine/Steps.antt =====
-- The kernel as a labelled transition system: interrupts and system calls one after the other.
use mathlib.Core.Path.{subst}
use so.Common.{ℕ, ◌+◌, ◌≤◌, ◌≡◌, refl, ◌≢◌, Bool, List, arith, sym, some}
use so.Io.{Screen}
use so.Kernel.{Layout, Kernel}
use so.Kernel.Placement.{IsLayout, InUnion}
use so.Sched.Queues.{is_field}
use so.Sched.Invariant.{IsResumable, Inv}
use so.Sys.{sys_write, sys_unblock, sys_block, sys_fork, sys_exit}
use so.Sys.Write.{sys_write-screen}
use so.Interrupt.{clock_service}
use so.Interrupt.Keyboard.{IsPlainKey, keyboard_service}
use so.Machine.NoBirths.{no-Births}
use so.Machine.{
  Safe, After, owner, Event, on_tick, on_block, on_unblock, on_fork, on_exit, on_other, stay,
}
use so.Machine.Same.{screen-Same, Same-After}
use so.Machine.Keys.{keyboard_service-After}
use so.Machine.Tick.{clock_service-After}
use so.Machine.Wait.{sys_block-After, sys_unblock-After}
use so.Machine.Fork.{sys_fork-After}
use so.Machine.Exit.{sys_exit-After}

-- What happens in the kernel. `ebp` is the frame pointer of the function that saves it; idle, which
-- never leaves the kernel, neither blocks nor ends. The release of the keys d, n and c, which
-- switches tasks behind the back of the queues, is left out, and so are page faults, after which
-- the kernel stops for good, the call of number 21, which goes through the word behind the table,
-- and a `sys_write` that does not return, since its copy faults or its array runs over the stack.
pub data Step (l : Layout) : Kernel → Event → Kernel → Type 0 where
  -- The processor or the code moves the stack pointer in the union of the running task.
  move_esp :
      (k : Kernel) (esp : ℕ) → InUnion (owner k) esp → Step l k on_other (record k { esp = esp })
  tick :
      (k : Kernel) (zeos_show_clock : Screen → Screen) (ebp : ℕ)
      → InUnion (owner k) k.esp
      → IsResumable (owner k) ebp
      → Step l k on_tick (clock_service l zeos_show_clock ebp k)
  write :
      (k : Kernel) (fd buffer size buff low : ℕ) (mem : ℕ → ℕ) (n : ℕ) (k' : Kernel)
      → sys_write fd buffer size buff low mem k ≡ some (n, k')
      → Step l k on_other k'
  key :
      (k : Kernel) (beyond : ℕ → ℕ) (ebp c : ℕ)
      → IsPlainKey beyond c
      → Step l k on_other (keyboard_service l beyond ebp c k)
  block :
      (k : Kernel) (ebp : ℕ)
      → InUnion (owner k) k.esp
      → IsResumable (owner k) ebp
      → owner k ≢ k.idle_task
      → Step l k on_block (sys_block l ebp k)
  unblock :
      (k : Kernel) (pid : ℕ) → InUnion (owner k) k.esp → Step l k on_unblock (sys_unblock l pid k).1
  fork :
      (k : Kernel) (ebp : ℕ)
      → InUnion (owner k) k.esp
      → IsResumable (owner k) ebp
      → owner k + 4 ≤ ebp
      → Step l k on_fork (sys_fork l ebp k).1
  exit :
      (k : Kernel) (ebp : ℕ)
      → InUnion (owner k) k.esp
      → IsResumable (owner k) ebp
      → owner k ≢ k.idle_task
      → Step l k on_exit (sys_exit l ebp k)

-- The states that the steps lead to from the first one.
pub data Reach (l : Layout) (k₀ : Kernel) : Kernel → Type 0 where
  start : Reach l k₀ k₀
  next : (k : Kernel) (e : Event) (k' : Kernel) → Reach l k₀ k → Step l k e k' → Reach l k₀ k'

module _ {l : Layout} (v : IsLayout l) where
  pub owner-Inv :
      {k : Kernel} {live : ℕ → Bool} {rings : ℕ → List ℕ} {t : ℕ}
      → Inv l live k rings t
      → owner k ≡ t
  unfolding owner is_field
  owner-Inv inv = ground (arith, v.page, inv.runs.task, inv.runs.entry)

  -- The running task of the invariant is the one that esp0 names.
  pub owner-running :
      {k : Kernel} {live : ℕ → Bool} {rings : ℕ → List ℕ} {t : ℕ}
      → Safe l live k rings t
      → owner k ≡ t
  owner-running s = owner-Inv s.inv

  module _ {k : Kernel} {live : ℕ → Bool} {rings : ℕ → List ℕ} {t : ℕ}
      (s : Safe l live k rings t) where
    move_esp-After :
        (esp : ℕ) → InUnion t esp → After l live k rings t on_other (record k { esp = esp })
    move_esp-After esp inside = record {
      live = live;
      rings' = rings;
      running = t;
      safe = record {
        inv = record {
          runs = record {
            queued = s.inv.runs.queued;
            task = s.inv.runs.task;
            running = (inside.0, omega (arith, inside.1));
            entry = s.inv.runs.entry;
            ready_parked = s.inv.runs.ready_parked;
            blocked_parked = s.inv.runs.blocked_parked;
            idle_parked = s.inv.runs.idle_parked;
            idle = s.inv.runs.idle;
            idle_waits = s.inv.runs.idle_waits;
            directory = s.inv.runs.directory;
            quanta = s.inv.runs.quanta;
          };
          loose = s.inv.loose;
        };
        family = record {
          running = s.family.running;
          idle = s.family.idle;
          ready = s.family.ready;
          blocked = s.family.blocked;
          free = s.family.free;
          dead_loose = s.family.dead_loose;
          dirs = s.family.dirs;
          orphan_loose = s.family.orphan_loose;
          parent = s.family.parent;
        };
      };
      births = no-Births (λ u. refl) refl (λ u on. on);
      move = stay on_other refl refl;
    }

  module _ {live : ℕ → Bool} {rings : ℕ → List ℕ} where
    -- One step.
    Step-After_at :
        {k k' : Kernel} {e : Event} {t : ℕ}
        → Safe l live k rings t
        → owner k ≡ t
        → Step l k e k'
        → After l live k rings t e k'
    Step-After_at s o (move_esp k esp inside) = move_esp-After s esp (rw (← o) inside)
    Step-After_at s o (tick k show ebp i r) =
        clock_service-After v s show ebp (rw (← o) i) (rw (← o) r)
    Step-After_at {k = k} s o (write _ fd buffer size buff low mem n k' e) =
        subst (After l live k rings _ on_other)
          (sym (sys_write-screen fd buffer size buff low mem k n k' e))
          (Same-After s (screen-Same k k'.screen) on_other refl)
    Step-After_at s o (key k beyond ebp c plain) = keyboard_service-After v s beyond ebp c plain
    Step-After_at s o (block k ebp i r ne) =
        sys_block-After v s (rw (← o) i) ebp (rw (← o) r) (rw (← o) ne)
    Step-After_at s o (unblock k pid i) = sys_unblock-After v s (rw (← o) i) pid
    Step-After_at s o (fork k ebp i r d) =
        sys_fork-After v s ebp (rw (← o) r) (rw (← o) d) (rw (← o) i)
    Step-After_at s o (exit k ebp i r ne) =
        sys_exit-After v s (rw (← o) ne) (rw (← o) i) ebp (rw (← o) r)

    -- Every step from a safe kernel, which is an interrupt or a system call other than the release
    -- of the keys d, n and c, page faults, the call of number 21 and a write that does not return,
    -- leads to a safe kernel, and what it does to the running task and the queues is a move that
    -- its event allows.
    pub Step-After :
        {k k' : Kernel} {e : Event} {t : ℕ}
        → Safe l live k rings t
        → Step l k e k'
        → After l live k rings t e k'
    Step-After s step = Step-After_at s (owner-running s) step

  -- Every kernel that steps, which leave out the release of the keys d, n and c, page faults, the
  -- call of number 21 and a write that does not return, lead to from a safe one is safe, and the
  -- task that esp0 names runs.
  pub Reach-Safe :
      {k₀ k : Kernel} {live : ℕ → Bool} {rings : ℕ → List ℕ} {t : ℕ}
      → Safe l live k₀ rings t
      → Reach l k₀ k
      → (live' : ℕ → Bool) × (rings' : ℕ → List ℕ) × Safe l live' k rings' (owner k)
  Reach-Safe {live = live} {rings = rings} s start =
      (live, rings, subst (Safe l live _ rings) (sym (owner-running s)) s)
  Reach-Safe s (next k e k' before step) =
      let (live, rings, now) = Reach-Safe s before in
      let a = Step-After now step in
      (a.live, a.rings', subst (Safe l a.live k' a.rings') (sym (owner-running a.safe)) a.safe)
