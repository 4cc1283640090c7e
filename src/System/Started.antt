-- ===== src/System/Started.antt =====
-- The state that `main` hands to task 1.
use so.Common.{ℕ, ◌+◌, ◌^◌, ◌<◌, ◌≤◌, ◌≡◌, refl, inl, arith}
use so.ListHead.{null}
use so.Kernel.{Layout, Kernel, task_at}
use so.Kernel.Placement.{IsLayout, InUnion}
use so.Interrupt.{Idt, Handlers}
use so.Machine.{Safe}
use so.Machine.Same.{Same, Same-Safe}
use so.Machine.Start.{booted-Safe}
use so.Sched.{allocate_dir, init_sched, init_idle, init_task1}
use so.Sched.Boot.{IsZeroed, first_childs, first_rings, booted}
use so.Segment.{set_tss, init_mm, l_user_start}
use so.System.{System, main, start_kernel, copy_user, kernel_start, sys_size, usr_size}
use so.Utils.Copy.{copied, copy_data-copied}

module _ {l : Layout} (v : IsLayout l) (tss : ℕ) (set_handlers : Idt → Idt) (handlers : Handlers)
    (mem : ℕ → ℕ) (s : System) (zeroed : IsZeroed s.kernel.links)
    (orphans : (u : ℕ) → (s.kernel.tasks u).parent ≡ null)
    (small : (u : ℕ) → (s.kernel.tasks u).quantum < 2 ^ 31) where
  abbrev pub started : Kernel
  started = (main l tss set_handlers handlers mem s).0.0.kernel

  -- The kernel before `init_sched`.
  abbrev mapped : Kernel
  mapped = init_mm l (record s.kernel { esp0 = (set_tss l).esp0 })

  main-Same : (esp : ℕ) → Same (booted v mapped esp) (record started { esp = esp })
  unfolding main start_kernel init_task1 init_idle init_sched init_mm allocate_dir
  main-Same esp = record {
    links = refl;
    esp0 = refl;
    esp = refl;
    idle = refl;
    stacks = λ u. refl;
    quanta = λ u. refl;
    pids = λ u. refl;
    last_pid = refl;
    cr3 = refl;
    dirs = λ u. refl;
    parents = λ u. refl;
  }

  -- On links and parents that are all NULL and quanta that are no negative ints, `main` leaves a
  -- kernel that is safe once task 1 has entered it on its own stack, with task 1 running.
  pub main-Safe :
      (esp : ℕ)
      → InUnion (task_at l 1) esp
      → Safe l (first_childs v) (record started { esp = esp }) (first_rings v) (task_at l 1)
  main-Safe esp inside =
      Same-Safe
        (booted-Safe v mapped esp (unfold init_mm in zeroed)
          (λ u. unfold init_mm allocate_dir in ground (arith, orphans u))
          (λ u. unfold init_mm allocate_dir in ground (arith, small u))
          (unfold init_mm set_tss in refl) inside)
        (main-Same esp)

-- `main` copies the user's program, whose size is a positive int, from behind the kernel, which
-- ends below it, to its place, and writes nowhere else.
pub main-copied :
    (l : Layout) (tss : ℕ) (set_handlers : Idt → Idt) (handlers : Handlers) (mem : ℕ → ℕ)
    (s : System)
    → kernel_start + sys_size mem + usr_size mem ≤ l_user_start
    → (a : ℕ)
    → (main l tss set_handlers handlers mem s).0.1 a
      ≡ copied (kernel_start + sys_size mem) l_user_start (usr_size mem) mem a
unfolding main copy_user
main-copied l tss set_handlers handlers mem s fits a =
    copy_data-copied (kernel_start + sys_size mem) l_user_start (usr_size mem) mem (inl fits)
      (omega arith) a
