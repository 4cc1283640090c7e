-- ===== src/System/Private.antt =====
-- The memory of task 1 when `main` ends, and of all tasks from then on.
use so.Common.{ℕ, ◌+◌, ◌-◌, ◌*◌, ◌/◌, ◌^◌, ◌<◌, ◌≡◌, arith, ap, ◌∙◌}
use so.ListHead.{null}
use so.Kernel.{Layout, Kernel, task_at}
use so.Kernel.Placement.{IsLayout, InUnion}
use so.Interrupt.{Idt, Handlers}
use so.Mm.Frames.Count.{free_count-init_frames}
use so.Mm.Paging.{Memory, nr_tasks, num_pag_code, num_pag_data, get_pt, pbase_addr, set_user_pages}
use so.Mm.Paging.Entry.{get_pt-init_dir_pages}
use so.Mm.Isolation.Blank.{blank, blank-IsIsolated}
use so.Mm.Isolation.First.{Given, set_user_pages-Given}
use so.Machine.Paged.{IsPaged}
use so.Machine.Private.{IsPrivate, Reach-IsPrivate}
use so.Machine.Steps.{Reach}
use so.Sched.{allocate_dir, get_dir, init_sched, init_idle, init_task1}
use so.Sched.Boot.{IsZeroed}
use so.Segment.{init_mm}
use so.System.{System, main, start_kernel}
use so.System.Started.{main-Safe}

init_task1-memory :
    (l : Layout) (k : Kernel)
    → (init_task1 l k).memory ≡ set_user_pages (l.dir_pages + 4096 * 1) k.memory
unfolding init_task1 allocate_dir get_dir
init_task1-memory l k =
    let place : (task_at l 1 - l.task) / 4096 ≡ 1 = omega arith in
    ap (λ d. set_user_pages d k.memory) (ground (arith, place))

module _ {l : Layout} (v : IsLayout l) (tss : ℕ) (set_handlers : Idt → Idt) (handlers : Handlers)
    (mem : ℕ → ℕ) (s : System) where
  abbrev started : Kernel
  started = (main l tss set_handlers handlers mem s).0.0.kernel

  -- Memory after `init_mm`.
  abbrev mapped : Memory
  mapped = blank l.dir_pages l.pagusr_table v.tables_apart s.kernel.memory

  mapped-leads :
      (i : ℕ)
      → i < nr_tasks
      → get_pt (l.dir_pages + 4096 * i) mapped.entries ≡ l.pagusr_table + 4096 * i
  mapped-leads i lt =
      get_pt-init_dir_pages l.dir_pages l.pagusr_table i _ v.tables_page v.tables_fit lt

  started-memory : started.memory ≡ set_user_pages (l.dir_pages + 4096 * 1) mapped
  unfolding main start_kernel init_idle init_sched init_mm allocate_dir get_dir
  started-memory = init_task1-memory l _

  -- `main` gives task 1 8 pages of code that it can read and 20 pages of data that it can write,
  -- in tables that are isolated.
  pub main-Given : Given l.pagusr_table 1 num_pag_code num_pag_data mapped started.memory
  main-Given = rw started-memory (
      set_user_pages-Given l.pagusr_table 1 (omega arith) (l.dir_pages + 4096 * 1)
        (mapped-leads 1 (omega arith))
        (blank-IsIsolated l.dir_pages l.pagusr_table v.tables_apart s.kernel.memory)
        (rw (free_count-init_frames s.kernel.memory.frames) (omega arith)))

  pub main-IsPaged : IsPaged l started.memory
  unfolding get_pt
  main-IsPaged = record {
    isolated = main-Given.isolated;
    leads = λ i lt.
        ap (λ e. pbase_addr e * 2 ^ 12) (main-Given.directories (l.dir_pages + 4096 * i))
        ∙ mapped-leads i lt;
  }

  -- On links and parents that are all NULL and quanta that are no negative ints, after `main`, once
  -- task 1 has entered the kernel on its own stack, and whatever interrupts and system calls follow
  -- one another, but for the release of the keys d, n and c, page faults, the call of number 21 and
  -- a write that does not return: cr3 leads to the table of the running task, the user reaches only
  -- frames above the kernel's that are in use, and no task can read what another task can write.
  pub main-IsPrivate :
      (k : Kernel) (esp : ℕ)
      → IsZeroed s.kernel.links
      → ((u : ℕ) → (s.kernel.tasks u).parent ≡ null)
      → ((u : ℕ) → (s.kernel.tasks u).quantum < 2 ^ 31)
      → InUnion (task_at l 1) esp
      → Reach l (record started { esp = esp }) k
      → IsPrivate l k
  main-IsPrivate k esp zeroed orphans small inside path =
      Reach-IsPrivate v
        (main-Safe v tss set_handlers handlers mem s zeroed orphans small esp inside) main-IsPaged
        path
