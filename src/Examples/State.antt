-- ===== src/Examples/State.antt =====
-- A small state of the kernel: idle is task 0, task 1 runs, task 2 is ready, task 3 is blocked, and
-- task 4 is free; both are children of task 1.
use so.Common.{
  ℕ, ◌+◌, ◌-◌, ◌≡◌, refl, Bool, true, List, [], ◌∷◌, arith, ◌==◌, ◌||◌, update, if◌then◌else◌, inl,
}
use so.ListHead.{Links, list_add_tail}
use so.Io.{Screen}
use so.Mm.Paging.{Memory}
use so.Kernel.{st_run, Task, Layout, Kernel, anchor, childs, child_anchor}
use so.Kernel.Placement.{IsLayout}
use so.Sched.Queues.{
  is_head, is_field, is_anchor, is_childs, is_child_anchor, is_sorted, Queued, Queued-list_add_tail,
  anchor-ne_head,
}
use so.Sched.Invariant.{Inv}

abbrev pub layout : Layout
layout = record {
  task = 0x20000;
  readyq = 0x11000;
  freeq = 0x11008;
  blocked = 0x11010;
  dir_pages = 0x30000;
  pagusr_table = 0x40000;
  cpu_idle = 0x10100;
  ret_from_fork = 0x10200;
}

pub layout-IsLayout : IsLayout layout
layout-IsLayout = record {
  page = refl;
  above = omega arith;
  fits = omega arith;
  tables_page = refl;
  tables_fit = omega arith;
  tables_apart = inl (omega arith);
  ready_global = (omega arith, inl (omega arith));
  free_global = (omega arith, inl (omega arith));
  blocked_global = (omega arith, inl (omega arith));
  ready_ne_free = omega arith;
  ready_ne_blocked = omega arith;
  free_ne_blocked = omega arith;
}

-- Four tasks are in use.
abbrev pub live : ℕ → Bool
live p =
    (p == childs 0x20000)
    || ((p == childs 0x21000) || ((p == childs 0x22000) || (p == childs 0x23000)))

abbrev blank_links : Links
blank_links = record {
  next = λ p. if is_head layout live p then p else 0;
  prev = λ p. if is_head layout live p then p else 0;
}

blank-Queued : Queued layout live blank_links (λ hd. [])
blank-Queued = record {
  all = record {
    ring = λ hd k. record { chain = (rw k refl, rw k refl); apart = refl; distinct = tt };
    apart = λ hd kd k k' ne p i. ground arith;
  };
  sorted = λ hd p k i. ground arith;
  unlinked = λ p a loose. ground (arith, anchor-ne_head layout-IsLayout live p p a);
}

abbrev free_rings : ℕ → List ℕ
free_rings = update (λ hd. []) layout.freeq (anchor 0x24000 ∷ [])

abbrev ready_rings : ℕ → List ℕ
ready_rings = update free_rings layout.readyq (anchor 0x22000 ∷ [])

abbrev blocked_rings : ℕ → List ℕ
blocked_rings = update ready_rings layout.blocked (anchor 0x23000 ∷ [])

abbrev child_rings : ℕ → List ℕ
child_rings = update blocked_rings (childs 0x21000) (child_anchor 0x23000 ∷ [])

abbrev pub rings : ℕ → List ℕ
rings = update child_rings (childs 0x21000) (child_anchor 0x23000 ∷ child_anchor 0x22000 ∷ [])

ready_head : is_head layout live layout.readyq ≡ true
unfolding is_head is_field
ready_head = refl

free_head : is_head layout live layout.freeq ≡ true
unfolding is_head is_field
free_head = refl

blocked_head : is_head layout live layout.blocked ≡ true
unfolding is_head is_field
blocked_head = refl

pub childs_head : is_head layout live (childs 0x21000) ≡ true
unfolding is_head is_field
childs_head = refl

abbrev free_links : Links
free_links = list_add_tail (anchor 0x24000) layout.freeq blank_links

free-Queued : Queued layout live free_links free_rings
free-Queued =
    Queued-list_add_tail blank-Queued layout.freeq free_head (anchor 0x24000)
      (λ hd k. ground (
        arith,
        anchor-ne_head layout-IsLayout live (anchor 0x24000) hd (unfold is_anchor is_field in refl)
            k,
      ))
      (unfold is_sorted is_anchor is_childs is_field in refl)

ready-Queued :
    Queued layout live (list_add_tail (anchor 0x22000) layout.readyq free_links) ready_rings
ready-Queued =
    Queued-list_add_tail free-Queued layout.readyq ready_head (anchor 0x22000)
      (λ hd k. ground (
        arith,
        anchor-ne_head layout-IsLayout live (anchor 0x22000) hd (unfold is_anchor is_field in refl)
            k,
      ))
      (unfold is_sorted is_anchor is_childs is_field in refl)

abbrev queued_links : Links
queued_links =
    list_add_tail (anchor 0x23000) layout.blocked
      (list_add_tail (anchor 0x22000) layout.readyq free_links)

blocked-Queued : Queued layout live queued_links blocked_rings
blocked-Queued =
    Queued-list_add_tail ready-Queued layout.blocked blocked_head (anchor 0x23000)
      (λ hd k. ground (
        arith,
        anchor-ne_head layout-IsLayout live (anchor 0x23000) hd (unfold is_anchor is_field in refl)
            k,
      ))
      (unfold is_sorted is_anchor is_childs is_field in refl)

abbrev child_links : Links
child_links = list_add_tail (child_anchor 0x23000) (childs 0x21000) queued_links

child-Queued : Queued layout live child_links child_rings
child-Queued =
    Queued-list_add_tail blocked-Queued (childs 0x21000) childs_head (child_anchor 0x23000)
      (λ hd k. unfold is_head is_childs is_field in ground arith)
      (unfold is_sorted is_child_anchor is_childs is_field in refl)

abbrev pub links : Links
links = list_add_tail (child_anchor 0x22000) (childs 0x21000) child_links

pub links-Queued : Queued layout live links rings
links-Queued =
    Queued-list_add_tail child-Queued (childs 0x21000) childs_head (child_anchor 0x22000)
      (λ hd k. unfold is_head is_childs is_field in ground arith)
      (unfold is_sorted is_child_anchor is_childs is_field in refl)

-- Each task is resumed 0xFF8 bytes above its first, and has `n` unblocks pending; tasks 2 and 3
-- have the PIDs 22 and 23.
abbrev task : ℕ → ℕ → Task
task n t = record {
  pid = if t == 0x23000 then 23 else if t == 0x22000 then 22 else 1;
  kernel_esp = t + 0xFF8;
  state = st_run;
  quantum = 100;
  dir = 0x30000 + (t - 0x20000);
  parent = if (t == 0x22000) || (t == 0x23000) then 0x21000 else 0;
  pending_unblocks = n;
}

abbrev pub screen : Screen
screen = record { x = 79; y = 24; cells = λ i. 0; port = [] }

abbrev pub memory : Memory
memory = record { frames = λ i. 0; entries = λ t q. 0; pages = λ i o. i + o }

-- The quantum of task 1 has just run out.
abbrev pub pending_kernel : ℕ → Kernel
pending_kernel n = record {
  links = links;
  tasks = task n;
  stack = λ t i. 0;
  memory = memory;
  screen = screen;
  quantum_ticks = 0;
  zeos_ticks = 0;
  last_pid = 23;
  idle_task = 0x20000;
  esp = 0x21F00;
  cr3 = 0x31000;
  esp0 = 0x21FFC;
}

abbrev pub kernel : Kernel
kernel = pending_kernel 0

pub pending_kernel-Inv : (n : ℕ) → Inv layout live (pending_kernel n) rings 0x21000
pending_kernel-Inv n = record {
  runs = record {
    queued = links-Queued;
    task = unfold is_field in refl;
    running = (omega arith, omega arith);
    entry = (omega arith, omega arith);
    ready_parked = λ p i ne. (omega arith, omega arith);
    blocked_parked = λ p i ne. (omega arith, omega arith);
    idle_parked = λ ne. (omega arith, omega arith);
    idle = unfold is_field in refl;
    idle_waits = λ hd k i. ground arith;
    directory = refl;
    quanta = λ u i. omega arith;
  };
  loose = λ hd k. ground (
    arith,
    anchor-ne_head layout-IsLayout live (anchor 0x21000) hd (unfold is_anchor is_field in refl) k,
  );
}

pub kernel-Inv : Inv layout live kernel rings 0x21000
kernel-Inv = pending_kernel-Inv 0
