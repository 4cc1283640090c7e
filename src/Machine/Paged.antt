-- ===== src/Machine/Paged.antt =====
-- What interrupts and system calls do to the tables and frames of all tasks.
use so.Common.{
  ℕ, ◌+◌, ◌*◌, ◌≤◌, ◌<◌, ◌^◌, ◌≡◌, refl, ◌≢◌, Bool, true, List, [], ◌∷◌, arith, ap, sym, ◌∙◌, wadd,
}
use mathlib.Core.Path.{subst}
use so.Io.{Screen}
use so.Mm.Paging.{Memory, nr_tasks, num_pag_data, get_pt, pbase_addr, free_user_pages}
use so.Mm.Paging.User.{Freed, free_user_pages-Freed}
use so.Mm.Isolation.{IsIsolated}
use so.Mm.Isolation.Back.{Freed-IsIsolated}
use so.Kernel.{childs, Layout, Kernel, place, dir_of, anchor_entry}
use so.Kernel.Placement.{IsLayout, InUnion}
use so.ListHead.Walk.{is_nil}
use so.Sched.{allocate_dir, get_task_pt}
use so.Machine.Keys.{keyboard_service-screen}
use so.Interrupt.Keyboard.{IsPlainKey, keyboard_service}
use so.Sched.Kept.{scheduler-Kept, sched_next_rr-Kept}
use so.Sched.Invariant.{is_task, IsResumable}
use so.Sched.Queues.{is_field}
use so.Sys.{sys_fork, sys_exit, copy_union, Forked, share_code, fork_data}
use so.Sys.Isolated.{left_memory, fork_data-IsIsolated, fork_data-directories}
use so.Sys.Child.{child-ne_running, child-is_task}
use so.Sys.Leave.{freed, orphaned}
use so.Machine.Exit.{gone, sys_exit_at}
use so.Interrupt.{clock_service}
use so.Machine.{Safe, owner, Event}
use so.Sys.Write.{sys_write-screen}
use so.Machine.Steps.{Step, move_esp, tick, write, key, block, unblock, fork, exit}
use so.Sys.Still.{
  screen-Still, Still, sys_block-Still, sys_unblock-Still, finish_fork-memory, orphaned-Still,
}
use so.Machine.Fork.{copy, empty_free}
use so.Machine.ForkedChild.{sys_fork-eq}

-- The tables are isolated, and the directory of each place leads to the table of that place.
pub record IsPaged (l : Layout) (m : Memory) : Type 0 where
  pub isolated : IsIsolated l.pagusr_table m
  pub leads :
      (i : ℕ) → i < nr_tasks → get_pt (l.dir_pages + 4096 * i) m.entries ≡ l.pagusr_table + 4096 * i

place-lt : (l : Layout) (u : ℕ) → is_task l u ≡ true → place l u < nr_tasks
unfolding is_field
place-lt l u h = ground arith

place-ne :
    (l : Layout) (u w : ℕ) → is_task l u ≡ true → is_task l w ≡ true → u ≢ w → place l u ≢ place l w
unfolding is_field
place-ne l u w h h' = ground arith

module _ (l : Layout) (k : Kernel) where
  clock_service-memory :
      (show : Screen → Screen) (ebp : ℕ) → (clock_service l show ebp k).memory ≡ k.memory
  unfolding clock_service
  clock_service-memory show ebp =
      (scheduler-Kept l ebp
        (record k { zeos_ticks = wadd k.zeos_ticks 1; screen = show k.screen })).memory

  pub keyboard_service-Still :
      (beyond : ℕ → ℕ) (ebp c : ℕ)
      → IsPlainKey beyond c
      → Still k (keyboard_service l beyond ebp c k)
  keyboard_service-Still beyond ebp c plain =
      subst (Still k) (sym (keyboard_service-screen l k beyond ebp c plain)) (screen-Still k _)

module _ {l : Layout} {k : Kernel} {live : ℕ → Bool} {rings : ℕ → List ℕ} {t : ℕ}
    (s : Safe l live k rings t) (g : IsPaged l k.memory) where
  -- The table of a task in use.
  pub task_table :
      (u : ℕ)
      → is_task l u ≡ true
      → live (childs u) ≡ true
      → get_task_pt u k ≡ l.pagusr_table + 4096 * place l u
  task_table u h on = rw (s.family.dirs u h on) (g.leads (place l u) (place-lt l u h))

  module _ (v : IsLayout l) (ebp : ℕ) (save : IsResumable t ebp) where
    module _ (deep : t + 4 ≤ ebp) (p : ℕ) (ps : List ℕ) (first : rings l.freeq ≡ p ∷ ps) where
      abbrev k₂ : Kernel
      k₂ = copy v s ebp save deep p ps first

      abbrev new : ℕ
      new = anchor_entry p

      other : t ≢ new
      other e = child-ne_running v s.inv s.family p ps first (sym e)

      child_table : get_task_pt new k₂ ≡ l.pagusr_table + 4096 * place l new
      unfolding allocate_dir copy_union
      child_table =
          let dir : (k₂.tasks new).dir ≡ dir_of l new = ground arith in
          ap (λ d. get_pt d k.memory.entries) dir
          ∙ g.leads (place l new) (place-lt l new (child-is_task v s.inv s.family p ps first))

      parent_table : get_task_pt t k₂ ≡ l.pagusr_table + 4096 * place l t
      unfolding allocate_dir copy_union
      parent_table =
          let dir : (k₂.tasks t).dir ≡ (k.tasks t).dir = ground (arith, other) in
          ap (λ d. get_pt d k.memory.entries) dir ∙ task_table t s.inv.runs.task s.family.running

      same_memory : k₂.memory ≡ k.memory
      unfolding allocate_dir copy_union
      same_memory = refl

      abbrev forked : Forked
      forked =
          let ptn = l.pagusr_table + 4096 * place l new in
          let ptc = l.pagusr_table + 4096 * place l t in
          fork_data ptn ptc num_pag_data 0 (share_code ptn ptc k.memory)

      forked-IsPaged : IsPaged l (left_memory forked)
      unfolding get_pt
      forked-IsPaged =
          let c = place-lt l new (child-is_task v s.inv s.family p ps first) in
          let own = place-lt l t s.inv.runs.task in
          let ne =
            place-ne l new t (child-is_task v s.inv s.family p ps first) s.inv.runs.task
              (λ e. other (sym e)) in
          record {
            isolated = fork_data-IsIsolated c own ne g.isolated;
            leads = λ i lt.
                ap (λ e. pbase_addr e * 2 ^ 12)
                  (fork_data-directories c own ne g.isolated (l.dir_pages + 4096 * i))
                ∙ g.leads i lt;
          }

    module _ (deep : t + 4 ≤ ebp) (entered : InUnion t k.esp) where
      sys_fork-IsPaged_at :
          (xs : List ℕ) → rings l.freeq ≡ xs → IsPaged l (sys_fork l ebp k).1.memory
      unfolding is_nil
      sys_fork-IsPaged_at [] e = unfold sys_fork in rw (empty_free v s ebp save deep entered [] e) g
      sys_fork-IsPaged_at (p ∷ ps) e =
          rw
            (
              sys_fork-eq v s ebp save deep entered p ps e,
              finish_fork-memory l (k₂ deep p ps e) t (anchor_entry p) ebp _,
              child_table deep p ps e,
              parent_table deep p ps e,
              same_memory deep p ps e,
            )
            (forked-IsPaged deep p ps e)

      pub sys_fork-IsPaged : IsPaged l (sys_fork l ebp k).1.memory
      sys_fork-IsPaged = sys_fork-IsPaged_at (rings l.freeq) refl

    module _ (ne : t ≢ k.idle_task) (entered : InUnion t k.esp) where
      own_dir : ((orphaned t k).tasks t).dir ≡ (k.tasks t).dir
      own_dir = ap (λ s. s.dir) ((gone v s ne).1.tasks t)

      given_back :
          Freed
            (l.pagusr_table + 4096 * place l t)
            num_pag_data
            k.memory
            (free_user_pages (k.tasks t).dir k.memory)
      given_back =
          subst (λ pt. Freed pt num_pag_data k.memory (free_user_pages (k.tasks t).dir k.memory))
            (task_table t s.inv.runs.task s.family.running)
            (free_user_pages-Freed (k.tasks t).dir k.memory)

      freed-IsPaged : IsPaged l (freed l t k).memory
      unfolding get_pt
      freed-IsPaged =
          rw (own_dir, (orphaned-Still t k).memory)
            (record {
              isolated = Freed-IsIsolated (place-lt l t s.inv.runs.task) g.isolated given_back;
              leads = λ i lt.
                  ap (λ e. pbase_addr e * 2 ^ 12)
                    (ground (arith, given_back.entries (l.dir_pages + 4096 * i) 0))
                  ∙ g.leads i lt;
            })

      pub sys_exit-IsPaged : IsPaged l (sys_exit l ebp k).memory
      sys_exit-IsPaged =
          rw (sys_exit_at v s ne entered ebp save, (sched_next_rr-Kept l ebp (freed l t k)).memory)
            freed-IsPaged

-- Every interrupt and every system call keeps what the tables promise.
pub Step-IsPaged_at :
    {l : Layout} (v : IsLayout l) {k k' : Kernel} {live : ℕ → Bool} {rings : ℕ → List ℕ} {t : ℕ}
    {e : Event}
    → Safe l live k rings t
    → IsPaged l k.memory
    → owner k ≡ t
    → Step l k e k'
    → IsPaged l k'.memory
Step-IsPaged_at v s g o (move_esp k esp inside) = g
Step-IsPaged_at {l} v s g o (tick k show ebp i r) = rw (clock_service-memory l k show ebp) g
Step-IsPaged_at {l} v s g o (write k fd buffer size buff low mem n k' e) =
    rw (ap (λ k. k.memory) (sys_write-screen fd buffer size buff low mem k n k' e)) g
Step-IsPaged_at {l} v s g o (key k beyond ebp c plain) =
    rw (keyboard_service-Still l k beyond ebp c plain).memory g
Step-IsPaged_at {l} v s g o (block k ebp i r ne) = rw (sys_block-Still l k ebp).memory g
Step-IsPaged_at {l} v s g o (unblock k pid i) = rw (sys_unblock-Still l k pid).memory g
Step-IsPaged_at v s g o (fork k ebp i r d) =
    sys_fork-IsPaged s g v ebp (rw (← o) r) (rw (← o) d) (rw (← o) i)
Step-IsPaged_at v s g o (exit k ebp i r ne) =
    sys_exit-IsPaged s g v ebp (rw (← o) r) (rw (← o) ne) (rw (← o) i)
