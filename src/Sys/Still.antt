-- ===== src/Sys/Still.antt =====
-- What the system calls leave of memory, the quantum and the PIDs.
use so.Common.{
  Bool-cases, inl, inr, ◌==◌, ℕ, zero, suc, ◌+◌, ◌≤◌, ◌<◌, ◌^◌, ◌≡◌, refl, arith, ap, ◌∙◌, Option,
  none, some,
}
use so.Io.{Screen}
use so.Mm.Paging.{nr_tasks}
use so.Kernel.{current, anchor, childs, Layout, Kernel, place}
use so.ListHead.{Links, list_add_tail, list_for_each}
use so.Sched.{
  get_dir, new_pid, sched_next_rr, inner_task_switch, pick_next, update_process_state_rr,
}
use so.Sched.Kept.{sched_next_rr-Kept, sched_next_rr-quantum}
use so.Sys.{
  sys_block, sys_unblock, unblock_child, find_child, leave_parent, adopt_loop, pid_loop,
  start_child, Forked, copied, no_frame, finish_fork,
}
use so.Sys.Isolated.{left_memory}
use so.Sys.Leave.{orphaned}

-- Looking for a PID changes the last one only.
pub pid_loop-others :
    (f pos : ℕ) (k : Kernel)
    → (pid_loop f pos k).1 ≡ record k { last_pid = (pid_loop f pos k).1.last_pid }
unfolding pid_loop new_pid
pid_loop-others zero pos k = refl
pid_loop-others (suc f) pos k = ground (arith, pid_loop-others f pos (new_pid k).1)

-- While the counter does not wrap, the PID that is found is larger than all before.
pub pid_loop-counter :
    (pos : ℕ) (k : Kernel)
    → k.last_pid + 2 < 2 ^ 32
    → let (pid, k') = pid_loop 1 pos k in
      (k.last_pid < pid) × (pid ≤ k'.last_pid) × (k'.last_pid ≤ k.last_pid + 2)
unfolding pid_loop new_pid
pid_loop-counter pos k small = ground arith

-- Nothing happens to memory, the quantum and the PIDs.
pub record Still (k k' : Kernel) : Type 0 where
  pub memory : k'.memory ≡ k.memory
  pub quantum : k'.quantum_ticks ≡ k.quantum_ticks
  pub last_pid : k'.last_pid ≡ k.last_pid
  pub pids : (u : ℕ) → (k'.tasks u).pid ≡ (k.tasks u).pid

pub Still-refl : (k : Kernel) → Still k k
Still-refl k = record { memory = refl; quantum = refl; last_pid = refl; pids = λ u. refl }

pub Still-trans : {k k' k'' : Kernel} → Still k k' → Still k' k'' → Still k k''
Still-trans a b = record {
  memory = b.memory ∙ a.memory;
  quantum = b.quantum ∙ a.quantum;
  last_pid = b.last_pid ∙ a.last_pid;
  pids = λ u. b.pids u ∙ a.pids u;
}

-- Only links and parents differ.
with_links : (h : Links) (k : Kernel) → Still k (record k { links = h })
with_links h k = record { memory = refl; quantum = refl; last_pid = refl; pids = λ u. refl }

pub screen-Still : (k : Kernel) (screen : Screen) → Still k (record k { screen = screen })
screen-Still k screen = record { memory = refl; quantum = refl; last_pid = refl; pids = λ u. refl }

module _ (l : Layout) (k : Kernel) where
  pub sched_next_rr-Still : (ebp : ℕ) → Still k (sched_next_rr l ebp k)
  unfolding sched_next_rr pick_next inner_task_switch
  sched_next_rr-Still ebp = record {
    memory = (sched_next_rr-Kept l ebp k).memory;
    quantum = sched_next_rr-quantum l ebp k;
    last_pid = unfold update_process_state_rr in ground arith;
    pids = (sched_next_rr-Kept l ebp k).pids;
  }

  pub inner_task_switch-Still : (ebp t : ℕ) → Still k (inner_task_switch ebp t k)
  unfolding inner_task_switch
  inner_task_switch-Still ebp t = record {
    memory = refl;
    quantum = refl;
    last_pid = refl;
    pids = λ u. ground arith;
  }

  unblock_child-Still : (c : ℕ) → Still k (unblock_child l c k)
  unfolding unblock_child
  unblock_child-Still c = record {
    memory = ground arith;
    quantum = ground arith;
    last_pid = ground arith;
    pids = λ u. ground arith;
  }

  sys_unblock-Still_at :
      (pid : ℕ) (o : Option ℕ)
      → find_child pid k.tasks (list_for_each (nr_tasks + 1) (childs (current k)) k.links) ≡ o
      → Still k (sys_unblock l pid k).1
  unfolding sys_unblock
  sys_unblock-Still_at pid none e = rw (e, sys_unblock) (Still-refl k)
  sys_unblock-Still_at pid (some c) e = rw (e, sys_unblock) (unblock_child-Still c)

  pub sys_unblock-Still : (pid : ℕ) → Still k (sys_unblock l pid k).1
  sys_unblock-Still pid = sys_unblock-Still_at pid _ refl

  pub finish_fork-memory :
      (t new_s ebp : ℕ) (o : Forked) → (finish_fork l t new_s ebp k o).1.memory ≡ left_memory o
  unfolding finish_fork start_child
  finish_fork-memory t new_s ebp (no_frame pag m) = refl
  finish_fork-memory t new_s ebp (copied m) =
      ap (λ k. k.memory)
        (pid_loop-others 1 (place l new_s) (record k { memory = m; cr3 = get_dir t k }))

pub sys_block-Still : (l : Layout) (k : Kernel) (ebp : ℕ) → Still k (sys_block l ebp k)
unfolding sys_block
sys_block-Still l k ebp = elim (Bool-cases ((k.tasks (current k)).pending_unblocks == 0)) [
  | inl e ↦
      let h = list_add_tail (anchor (current k)) l.blocked k.links in
      rw e (Still-trans (with_links h k) (sched_next_rr-Still l (record k { links = h }) ebp))
  | inr o ↦
      rw o (record { memory = refl; quantum = refl; last_pid = refl; pids = λ u. ground arith })
]

leave_parent-Still : (t : ℕ) (k : Kernel) → Still k (leave_parent t k)
unfolding leave_parent
leave_parent-Still t k = record {
  memory = ground arith;
  quantum = ground arith;
  last_pid = ground arith;
  pids = λ u. ground arith;
}

adopt_loop-Still : (f head pos n : ℕ) (k : Kernel) → Still k (adopt_loop f head pos n k)
unfolding adopt_loop
adopt_loop-Still zero head pos n k = Still-refl k
adopt_loop-Still (suc f) head pos n k = elim (Bool-cases (pos == head)) [
  | inl e ↦ rw e (Still-refl k)
  | inr o ↦ rw o (
      Still-trans
        (record { memory = refl; quantum = refl; last_pid = refl; pids = λ u. ground arith })
        (adopt_loop-Still f head n _ _))
]

pub orphaned-Still : (t : ℕ) (k : Kernel) → Still k (orphaned t k)
orphaned-Still t k =
    Still-trans (leave_parent-Still t k)
      (adopt_loop-Still (nr_tasks + 1) (childs t) _ _ (leave_parent t k))
