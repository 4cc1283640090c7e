-- ===== src/Sched/Kept.antt =====
-- What choosing and switching tasks leaves alone.
use so.Common.{ℕ, ◌≡◌, refl, arith}
use so.Kernel.{Layout, Kernel}
use so.Sched.{
  scheduler, sched_next_rr, pick_next, inner_task_switch, update_process_state_rr, needs_sched_rr,
  update_sched_data_rr,
}

-- The parents, directories and PIDs of the tasks, the last PID, which task is idle, and memory.
pub record Kept (k k' : Kernel) : Type 0 where
  pub parents : (u : ℕ) → (k'.tasks u).parent ≡ (k.tasks u).parent
  pub dirs : (u : ℕ) → (k'.tasks u).dir ≡ (k.tasks u).dir
  pub pids : (u : ℕ) → (k'.tasks u).pid ≡ (k.tasks u).pid
  pub last_pid : k'.last_pid ≡ k.last_pid
  pub idle : k'.idle_task ≡ k.idle_task
  pub memory : k'.memory ≡ k.memory

pub inner_task_switch-Kept : (ebp t : ℕ) (k : Kernel) → Kept k (inner_task_switch ebp t k)
unfolding inner_task_switch
inner_task_switch-Kept ebp t k = record {
  parents = λ u. ground arith;
  dirs = λ u. ground arith;
  pids = λ u. ground arith;
  last_pid = refl;
  idle = refl;
  memory = refl;
}

pub update_process_state_rr-Kept :
    (t dest : ℕ) (k : Kernel) → Kept k (update_process_state_rr t dest k)
unfolding update_process_state_rr
update_process_state_rr-Kept t dest k = record {
  parents = λ u. refl;
  dirs = λ u. refl;
  pids = λ u. refl;
  last_pid = refl;
  idle = refl;
  memory = refl;
}

module _ (l : Layout) (ebp : ℕ) (k : Kernel) where
  pub sched_next_rr-Kept : Kept k (sched_next_rr l ebp k)
  unfolding sched_next_rr pick_next inner_task_switch
  sched_next_rr-Kept = record {
    parents = λ u. unfold update_process_state_rr in ground arith;
    dirs = λ u. unfold update_process_state_rr in ground arith;
    pids = λ u. unfold update_process_state_rr in ground arith;
    last_pid = unfold update_process_state_rr in ground arith;
    idle = unfold update_process_state_rr in ground arith;
    memory = unfold update_process_state_rr in ground arith;
  }

pub scheduler-Kept : (l : Layout) (ebp : ℕ) (k : Kernel) → Kept k (scheduler l ebp k)
unfolding scheduler sched_next_rr pick_next inner_task_switch needs_sched_rr update_sched_data_rr
scheduler-Kept l ebp k = record {
  parents = λ u. unfold update_process_state_rr in ground arith;
  dirs = λ u. unfold update_process_state_rr in ground arith;
  pids = λ u. unfold update_process_state_rr in ground arith;
  last_pid = unfold update_process_state_rr in ground arith;
  idle = unfold update_process_state_rr in ground arith;
  memory = unfold update_process_state_rr in ground arith;
}

pub update_process_state_rr-quantum :
    (t dest : ℕ) (k : Kernel) → (update_process_state_rr t dest k).quantum_ticks ≡ k.quantum_ticks
unfolding update_process_state_rr
update_process_state_rr-quantum t dest k = refl

-- Only a tick changes the quantum.
pub sched_next_rr-quantum :
    (l : Layout) (ebp : ℕ) (k : Kernel) → (sched_next_rr l ebp k).quantum_ticks ≡ k.quantum_ticks
unfolding sched_next_rr pick_next inner_task_switch
sched_next_rr-quantum l ebp k = unfold update_process_state_rr in ground arith
