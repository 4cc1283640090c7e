-- ===== src/Sched.antt =====
-- sched.c: the round-robin scheduler, the switch of tasks and the first tasks. The functions that
-- switch tasks take `ebp`, the frame pointer that `ebp_value` returns in `inner_task_switch`.
pub mod Queues
pub mod Invariant
pub mod Switch
pub mod Tick
pub mod Heads
pub mod Kept
pub mod Few
pub mod Boot
pub mod Debug
use so.Common.{
  ℕ, zero, suc, ◌+◌, ◌-◌, ◌*◌, ◌/◌, Bool, true, false, not, ◌&&◌, update, ◌==◌, if◌then◌else◌,
  for_range, is_neg, wsub, wadd,
}
use so.ListHead.{null, init_list_head, list_add_tail, list_del, list_empty, list_first}
use so.Io.{printk, literal}
use so.Text.{itoa}
use so.Mm.Paging.{Memory, get_pt, set_user_pages, nr_tasks}
use so.Kernel.{
  Task, Layout, Kernel, current, task_at, task_size, anchor, childs, anchor_entry, stack_at,
  kernel_stack_size,
}

unfoldable pub get_dir : ℕ → Kernel → ℕ
get_dir t k = (k.tasks t).dir

abbrev pub get_task_pt : ℕ → Kernel → ℕ
get_task_pt t k = get_pt (k.tasks t).dir k.memory.entries

-- Changes one task.
abbrev pub with_task : ℕ → (Task → Task) → Kernel → Kernel
with_task t f k = record k { tasks = update k.tasks t (f (k.tasks t)) }

-- printk of a string whose end is among the first 80 bytes.
abbrev pub print : (ℕ → ℕ) → Kernel → Kernel
print string k = record k { screen = printk 80 string k.screen }

-- char buff[n]; itoa(a, buff); printk(buff); the bytes that `itoa` does not write do not matter.
-- The buffer is taken to be long enough: sched_next_rr has three bytes, and a PID from 100 on runs
-- over them, into registers that its caller has saved.
abbrev pub print_int : ℕ → Kernel → Kernel
print_int a k = print (itoa a (λ i. 0)) k

-- The word `i` of the stack of the union at `t`, which lies above the task_struct.
abbrev pub put_stack : ℕ → ℕ → ℕ → Kernel → Kernel
put_stack t i v k = record k { stack = update k.stack t (update (k.stack t) i v) }

unfoldable pub update_sched_data_rr : Kernel → Kernel
update_sched_data_rr k = record k { quantum_ticks = wsub k.quantum_ticks 1 }

unfoldable pub update_process_state_rr : ℕ → ℕ → Kernel → Kernel
update_process_state_rr t dest k =
    let t_elem = anchor t in
    let h =
      if not ((k.links.next t_elem == null) && (k.links.prev t_elem == null))
      then list_del t_elem k.links
      else k.links in
    record k { links = if dest == null then h else list_add_tail t_elem dest h }

-- The frame pointer and the return address are popped from the stack of the next task.
unfoldable pub inner_task_switch : ℕ → ℕ → Kernel → Kernel
unfolding get_dir
inner_task_switch ebp t k =
    let k₁ = record k { cr3 = get_dir t k; esp0 = stack_at t (kernel_stack_size - 1) } in
    let k₂ = with_task (current k₁) (λ s. record s { kernel_esp = ebp }) k₁ in
    record k₂ { esp = (k₂.tasks t).kernel_esp + 8 }

module _ (l : Layout) where
  unfoldable pub allocate_dir : ℕ → Kernel → Kernel
  allocate_dir t k =
      let pos = (t - l.task) / task_size in
      with_task t (λ s. record s { dir = l.dir_pages + 4096 * pos }) k

  unfoldable pub init_idle : Kernel → Kernel
  unfolding allocate_dir
  init_idle k =
      let t = task_at l 0 in
      let k₁ =
        with_task t
          (λ s. record s { pid = 0; kernel_esp = stack_at t (kernel_stack_size - 2); quantum = 1 })
          (record k { idle_task = t }) in
      let k₂ = allocate_dir t (record k₁ { links = init_list_head (childs t) k₁.links }) in
      put_stack t (kernel_stack_size - 2) (stack_at t (kernel_stack_size - 1))
        (put_stack t (kernel_stack_size - 1) l.cpu_idle k₂)

  unfoldable pub init_task1 : Kernel → Kernel
  unfolding allocate_dir get_dir
  init_task1 k =
      let t = task_at l 1 in
      let k₁ =
        with_task t
          (λ s. record s {
            pid = 1;
            kernel_esp = stack_at t (kernel_stack_size - 2);
            quantum = 100;
          })
          k in
      let k₂ = record k₁ { quantum_ticks = 100; links = init_list_head (childs t) k₁.links } in
      let k₃ = allocate_dir t k₂ in
      let k₄ = record k₃ { memory = set_user_pages (get_dir t k₃) k₃.memory } in
      record k₄ { cr3 = get_dir t k₄ }

  unfoldable pub init_sched : Kernel → Kernel
  init_sched k =
      let h = init_list_head l.blocked (init_list_head l.freeq (init_list_head l.readyq k.links)) in
      record k {
        links = for_range (nr_tasks - 2) 2 (λ i. list_add_tail (anchor (task_at l i)) l.freeq) h;
      }

  -- The result, and the state with the quantum renewed when nobody waits.
  unfoldable pub needs_sched_rr : Kernel → ℕ × Kernel
  needs_sched_rr k =
      let k' =
        if list_empty l.readyq k.links
        then record k { quantum_ticks = (k.tasks (current k)).quantum }
        else k in
      (if is_neg k'.quantum_ticks then 1 else 0, k')

  -- The task that runs next, and the state without it in the ready queue.
  unfoldable pub pick_next : Kernel → ℕ × Kernel
  unfolding update_process_state_rr
  pick_next k =
      let next = anchor_entry (list_first l.readyq k.links) in
      if list_empty l.readyq k.links
      then (k.idle_task, k)
      else (next, update_process_state_rr next null k)

  unfoldable pub sched_next_rr : ℕ → Kernel → Kernel
  sched_next_rr ebp k =
      let (next, k₁) = pick_next k in
      inner_task_switch ebp next (print (literal "\n") (print_int (k₁.tasks next).pid k₁))

  unfoldable pub scheduler : ℕ → Kernel → Kernel
  scheduler ebp k =
      let (needed, k₁) = needs_sched_rr (update_sched_data_rr k) in
      if needed == 0
      then k₁
      else sched_next_rr ebp (
          print (literal "\nscheudled next task PID: ")
            (update_process_state_rr (current k₁) l.readyq k₁))

unfoldable pub new_pid : Kernel → ℕ × Kernel
new_pid k = let p = wadd k.last_pid 1 in (p, record k { last_pid = p })
