-- ===== src/Sys.antt =====
-- sys.c: the system calls. Results are 32-bit patterns; `ebp` is what `ebp_value` returns in the
-- function that reads it.
pub mod Copied
pub mod Fork
pub mod Sharing
pub mod Apart
pub mod Reverted
pub mod Isolated
pub mod Still
pub mod Wait
pub mod Named
pub mod Write
pub mod Adopt
pub mod Family
pub mod Leave
pub mod Gone
pub mod Exit
pub mod Child
use so.Common.{
  ℕ, zero, suc, ◌+◌, ◌-◌, ◌*◌, ◌/◌, ◌^◌, ◌&&◌, leb, Bool, true, false, not, ◌||◌, List, [], ◌∷◌,
  Option, none, some, update, ◌==◌, if◌then◌else◌, has, for_range, wneg, wadd, is_neg,
}
use so.ListHead.{
  Links, null, init_list_head, list_add_tail, list_del, list_empty, list_first, list_for_each,
}
use so.Io.{sys_write_console}
use so.Utils.{user_first_page, verify_read, access_ok, copy_from_user}
use so.Mm.Frames.{alloc_frame, free_frame}
use so.Mm.Paging.{
  Memory, set_ss_pag, del_ss_pag, get_frame, get_pt, poke, num_pag_code, num_pag_data, nr_tasks,
  pag_log_init_code, pag_log_init_data, free_data_page, free_user_pages,
}
use so.Kernel.{
  Task, Layout, Kernel, current, task_size, anchor, child_anchor, childs, anchor_entry,
  child_anchor_entry, stack_at, kernel_stack_size, task_struct_size,
}
use so.Sched.{with_task, get_dir, get_task_pt, allocate_dir, put_stack, sched_next_rr, new_pid}

-- EBADF is 9, EACCES 13, EINVAL 22, ENOSYS 38.
unfoldable check_fd : ℕ → ℕ → ℕ
check_fd fd permissions =
    if not (fd == 1) then wneg 9 else if not (permissions == 1) then wneg 13 else 0

unfoldable pub sys_ni_syscall : ℕ
sys_ni_syscall = wneg 38

-- The address behind the user's pages, which no page is mapped to.
abbrev pub user_end : ℕ
user_end = (user_first_page + num_pag_code + num_pag_data) * 2 ^ 12

-- char buff[size]: whether the array at `buff` lies on the unused part of the kernel's stack, and
-- with it what the call uses of the stack, down to `low`.
unfoldable pub fits_stack : (size buff low : ℕ) → Kernel → Bool
fits_stack size buff low k =
    leb (current k + task_struct_size) low && (leb low buff && leb (buff + size) k.esp)

-- `mem` is the memory that the caller sees, in which all of the user's pages are mapped. The result
-- is `none` where the source does not return: the array runs over the task_struct or over the stack
-- that is in use, or the copy reads behind the user's pages and faults.
unfoldable pub sys_write : (fd buffer size buff low : ℕ) → (ℕ → ℕ) → Kernel → Option (ℕ × Kernel)
unfolding check_fd fits_stack
sys_write fd buffer size buff low mem k =
    let valor = check_fd fd 1 in
    if not (fits_stack size buff low k)
    then none
    else if not (valor == 0)
    then some (valor, k)
    else if is_neg size || (size == 0) || (buffer == 0)
    then some (wneg 22, k)
    else if not (access_ok verify_read buffer size)
    then some (wneg 13, k)
    else if not (leb (buffer + size) user_end)
    then none
    else let mem' = (copy_from_user buffer buff size mem).1 in
      let (valor', screen) = sys_write_console (λ i. mem' (buff + i)) size k.screen in
      some (valor', record k { screen = screen })

unfoldable pub sys_gettime : Kernel → ℕ
sys_gettime k = k.zeos_ticks

unfoldable pub sys_getpid : Kernel → ℕ
sys_getpid k = (k.tasks (current k)).pid

-- The node at `q` gets the two words of the node at `p`.
abbrev pub copy_node : ℕ → ℕ → Links → Links
copy_node p q h = record { next = update h.next q (h.next p); prev = update h.prev q (h.prev p) }

-- copy_data(src, dst, 4096) of two task unions: the fields, the list heads among them, the stack.
unfoldable pub copy_union : ℕ → ℕ → Kernel → Kernel
copy_union src dst k = record k {
  tasks = update k.tasks dst (k.tasks src);
  stack = update k.stack dst (k.stack src);
  links = copy_node (childs src) (childs dst) (
      copy_node (child_anchor src) (child_anchor dst)
        (copy_node (anchor src) (anchor dst) k.links));
}

-- copy_data of one page to another, both found through the table.
pub copy_page : ℕ → ℕ → ℕ → Memory → Memory
copy_page pt src dst m = record m {
  pages = update m.pages (get_frame pt dst m.entries) (m.pages (get_frame pt src m.entries));
}

-- 0x3FF000 >> 12
abbrev pub temp_pag : ℕ
temp_pag = 0x3FF

-- The child shares the pages of code.
unfoldable pub share_code : ℕ → ℕ → Memory → Memory
share_code ptn ptc m =
    for_range num_pag_code 0
      (λ pag m. record m {
        entries =
            poke ptn (pag_log_init_code + pag) (λ e. m.entries ptc (pag_log_init_code + pag))
              m.entries;
      })
      m

-- The body of the loop on pages of data, once a frame has been found.
unfoldable pub fork_page : ℕ → ℕ → ℕ → ℕ → Memory → Memory
unfolding copy_page
fork_page ptn ptc pag frame m =
    let m₁ = record m { entries = set_ss_pag ptn (pag_log_init_data + pag) frame m.entries } in
    let m₂ = record m₁ { entries = set_ss_pag ptc temp_pag frame m₁.entries } in
    let m₃ = copy_page ptc (pag_log_init_data + pag) temp_pag m₂ in
    record m₃ { entries = del_ss_pag ptc temp_pag m₃.entries }

-- The number of pages that were copied before no frame was left.
pub data Forked : Type 0 where
  copied : Memory → Forked
  no_frame : ℕ → Memory → Forked

-- The loop with `n` pages left; without a frame the pages that the child has are given back.
unfoldable pub fork_data : ℕ → ℕ → ℕ → ℕ → Memory → Forked
fork_data ptn ptc zero pag m = copied m
fork_data ptn ptc (suc n) pag m =
    let r = alloc_frame m.frames in
    let m' = record m { frames = r.1 } in
    let rest = fork_data ptn ptc n (pag + 1) (fork_page ptn ptc pag r.0 m') in
    if r.0 == wneg 1 then no_frame pag (for_range pag 0 (free_data_page ptn) m') else rest

-- PID=new_pid(); while(PID==pos) PID=new_pid(); the second PID differs from the first.
unfoldable pub pid_loop : ℕ → ℕ → Kernel → ℕ × Kernel
pid_loop zero pos k = new_pid k
pid_loop (suc f) pos k =
    let r = new_pid k in let rest = pid_loop f pos r.1 in if r.0 == pos then rest else r

-- The number of stack words from the frame pointer to the top of the stack.
abbrev pub ebp_words : ℕ → ℕ → ℕ
ebp_words t ebp = (stack_at t (kernel_stack_size - 1) - (ebp - 4)) / 4

-- list_for_each_safe(pos, n, &t->childs): each child is handed to idle.
pub adopt_loop : ℕ → ℕ → ℕ → ℕ → Kernel → Kernel
adopt_loop zero head pos n k = k
adopt_loop (suc f) head pos n k =
    let k₁ = with_task (child_anchor_entry pos) (λ s. record s { parent = k.idle_task }) k in
    let k₂ = record k₁ { links = list_add_tail pos (childs k.idle_task) (list_del pos k₁.links) } in
    let rest = adopt_loop f head n (k₂.links.next n) k₂ in if pos == head then k else rest

pub leave_parent : ℕ → Kernel → Kernel
leave_parent t k =
    if (k.tasks t).parent == null then k else record k { links = list_del (child_anchor t) k.links }

-- The first child with the PID.
unfoldable pub find_child : ℕ → (ℕ → Task) → List ℕ → Option ℕ
find_child pid tasks [] = none
find_child pid tasks (pos ∷ rest) =
    if (tasks (child_anchor_entry pos)).pid == pid
    then some (child_anchor_entry pos)
    else find_child pid tasks rest

module _ (l : Layout) where
  -- What follows the copy of the pages: the child of the task `t` is entered everywhere.
  unfoldable pub start_child : ℕ → ℕ → ℕ → Kernel → ℕ × Kernel
  start_child t new_s ebp k =
      let (pid, k₁) = pid_loop 1 ((new_s - l.task) / task_size) k in
      let diff = ebp_words t ebp in
      let k₂ =
        with_task new_s
          (λ s. record s {
            pid = pid;
            parent = t;
            kernel_esp = stack_at new_s (kernel_stack_size - 1 - diff);
          })
          k₁ in
      let h =
        list_add_tail (child_anchor new_s) (childs t) (init_list_head (childs new_s) k₂.links) in
      let k₃ =
        put_stack new_s (kernel_stack_size - diff - 1) 0
          (put_stack new_s (kernel_stack_size - diff) l.ret_from_fork (record k₂ { links = h })) in
      (pid, record k₃ { links = list_add_tail (anchor new_s) l.readyq k₃.links })

  -- What follows the loop on the pages of data, for the task `t` and its child.
  unfoldable pub finish_fork : ℕ → ℕ → ℕ → Kernel → Forked → ℕ × Kernel
  unfolding start_child get_dir
  finish_fork t new_s ebp k (no_frame pag m) =
      (wneg 1, record k { memory = m; cr3 = if pag == 0 then k.cr3 else get_dir t k })
  finish_fork t new_s ebp k (copied m) =
      start_child t new_s ebp (record k { memory = m; cr3 = get_dir t k })

  -- The child takes the first free union.
  unfoldable pub fork_into : ℕ → ℕ → Kernel → ℕ × Kernel
  unfolding finish_fork
  fork_into new_h ebp k =
      let new_s = anchor_entry new_h in
      let t = current k in
      let k₁ = copy_union t new_s (record k { links = list_del new_h k.links }) in
      let k₂ = allocate_dir l new_s k₁ in
      let ptn = get_task_pt new_s k₂ in
      let ptc = get_task_pt t k₂ in
      finish_fork t new_s ebp k₂ (fork_data ptn ptc num_pag_data 0 (share_code ptn ptc k₂.memory))

  unfoldable pub sys_fork : ℕ → Kernel → ℕ × Kernel
  unfolding fork_into
  sys_fork ebp k =
      if list_empty l.freeq k.links
      then (wneg 1, k)
      else fork_into (list_first l.freeq k.links) ebp k

  -- A task has at most NR_TASKS children.
  unfoldable pub sys_exit : ℕ → Kernel → Kernel
  unfolding leave_parent adopt_loop
  sys_exit ebp k =
      let t = current k in
      let k₁ = leave_parent t k in
      let pos = k₁.links.next (childs t) in
      let k₂ = adopt_loop (nr_tasks + 1) (childs t) pos (k₁.links.next pos) k₁ in
      sched_next_rr l ebp (record k₂ {
        memory = free_user_pages (k₂.tasks t).dir k₂.memory;
        links = list_add_tail (anchor t) l.freeq k₂.links;
      })

  unfoldable pub sys_block : ℕ → Kernel → Kernel
  sys_block ebp k =
      let t = current k in
      let pending = (k.tasks t).pending_unblocks in
      if pending == 0
      then sched_next_rr l ebp (record k { links = list_add_tail (anchor t) l.blocked k.links })
      else with_task t (λ s. record s { pending_unblocks = pending - 1 }) k

  unfoldable pub unblock_child : ℕ → Kernel → Kernel
  unblock_child child k =
      if has (anchor child) (list_for_each (nr_tasks + 1) l.blocked k.links)
      then record k {
        links = list_add_tail (anchor child) l.readyq (list_del (anchor child) k.links);
      }
      else with_task child (λ s. record s { pending_unblocks = wadd s.pending_unblocks 1 }) k

  unfoldable pub sys_unblock : ℕ → Kernel → ℕ × Kernel
  sys_unblock pid k =
      elim (find_child pid k.tasks (list_for_each (nr_tasks + 1) (childs (current k)) k.links)) [
        | none ↦ (wneg 1, k)
        | some child ↦ (0, unblock_child child k)
      ]
