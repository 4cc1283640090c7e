-- ===== src/Kernel.antt =====
-- The state of the kernel: include/sched.h, the globals of sched.c, sys.c, mm.c and interrupt.c,
-- and the processor's esp and cr3. A `struct task_struct *` is its address, the first of its
-- task_union.
pub mod Placement
use so.Common.{ℕ, ◌+◌, ◌-◌, ◌*◌, ◌/◌, ◌%◌}
use so.ListHead.{Links}
use so.Mm.Paging.{Memory}
use so.Io.{Screen}

pub data ProcessState : Type 0 where
  st_run st_ready st_blocked : ProcessState

-- `task_struct` but for its list heads, which are cells of the store of `Links`. Numbers are 32-bit
-- patterns.
pub record Task : Type 0 where
  pub pid : ℕ
  pub kernel_esp : ℕ
  pub state : ProcessState
  pub quantum : ℕ
  pub dir : ℕ
  pub parent : ℕ
  pub pending_unblocks : ℕ

-- The addresses that the linker gives to the globals and to two functions.
pub record Layout : Type 0 where
  pub task : ℕ
  pub readyq : ℕ
  pub freeq : ℕ
  pub blocked : ℕ
  pub dir_pages : ℕ
  pub pagusr_table : ℕ
  pub cpu_idle : ℕ
  pub ret_from_fork : ℕ

pub record Kernel : Type 0 where
  pub links : Links
  pub tasks : ℕ → Task
  pub stack : ℕ → ℕ → ℕ
  pub memory : Memory
  pub screen : Screen
  pub quantum_ticks : ℕ
  pub zeos_ticks : ℕ
  pub last_pid : ℕ
  pub idle_task : ℕ
  pub esp : ℕ
  pub cr3 : ℕ
  pub esp0 : ℕ

abbrev pub kernel_stack_size : ℕ
kernel_stack_size = 1024

-- sizeof(union task_union)
abbrev pub task_size : ℕ
task_size = 4096

-- sizeof(struct task_struct), which stands at the bottom of the union.
abbrev pub task_struct_size : ℕ
task_struct_size = 52

-- &task[i]
abbrev pub task_at : Layout → ℕ → ℕ
task_at l i = l.task + task_size * i

-- The place of a task in the array, and the directory of that place.
abbrev pub place : Layout → ℕ → ℕ
place l t = (t - l.task) / task_size

abbrev pub dir_of : Layout → ℕ → ℕ
dir_of l t = l.dir_pages + 4096 * place l t

-- The offsets of the list heads in a task_struct.
abbrev pub anchor : ℕ → ℕ
anchor t = t + 4

abbrev pub child_anchor : ℕ → ℕ
child_anchor t = t + 32

abbrev pub childs : ℕ → ℕ
childs t = t + 40

-- list_entry(p, struct task_struct, anchor): no list head in a task lies below 4096.
abbrev pub anchor_entry : ℕ → ℕ
anchor_entry p = p - 4

abbrev pub child_anchor_entry : ℕ → ℕ
child_anchor_entry p = p - 32

-- &stack[i] of the task_union at `t`
abbrev pub stack_at : ℕ → ℕ → ℕ
stack_at t i = t + 4 * i

-- INITIAL_ESP: the upper end of the stack of task 1.
abbrev pub initial_esp : Layout → ℕ
initial_esp l = stack_at (task_at l 1) kernel_stack_size

-- esp & 0xfffff000
unfoldable pub current : Kernel → ℕ
current k = k.esp - k.esp % task_size
