-- ===== src/Entry.antt =====
-- entry.S and sys_call_table.S: how a system call reaches its handler, and what comes back.
pub mod Dispatch
pub mod Wrappers
use so.Common.{
  ℕ, Bool, ◌||◌, List, [], ◌∷◌, Option, none, some, wneg, is_neg, ltb, if◌then◌else◌, length,
  get_elem?,
}
use so.Kernel.{Layout, Kernel}
use so.Sys.{
  sys_ni_syscall, sys_write, sys_gettime, sys_getpid, sys_fork, sys_exit, sys_block, sys_unblock,
}

-- The registers that a system call reads.
pub record Registers : Type 0 where
  pub eax : ℕ
  pub ebx : ℕ
  pub ecx : ℕ
  pub edx : ℕ

-- The frame pointer in the handler; the address of the array of `sys_write`, how far down its call
-- uses the stack, and the memory that its caller sees.
pub record Context : Type 0 where
  pub ebp : ℕ
  pub buff : ℕ
  pub low : ℕ
  pub mem : ℕ → ℕ

-- What an entry of the table points to.
pub data Service : Type 0 where
  calls_ni calls_exit calls_fork calls_write calls_block calls_unblock calls_gettime : Service
  calls_getpid : Service

abbrev pub sys_call_table : List Service
sys_call_table =
    calls_ni ∷ calls_exit ∷ calls_fork ∷ calls_ni ∷ calls_write ∷ calls_block ∷ calls_unblock
    ∷ calls_ni ∷ calls_ni ∷ calls_ni ∷ calls_gettime ∷ calls_ni ∷ calls_ni ∷ calls_ni ∷ calls_ni
    ∷ calls_ni ∷ calls_ni ∷ calls_ni ∷ calls_ni ∷ calls_ni ∷ calls_getpid ∷ []

-- MAX_SYSCALL = (. - sys_call_table)/4
abbrev pub max_syscall : ℕ
max_syscall = length sys_call_table

-- The value of a handler in eax, where it returns.
abbrev pub value_of : Option (ℕ × Kernel) → Option (Option ℕ × Kernel)
value_of none = none
value_of (some (n, k)) = some (some n, k)

-- The call of a service, for which SAVE_ALL has pushed ebx, ecx and edx: the first argument is edx,
-- the second ecx, the third ebx. `sys_exit` and `sys_block` give no value to eax. `none` stands for
-- a call that never ends, or overwrites the kernel's own data: a `sys_write` whose copy faults or
-- whose array does not fit.
unfoldable pub serve : Layout → Context → Registers → Service → Kernel → Option (Option ℕ × Kernel)
serve l c r calls_ni k = some (some sys_ni_syscall, k)
serve l c r calls_exit k = some (none, sys_exit l c.ebp k)
serve l c r calls_fork k = let (pid, k') = sys_fork l c.ebp k in some (some pid, k')
serve l c r calls_write k = value_of (sys_write r.edx r.ecx r.ebx c.buff c.low c.mem k)
serve l c r calls_block k = some (none, sys_block l c.ebp k)
serve l c r calls_unblock k = let (v, k') = sys_unblock l r.edx k in some (some v, k')
serve l c r calls_gettime k = some (some (sys_gettime k), k)
serve l c r calls_getpid k = some (some (sys_getpid k), k)

-- The eax that is left, and the kernel; after `sys_exit` and `sys_block` it may be another task
-- that goes on. The number MAX_SYSCALL passes the test, and the call goes through the word behind
-- the table: `none`.
unfoldable pub system_call_handler :
    Layout → Context → Registers → Kernel → Option (Option ℕ × Kernel)
system_call_handler l c r k =
    if is_neg r.eax || ltb max_syscall r.eax
    then some (some (wneg 38), k)
    else elim (get_elem? sys_call_table r.eax) [ none ↦ none | some s ↦ serve l c r s k ]
