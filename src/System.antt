-- ===== src/System.antt =====
-- system.c: the start of the kernel.
pub mod Started
pub mod Loaded
pub mod Private
pub mod Pids
use so.Common.{ℕ, ◌+◌, ◌-◌, ◌*◌, ◌^◌}
use so.Kernel.{Layout, Kernel, task_at}
use so.Interrupt.{Idt, Handlers, set_idt}
use so.Io.{literal}
use so.Mm.Paging.{pag_log_init_code}
use so.Sched.{print, init_sched, init_idle, init_task1}
use so.Segment.{
  Descriptor, Register, Tss, set_gdt, set_tss, set_pe_flag, init_mm, kernel_ds, user_ds, user_cs,
  user_esp, l_user_start,
}
use so.Utils.{copy_data}

-- The kernel and the tables of the processor.
pub record System : Type 0 where
  pub kernel : Kernel
  pub gdt : ℕ → Descriptor
  pub gdt_r : Register
  pub idt : Idt
  pub tss : Tss
  pub cr0 : ℕ

-- The arguments of `return_gate`.
pub record UserStart : Type 0 where
  pub ds : ℕ
  pub ss : ℕ
  pub esp : ℕ
  pub cs : ℕ
  pub eip : ℕ

abbrev pub kernel_start : ℕ
kernel_start = 0x10000

-- A 32-bit word of memory.
abbrev pub dword : (ℕ → ℕ) → ℕ → ℕ
dword mem a = mem a + mem (a + 1) * 2 ^ 8 + mem (a + 2) * 2 ^ 16 + mem (a + 3) * 2 ^ 24

-- *p_sys_size and *p_usr_size
abbrev pub sys_size : (ℕ → ℕ) → ℕ
sys_size mem = dword mem kernel_start

abbrev pub usr_size : (ℕ → ℕ) → ℕ
usr_size mem = dword mem (kernel_start + 4)

-- usr_main
abbrev pub usr_main : ℕ
usr_main = pag_log_init_code * 0x1000

-- The kernel from the first message on, once the tables of the processor are set.
unfoldable pub start_kernel : Layout → Tss → Kernel → Kernel
start_kernel l tss k =
    init_task1 l (init_idle l (init_sched l (init_mm l (record k { esp0 = tss.esp0 }))))

-- The copy of the user's code and data, in the memory that task 1 sees.
unfoldable pub copy_user : (ℕ → ℕ) → ℕ → ℕ
copy_user mem = copy_data (kernel_start + sys_size mem) l_user_start (usr_size mem) mem

-- `main`, up to the return into user mode. `tss` is the address of the TSS; `mem` is the memory
-- that task 1 sees when the user's program is copied, whatever the rest of `main` has written into
-- it by then.
unfoldable pub main :
    Layout → (tss : ℕ) → (Idt → Idt) → Handlers → (ℕ → ℕ) → System → (System × (ℕ → ℕ)) × UserStart
unfolding start_kernel copy_user
main l tss set_handlers handlers mem s =
    let k₁ = print (literal "Kernel Loaded!    ") (record s.kernel { esp = task_at l 4 - 5 * 4 }) in
    let (gdt, gdt_r) = set_gdt tss s.gdt in
    let new_tss = set_tss l in
    let k₂ = start_kernel l new_tss k₁ in
    (
      (
        record {
          kernel = print (literal "Entering user mode...") k₂;
          gdt = gdt;
          gdt_r = gdt_r;
          idt = set_idt set_handlers handlers s.idt;
          tss = new_tss;
          cr0 = set_pe_flag s.cr0;
        },
        copy_user mem,
      ),
      record { ds = user_ds; ss = user_ds; esp = user_esp; cs = user_cs; eip = usr_main },
    )
