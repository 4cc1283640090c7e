-- ===== src/Segment.antt =====
-- include/segment.h, include/types.h and the second half of mm.c: segment descriptors, the TSS, and
-- the start of paging.
pub mod Base
use Prim.Native.Nat.{bit_or}
use so.Common.{ℕ, ◌+◌, ◌-◌, ◌*◌, ◌/◌, ◌%◌, ◌^◌, update}
use so.Interrupt.{low_word}
use so.Kernel.{Layout, Kernel, initial_esp, task_at}
use so.Mm.Frames.{init_frames}
use so.Mm.Paging.{init_dir_pages, init_table_pages, num_pag_data}
use so.Sched.{allocate_dir, get_dir}

pub record Descriptor : Type 0 where
  pub limit : ℕ
  pub low_base : ℕ
  pub mid_base : ℕ
  pub flags1 : ℕ
  pub flags2 : ℕ
  pub high_base : ℕ

-- gdtR
pub record Register : Type 0 where
  pub limit : ℕ
  pub base : ℕ

-- The task state segment, without the words that are not used.
pub record Tss : Type 0 where
  pub previous_task_link : ℕ
  pub esp0 : ℕ
  pub ss0 : ℕ
  pub esp1 : ℕ
  pub ss1 : ℕ
  pub esp2 : ℕ
  pub ss2 : ℕ
  pub cr3 : ℕ
  pub eip : ℕ
  pub e_flags : ℕ
  pub eax : ℕ
  pub ecx : ℕ
  pub edx : ℕ
  pub ebx : ℕ
  pub esp : ℕ
  pub ebp : ℕ
  pub esi : ℕ
  pub edi : ℕ
  pub es : ℕ
  pub cs : ℕ
  pub ss : ℕ
  pub ds : ℕ
  pub fs : ℕ
  pub gs : ℕ
  pub ldt_segment_selector : ℕ
  pub debug_trap : ℕ
  pub io_map_base_address : ℕ

abbrev pub kernel_ds : ℕ
kernel_ds = 0x18

abbrev pub user_cs : ℕ
user_cs = 0x23

abbrev pub user_ds : ℕ
user_ds = 0x2B

abbrev pub kernel_tss : ℕ
kernel_tss = 0x30

abbrev pub gdt_start : ℕ
gdt_start = 0x901b3

abbrev pub l_user_start : ℕ
l_user_start = 0x100000

-- L_USER_START+(NUM_PAG_DATA)*0x1000-16
abbrev pub user_esp : ℕ
user_esp = l_user_start + num_pag_data * 0x1000 - 16

abbrev pub initial_eflags : ℕ
initial_eflags = 0x200

-- midByte and highByte of types.h
abbrev pub mid_byte : ℕ → ℕ
mid_byte address = address / 2 ^ 16 % 2 ^ 8

abbrev pub high_byte : ℕ → ℕ
high_byte address = address / 2 ^ (16 + 8) % 2 ^ 8

-- The address is that of `tss`; a Descriptor takes 8 bytes.
unfoldable pub set_gdt : ℕ → (ℕ → Descriptor) → (ℕ → Descriptor) × Register
set_gdt tss gdt = (
  update gdt (kernel_tss / 2 ^ 3) (record (gdt (kernel_tss / 2 ^ 3)) {
    low_base = low_word tss;
    mid_base = mid_byte tss;
    high_base = high_byte tss;
  }),
  record { limit = 256 * 8; base = gdt_start },
)

unfoldable pub set_tss : Layout → Tss
set_tss l = record {
  previous_task_link = 0;
  esp0 = initial_esp l;
  ss0 = kernel_ds;
  esp1 = 0;
  ss1 = 0;
  esp2 = 0;
  ss2 = 0;
  cr3 = 0;
  eip = 0;
  e_flags = initial_eflags;
  eax = 0;
  ecx = 0;
  edx = 0;
  ebx = 0;
  esp = user_esp;
  ebp = user_esp;
  esi = 0;
  edi = 0;
  es = user_ds;
  cs = user_cs;
  ss = user_ds;
  ds = user_ds;
  fs = 0;
  gs = 0;
  ldt_segment_selector = kernel_tss;
  debug_trap = 0;
  io_map_base_address = 0;
}

-- set_pe_flag, on the value of cr0.
unfoldable pub set_pe_flag : ℕ → ℕ
set_pe_flag cr0 = bit_or cr0 0x80000000

-- `init_mm`, but for the flag of cr0.
unfoldable pub init_mm : Layout → Kernel → Kernel
unfolding allocate_dir get_dir
init_mm l k =
    let tables = init_table_pages l.pagusr_table k.memory.entries in
    let k₁ = record k {
      memory = record k.memory {
        frames = init_frames k.memory.frames;
        entries = init_dir_pages l.dir_pages l.pagusr_table tables;
      };
    } in
    let k₂ = allocate_dir l (task_at l 0) k₁ in record k₂ { cr3 = get_dir (task_at l 0) k₂ }
