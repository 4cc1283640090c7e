-- ===== src/Interrupt.antt =====
-- interrupt.c: the table of gates, the clock, the keyboard and the page fault. The addresses of the
-- assembly handlers, `set_handlers` and `zeos_show_clock` of libzeos.a are arguments.
pub mod Gates
pub mod Clock
pub mod Keyboard
use Prim.Native.Nat.{bit_or}
use Prim.Native.String.{String}
use so.Common.{ℕ, ◌+◌, ◌-◌, ◌*◌, ◌/◌, ◌%◌, ◌^◌, update, ◌==◌, if◌then◌else◌, wadd}
use so.Io.{Screen, printk, literal}
use so.Text.{itoa, itoa_hex}
use so.Kernel.{Layout, Kernel}
use so.Sched.{scheduler}

pub record Gate : Type 0 where
  pub low_offset : ℕ
  pub segment_selector : ℕ
  pub flags : ℕ
  pub high_offset : ℕ

abbrev pub Idt : Type 0
Idt = ℕ → Gate

-- lowWord and highWord of types.h
abbrev pub low_word : ℕ → ℕ
low_word address = address % 2 ^ 16

abbrev high_word : ℕ → ℕ
high_word address = address / 2 ^ 16 % 2 ^ 16

abbrev pub kernel_cs : ℕ
kernel_cs = 0x10

-- (Word)(maxAccessibleFromPL << 13) | 0x8E00
unfoldable pub gate_flags : ℕ → ℕ
gate_flags max_accessible_from_pl = bit_or (max_accessible_from_pl * 2 ^ 13 % 2 ^ 16) 0x8E00

unfoldable pub set_interrupt_handler : ℕ → ℕ → ℕ → Idt → Idt
set_interrupt_handler vector handler max_accessible_from_pl idt = update idt vector (record {
  low_offset = low_word handler;
  segment_selector = kernel_cs;
  flags = gate_flags max_accessible_from_pl;
  high_offset = high_word handler;
})

-- The source makes these interrupt gates too, so that no interrupt comes in a system call.
unfoldable set_trap_handler : ℕ → ℕ → ℕ → Idt → Idt
set_trap_handler vector handler max_accessible_from_pl idt = update idt vector (record {
  low_offset = low_word handler;
  segment_selector = kernel_cs;
  flags = gate_flags max_accessible_from_pl;
  high_offset = high_word handler;
})

-- The addresses of the handlers of entry.S.
pub record Handlers : Type 0 where
  pub keyboard_handler : ℕ
  pub clock_handler : ℕ
  pub segmentation_fault_handler : ℕ
  pub system_call_handler : ℕ

unfoldable pub set_idt : (Idt → Idt) → Handlers → Idt → Idt
unfolding set_interrupt_handler set_trap_handler
set_idt set_handlers h idt = set_trap_handler 0x80 h.system_call_handler 3 (
    set_interrupt_handler 0x0E h.segmentation_fault_handler 0 (
      set_interrupt_handler 32 h.clock_handler 0
        (set_interrupt_handler 33 h.keyboard_handler 0 (set_handlers idt))))

unfoldable pub clock_service : Layout → (Screen → Screen) → ℕ → Kernel → Kernel
clock_service l zeos_show_clock ebp k =
    let k₁ = record k { zeos_ticks = wadd k.zeos_ticks 1 } in
    scheduler l ebp (record k₁ { screen = zeos_show_clock k₁.screen })

abbrev say : String → Screen → Screen
say text = printk 80 (literal text)

abbrev bit : ℕ → ℕ → ℕ
bit err i = err / 2 ^ i % 2

-- What the handler of page faults prints before it stops for good; `fault_addr` is cr2. Its buffer
-- is taken to be long enough: it has eight bytes, one less than an address of eight digits needs.
segmentation_fault_service : ℕ → ℕ → ℕ → Screen → Screen
segmentation_fault_service eip err fault_addr s =
    let s₁ = say "\nProcess generates a " s in
    let s₂ = if bit err 2 == 1 then say "user " s₁ else say "system " s₁ in
    let s₃ =
      if bit err 4 == 1
      then say "instruction fetch " s₂
      else if bit err 1 == 1
      then say "write " s₂
      else say "read " s₂ in
    let s₄ = say ") " (printk 80 (itoa err (λ i. 0)) (say "(" s₃)) in
    let s₅ = printk 80 (itoa_hex eip (λ i. 0)) (say "PAGE FAULT exception\nEIP: 0x" s₄) in
    printk 80 (itoa_hex fault_addr (λ i. 0)) (say "   fault address: 0x" s₅)
