-- ===== src/Interrupt/Gates.antt =====
-- What stands in the gates.
use so.Common.{ℕ, zero, suc, ◌+◌, ◌*◌, ◌/◌, ◌%◌, ◌^◌, ◌<◌, ◌≡◌, arith}
use so.Interrupt.{Gate, Idt, Handlers, gate_flags, kernel_cs, set_idt, set_interrupt_handler}

-- The address that the processor calls, and the least privileged level that may use the gate.
pub offset : Gate → ℕ
offset g = g.high_offset * 2 ^ 16 + g.low_offset

pub dpl : Gate → ℕ
dpl g = g.flags / 2 ^ 13 % 4

-- A present 32-bit interrupt gate of the kernel's code segment.
pub record Leads (g : Gate) (handler pl : ℕ) : Type 0 where
  pub to : offset g ≡ handler
  pub level : dpl g ≡ pl
  pub present : g.flags / 2 ^ 15 ≡ 1
  pub kind : g.flags / 2 ^ 8 % 32 ≡ 14
  pub segment : g.segment_selector ≡ kernel_cs

set_interrupt_handler-Leads :
    (vector handler pl : ℕ) (idt : Idt)
    → handler < 2 ^ 32
    → pl < 4
    → Leads (set_interrupt_handler vector handler pl idt vector) handler pl
unfolding set_interrupt_handler gate_flags offset dpl
set_interrupt_handler-Leads vector handler zero idt h lt = record {
  to = ground arith;
  level = ground arith;
  present = ground arith;
  kind = ground arith;
  segment = ground arith;
}
set_interrupt_handler-Leads vector handler (suc zero) idt h lt = record {
  to = ground arith;
  level = ground arith;
  present = ground arith;
  kind = ground arith;
  segment = ground arith;
}
set_interrupt_handler-Leads vector handler (suc (suc zero)) idt h lt = record {
  to = ground arith;
  level = ground arith;
  present = ground arith;
  kind = ground arith;
  segment = ground arith;
}
set_interrupt_handler-Leads vector handler (suc (suc (suc zero))) idt h lt = record {
  to = ground arith;
  level = ground arith;
  present = ground arith;
  kind = ground arith;
  segment = ground arith;
}
set_interrupt_handler-Leads vector handler (suc (suc (suc (suc n)))) idt h lt = absurd (omega arith)

-- After `set_idt` the system call gate is open to the user and the other three gates are the
-- kernel's own; each leads to its handler, provided that the handlers' addresses have 32 bits.
pub set_idt-Leads :
    (set_handlers : Idt → Idt) (h : Handlers) (idt : Idt)
    → h.keyboard_handler < 2 ^ 32
    → h.clock_handler < 2 ^ 32
    → h.segmentation_fault_handler < 2 ^ 32
    → h.system_call_handler < 2 ^ 32
    → Leads (set_idt set_handlers h idt 0x80) h.system_call_handler 3
      × Leads (set_idt set_handlers h idt 0x0E) h.segmentation_fault_handler 0
      × Leads (set_idt set_handlers h idt 32) h.clock_handler 0
      × Leads (set_idt set_handlers h idt 33) h.keyboard_handler 0
unfolding set_idt
set_idt-Leads set_handlers h idt a b c d = (
  set_interrupt_handler-Leads 0x80 h.system_call_handler 3 idt d (omega arith),
  set_interrupt_handler-Leads 0x0E h.segmentation_fault_handler 0 idt c (omega arith),
  set_interrupt_handler-Leads 32 h.clock_handler 0 idt b (omega arith),
  set_interrupt_handler-Leads 33 h.keyboard_handler 0 idt a (omega arith),
)
