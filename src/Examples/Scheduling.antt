-- ===== src/Examples/Scheduling.antt =====
-- The scheduler, the system calls and the interrupts at concrete states.
use so.ListHead.{null}
use so.Common.{◌+◌, ◌≡◌, refl, [], ◌∷◌, arith, update, wneg, ltb, if◌then◌else◌}
use so.Mm.Paging.{Memory, num_pag_data}
use so.Mm.Paging.Entry.{user_rw}
use so.Kernel.{Kernel, anchor}
use so.Sched.{scheduler}
use so.Sched.Invariant.{Inv}
use so.Sched.Tick.{round, scheduler-Inv}
use so.Sys.{fork_data, sys_unblock}
use so.Sys.Fork.{Ends, fork_data-Ends}
use so.Sys.Wait.{unblocked}
use so.Sys.Named.{IsNamed, HasNoPid, sys_unblock_named, sys_unblock_stranger}
use so.Kernel.{childs}
use so.Interrupt.{Gate, Idt, Handlers, set_idt}
use so.Interrupt.Gates.{Leads, set_idt-Leads}
use so.Examples.State.{layout, layout-IsLayout, live, rings, kernel, kernel-Inv, childs_head}

-- The quantum of task 1 runs out, and task 2 runs.
scheduler-Inv_example :
    Inv layout live
      (scheduler layout 0x21E00 kernel)
      (update rings layout.readyq (anchor 0x21000 ∷ []))
      0x22000
unfolding round
scheduler-Inv_example =
    scheduler-Inv layout-IsLayout kernel-Inv (omega arith, omega arith) 0x21E00
      (omega arith, omega arith)

-- Task 3 is the child with the PID 23, task 2 the one with the PID 22.
task_3-IsNamed : IsNamed 23 kernel.tasks (rings (childs 0x21000)) 0x23000
task_3-IsNamed = record { member = refl; same = refl; only = λ p i e. ground arith }

sys_unblock_named_example :
    ((sys_unblock layout 23 kernel).0 ≡ 0)
    × Inv layout live (sys_unblock layout 23 kernel).1 (unblocked layout rings 0x23000) 0x21000
sys_unblock_named_example =
    sys_unblock_named layout-IsLayout kernel-Inv (omega arith, omega arith) childs_head 23 0x23000
      task_3-IsNamed refl

nobody_7 : HasNoPid 7 kernel.tasks (rings (childs 0x21000))
nobody_7 p i e = ground arith

sys_unblock_stranger_example : sys_unblock layout 7 kernel ≡ (wneg 1, kernel)
sys_unblock_stranger_example =
    sys_unblock_stranger layout-IsLayout kernel-Inv (omega arith, omega arith) childs_head 7
      nobody_7

-- The kernel as it is loaded: all links are NULL.
abbrev loaded_kernel : Kernel
loaded_kernel = record kernel {
  links = record { next = λ p. null; prev = λ p. null };
  esp0 = 0x22000;
}

-- The frames below 512 are in use, and every page of the parent stands in frame 400.
abbrev parent_memory : Memory
parent_memory = record {
  frames = λ p. if ltb p 512 then 1 else 0;
  entries = λ t q. user_rw 400;
  pages = λ p o. p + o;
}

fork_data-Ends_example :
    Ends 0x42000 0x41000 parent_memory (fork_data 0x42000 0x41000 num_pag_data 0 parent_memory)
fork_data-Ends_example =
    fork_data-Ends 0x42000 0x41000 (omega arith) parent_memory (λ j h. omega arith)

abbrev handlers : Handlers
handlers = record {
  keyboard_handler = 0x12345678;
  clock_handler = 0x10010;
  segmentation_fault_handler = 0x220;
  system_call_handler = 0x230;
}

abbrev zero_gate : Gate
zero_gate = record { low_offset = 0; segment_selector = 0; flags = 0; high_offset = 0 }

abbrev gates : Idt
gates = set_idt (λ idt. idt) handlers (λ v. zero_gate)

set_idt-Leads_example :
    Leads (gates 0x80) 0x230 3
    × Leads (gates 0x0E) 0x220 0
    × Leads (gates 32) 0x10010 0
    × Leads (gates 33) 0x12345678 0
set_idt-Leads_example =
    set_idt-Leads (λ idt. idt) handlers (λ v. zero_gate) (omega arith) (omega arith) (omega arith)
      (omega arith)
