-- ===== src/Examples/Calling.antt =====
-- System calls by number at a concrete state.
use so.Common.{◌≤◌, ℕ, ◌+◌, ◌≡◌, refl, Option, some, arith, wneg, ◌%◌}
use so.Kernel.{Kernel, current}
use so.Machine.{After}
use so.Entry.{Registers, Context, system_call_handler}
use so.Entry.Dispatch.{event_at, system_call_handler-After, system_call_handler_unknown}
use so.Entry.Wrappers.{write, Written, write-Written}
use so.Sys.Write.{IsOnStack}
use so.Examples.State.{layout, layout-IsLayout, live, rings, kernel}
use so.Examples.Running.{kernel-Safe}

abbrev context : Context
context = record { ebp = 0x21E00; buff = 0x21D00; low = 0x21C00; mem = λ a. a % 200 + 1 }

abbrev number : ℕ → Registers
number n = record { eax = n; ebx = 3; ecx = 0x100010; edx = 1 }

on_stack : (size : ℕ) → size ≤ 0x200 → IsOnStack size 0x21D00 0x21C00 kernel
unfolding current
on_stack size small = (omega arith, omega arith, omega arith)

-- write, of three bytes.
system_call_handler-After_example :
    (eax : Option ℕ) × (k' : Kernel) × (system_call_handler layout context (number 4) kernel
      ≡ some (eax, k'))
    × After layout live kernel rings 0x21000 (event_at 4) k'
system_call_handler-After_example =
    system_call_handler-After layout-IsLayout kernel-Safe context (number 4)
      (omega arith, omega arith) (omega arith, omega arith) (omega arith) (omega arith)
      (omega arith) (λ e. (on_stack 3 (omega arith), omega arith))

-- Number 7 is one of those that the table leaves out.
system_call_handler_unknown_example :
    system_call_handler layout context (number 7) kernel ≡ some (some (wneg 38), kernel)
system_call_handler_unknown_example =
    system_call_handler_unknown layout context (number 7) kernel refl (omega arith)

-- Two bytes of the first user page.
write-Written_example : Written kernel 0 2 (write layout context 0 1 0x100010 2 kernel)
write-Written_example =
    write-Written layout context 0 1 0x100010 2 kernel (on_stack 2 (omega arith)) (omega arith)
