-- ===== src/Sched/Debug.antt =====
-- The output for debugging in sched.c and utils.c: stacks and queues on the screen. `esp` is what
-- `esp_value`, or the assembly of `print_stack`, reads.
use so.Common.{ℕ, zero, suc, ◌+◌, ◌-◌, ◌*◌, ◌/◌, ltb, leb, ◌==◌, if◌then◌else◌, List, [], ◌∷◌, wsub}
use so.Io.{literal}
use so.ListHead.{list_for_each}
use so.Text.{itoa_hex}
use so.Mm.Paging.{nr_tasks}
use so.Kernel.{
  Layout, Kernel, current, anchor_entry, task_size, stack_at, kernel_stack_size, task_struct_size,
}
use so.Sched.{print, print_int}

abbrev print_hex : ℕ → Kernel → Kernel
print_hex a k = print (itoa_hex a (λ i. 0)) k

unfoldable overflow_breakpoint : Kernel → Kernel
overflow_breakpoint k =
    print (literal "                                      ")
      (print_int (k.tasks (current k)).pid (print (literal "\nstack overflow at PID: ") k))

-- The difference of the two pointers is an int of words.
unfoldable debug_stack : ℕ → Kernel → Kernel
unfolding overflow_breakpoint
debug_stack esp k =
    let base = stack_at (current k) (kernel_stack_size - 1) in
    let overflow_addr = current k + task_struct_size * 5 in
    let k₁ = print_int (k.tasks (current k)).pid (print (literal "\nesp value at PID(") k) in
    let k₂ = print_hex esp (print (literal "): ") k₁) in
    let k₃ = print_int (words base esp) (print (literal "    system stack size: ") k₂) in
    let k₄ = print_hex overflow_addr (print (literal "    overflow_addr: ") k₃) in
    if leb esp overflow_addr then overflow_breakpoint k₄ else k₄
  where
    words : ℕ → ℕ → ℕ
    words base esp = if leb esp base then (base - esp) / 4 else wsub 0 ((esp - base) / 4)

-- One line for the word at `index` of the stack of the union at `t`.
unfoldable print_word : ℕ → ℕ → ℕ → Kernel → Kernel
print_word t index i k =
    let k₁ = print_int i (print (literal "\n") k) in
    let k₂ = print (literal ")") (print_hex (stack_at t index) (print (literal " (") k₁)) in
    print (literal "]") (print_hex (k.stack t index) (print (literal ": [") k₂))

-- while(i > 0 && aux > 0), with `aux` rounds left.
unfoldable print_words : ℕ → ℕ → ℕ → ℕ → Kernel → Kernel
unfolding print_word
print_words zero t index i k = k
print_words (suc aux) t index i k =
    let rest = print_words aux t (index - 1) (i - 1) (print_word t index i k) in
    if i == 0 then k else rest

unfoldable print_stack : ℕ → ℕ → Kernel → Kernel
unfolding print_words
print_stack esp t k =
    let base = stack_at t (kernel_stack_size - 1) in
    let top = if t == current k then esp else (k.tasks t).kernel_esp - 4 in
    if ltb base top then k else print_words 50 t (kernel_stack_size - 1) ((base - top) / 4) k

module _ (l : Layout) where
  -- A line for each entry: its place in the array of tasks, and its PID.
  unfoldable print_entries : List ℕ → Kernel → Kernel
  print_entries [] k = k
  print_entries (pos ∷ rest) k =
      let s = anchor_entry pos in
      let k₁ = print_int ((s - l.task) / task_size) (print (literal "\n") k) in
      print_entries rest (print_int (k.tasks s).pid (print (literal ": PID ") k₁))

  unfoldable print_queue : ℕ → Kernel → Kernel
  unfolding print_entries
  print_queue head k = print_entries (list_for_each (nr_tasks + 1) head k.links) k
