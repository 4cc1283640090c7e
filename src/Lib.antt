-- ===== src/Lib.antt =====
-- ZeOS, a teaching kernel for one 32-bit x86 processor, in C: processes with a round-robin
-- scheduler, paging, system calls and a text screen.
--
-- The parts and the files that model them:
--   list.c, include/list.h         ListHead.antt: the circular lists, in a store of links by address
--   io.c, devices.c                Io.antt: the screen and the console
--   libc.c, itoa_hex of utils.c    Text.antt: numbers and strings
--   utils.c                        Utils.antt: copies and the check of user pointers;
--                                  Utils/Ticks.antt: get_ticks and its division
--   mm.c                           Mm/Frames.antt: the map of frames; Mm/Paging.antt: the page tables
--   include/sched.h, the globals   Kernel.antt: the state of the kernel
--   sched.c                        Sched.antt: scheduler, task switch and the first tasks
--   sched.c, utils.c               Sched/Debug.antt: the output for debugging
--   sys.c                          Sys.antt: the system calls
--   interrupt.c                    Interrupt.antt: gates, clock, keyboard and page fault
--   mm.c, include/segment.h        Segment.antt: segment descriptors, the TSS, the start of paging
--   system.c                       System.antt: the start of the kernel
--   entry.S, sys_call_table.S      Entry.antt: how a system call reaches its handler;
--   wrappers.S                     Entry/Wrappers.antt: write and unblock of the user's library
--   build.c                        Build.antt: the tool that puts the image together
-- Machine.antt puts the kernel together: what its queues promise (`Queues`, `Move`), when the
-- whole kernel is safe (`Safe`), and, in Machine/Steps.antt, which interrupts and calls follow one
-- another. Mm/Isolation.antt says when the tables of pages keep the memory of tasks apart
-- (`IsIsolated`), and its children that the writers of the tables keep it so: Sys/Isolated.antt
-- for sys_fork, with Sys/Sharing.antt, Sys/Apart.antt and Sys/Reverted.antt for its loops, and
-- Machine/Paged.antt and Machine/Private.antt for every step. Machine/Pids.antt follows the PIDs,
-- Machine/Quantum.antt the quantum, and System/Private.antt and System/Pids.antt start from what
-- `main` leaves. Sys/Copied.antt and Sys/Still.antt hold what the loop of sys_fork on pages does
-- and what the other system calls leave alone. Common.antt and its children hold what the parts
-- share: tests, lists, stores, 32-bit words and the loop `for_range`. Examples.antt and its
-- children hold runs at concrete states.
--
-- The kernel is one record, `Kernel`: the store of links, the tasks and their stacks, memory,
-- screen, counters, and the registers esp, cr3 and the esp0 of the TSS. A pointer is its address,
-- a number a 32-bit pattern, and `Layout` holds the addresses that the linker chooses, with
-- `IsLayout` for what the linker script makes true of them, as that the tables of pages and the
-- directories, in whatever order, do not overlap. Functions keep the names of the source in
-- snake_case (get_DIR is `get_dir`, INIT_LIST_HEAD is `init_list_head`, setIdt is `set_idt`). A
-- handler that changes state returns the new state. The C word of a task_union that the stack and
-- the task_struct share is modelled twice: the stack words do not reach down to the task_struct.
--
-- A task's list heads stand at the offsets 4 (anchor), 32 (child_anchor) and 40 (childs) of its
-- task_union. The lists of the kernel are read through `Queued`: for each head the list of
-- entries, no two lists sharing a node. `Inv` adds the running task, which the stack pointer
-- stands in, and that the saved stack pointer of every waiting task stands in its union. What the
-- words there say is no part of it.
--
-- `Family` adds parents and children: a task is in use from the call that initialises its list of
-- children to its `sys_exit`, and stands in the list of its parent exactly if it has one. The
-- kernel is `Safe` when `Inv` and `Family` hold. Between two steps esp may move in the union of
-- the running task, the one that the esp0 of the TSS names. Idle, which never leaves the kernel,
-- neither blocks nor ends. The keyboard handler is modelled up to the point where the running task
-- loses the processor; its keys that switch tasks, the release of d, n and c, are no step.
--
-- `sys_write` has no result where the source does not return: when its array, for which `buff` is
-- where the compiler puts it and `low` how far down the call uses the stack, runs over the
-- task_struct or the stack in use, or when the copy reads behind the user's pages, which faults
-- for good. A step that writes is one that returns. What is said of all steps so leaves out such
-- writes, the release of d, n and c, page faults, after which the kernel stops, and the call of
-- number 21, which goes through the word behind the table. The other buffers, those of the numbers
-- that are printed, are taken to be long enough.
--
-- The user's accesses are read off the entries of the tables: a page can be read when its entry is
-- present and of the user, and written when it is also writable. The code pages of a task may be
-- read by the tasks that descend from it, so isolation is that no frame that one task can write
-- can be read by another.
--
-- Fuel: `list_for_each` has NR_TASKS + 1 rounds, one for each possible entry and one for the head;
-- `alloc_frame` has 385, its counter taking 384 values; `copy_data` one for each byte; `itoa` 32,
-- an int having at most 31 binary digits; `printk` of the kernel's own strings 80 bytes, more than
-- the longest; the loop on new PIDs 1, since the second PID differs from the first; `strlen` of
-- what `perror` writes 33; the loop of `sys_exit` on the children NR_TASKS + 1; the loop of
-- build.c on a file one for each byte.
--
-- Arguments of the model: the frame pointer that `ebp_value` returns, the addresses of the
-- handlers in entry.S, the byte that `inb` reads, the esp that `esp_value` reads, the two words of
-- `rdtsc`, the errno and the `write` of `perror`, the address of the array of `sys_write` and the
-- memory that its caller sees, `set_handlers` and `zeos_show_clock` of libzeos.a, for any function
-- in their place, and the system calls of build.c, with what it relies on in them as `Behaves`.
--
-- Not modelled: the rest of the assembly (hardware.c, bootsect.S, the saving of registers and the
-- other entry points of entry.S, the other wrappers of wrappers.S), the number of arguments and
-- the messages of build.c, and the user program.
pub mod Common
pub mod ListHead
pub mod Io
pub mod Text
pub mod Utils
pub mod Mm
pub mod Kernel
pub mod Sched
pub mod Sys
pub mod Interrupt
pub mod Machine
pub mod Entry
pub mod Segment
pub mod System
pub mod Build
pub mod Examples
