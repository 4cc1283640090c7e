-- ===== src/Examples/Running.antt =====
-- The whole kernel at concrete states.
use so.Common.{
  ◌+◌, ◌∉◌, for_range, ℕ, ◌≡◌, ◌≢◌, ◌<◌, refl, Bool, true, List, [], ◌∷◌, arith, ◌==◌, Bool-cases,
  inl, inr,
}
use so.ListHead.{list_for_each, list_empty, list_first, list_add_tail, list_del}
use so.Mm.Paging.{nr_tasks}
use so.Kernel.{task_at, current, anchor, anchor_entry, childs}
use so.Mm.Frames.{alloc_frame, alloc_loop}
use so.Sched.{
  new_pid, allocate_dir, sched_next_rr, inner_task_switch, pick_next, update_process_state_rr,
}
use so.Interrupt.Keyboard.{keyboard_service, map_char}
use so.Sys.{
  sys_fork, fork_into, finish_fork, start_child, pid_loop, fork_data, fork_page, share_code,
  copy_union, sys_exit, sys_block, adopt_loop,
}
use so.Sys.Adopt.{Adopted, adopt_loop-Adopted}
use so.Machine.Exit.{sys_exit-After}
use so.Machine.Fair.{step, done, switches, runs_in, ready-runs_in}
use so.Machine.ForkedChild.{Started, sys_fork-Started}
use so.Machine.Keys.{keyboard_service-After, keyboard_service-lost}
use so.Machine.Steps.{Step, block, start, next, Step-After, Reach-Safe}
use so.Machine.{Safe, After, on_exit, on_other, on_block, owner}
use so.Examples.State.{layout, layout-IsLayout, live, rings, kernel, kernel-Inv, links-Queued}
use so.Sched.Queues.{is_head, is_field, is_childs}
use so.Sys.Family.{child_anchor-IsLoose}

-- Tasks 0, 1, 2 and 3 are in use, 2 and 3 are the children of 1.
pub kernel-Safe : Safe layout live kernel rings 0x21000
kernel-Safe = record {
  inv = kernel-Inv;
  family = record {
    running = refl;
    idle = refl;
    ready = λ u h i. ground arith;
    blocked = λ u h i. ground arith;
    free = λ u h i. ground arith;
    dirs = λ u h on. ground arith;
    dead_loose =
        λ u h d. child_anchor-IsLoose layout-IsLayout links-Queued u h λ hd c on. ground arith;
    orphan_loose =
        λ u h on e. child_anchor-IsLoose layout-IsLayout links-Queued u h λ hd c on'. ground arith;
    parent = λ u h on some. elim (Bool-cases (u == 0x22000)) [
      | inl second ↦
          let e : u ≡ 0x22000 = ground arith in rw e (unfold is_field in refl, refl, refl)
      | inr other ↦ elim (Bool-cases (u == 0x23000)) [
        | inl third ↦
            let e : u ≡ 0x23000 = ground arith in rw e (unfold is_field in refl, refl, refl)
        | inr none_of ↦ absurd (some (ground arith))
      ]
    ];
  };
}

sys_exit-After_example :
    After layout live kernel rings 0x21000 on_exit (sys_exit layout 0x21E00 kernel)
sys_exit-After_example =
    sys_exit-After layout-IsLayout kernel-Safe (omega arith) (omega arith, omega arith) 0x21E00
      (omega arith, omega arith)

-- The key a is pressed and released.
keyboard_service-After_example :
    After layout live kernel rings 0x21000 on_other
      (keyboard_service layout (λ i. 0) 0x21E00 0x9E kernel)
keyboard_service-After_example =
    keyboard_service-After layout-IsLayout kernel-Safe (λ i. 0) 0x21E00 0x9E
      (unfold map_char in (omega arith, omega arith, omega arith))

-- The key d.
keyboard_service-lost_example :
    let k' = keyboard_service layout (λ i. 0) 0x21E00 0xA0 kernel in
    (owner k' ≡ task_at layout 0)
    × (owner k' ≢ 0x21000)
    × (anchor 0x21000 ∉ list_for_each (nr_tasks + 1) layout.readyq k'.links)
    × (anchor 0x21000 ∉ list_for_each (nr_tasks + 1) layout.blocked k'.links)
    × (anchor 0x21000 ∉ list_for_each (nr_tasks + 1) layout.freeq k'.links)
keyboard_service-lost_example =
    keyboard_service-lost layout-IsLayout kernel-Safe (λ i. 0) 0x21E00 0xA0 (omega arith)
      (omega arith) (unfold map_char in refl) (omega arith)

blocks : Step layout kernel on_block (sys_block layout 0x21E00 kernel)
blocks =
    block kernel 0x21E00 (unfold owner in (omega arith, omega arith))
      (unfold owner in (omega arith, omega arith)) (unfold owner in omega arith)

Step-After_example :
    After layout live kernel rings 0x21000 on_block (sys_block layout 0x21E00 kernel)
Step-After_example = Step-After layout-IsLayout kernel-Safe blocks

Reach-Safe_example :
    (live' : ℕ → Bool) × (rings' : ℕ → List ℕ) × Safe layout live'
      (sys_block layout 0x21E00 kernel)
      rings'
      (owner (sys_block layout 0x21E00 kernel))
Reach-Safe_example =
    Reach-Safe layout-IsLayout kernel-Safe
      (next kernel on_block (sys_block layout 0x21E00 kernel) start blocks)

next_owner : owner (sys_block layout 0x21E00 kernel) ≡ 0x22000
unfolding owner sys_block sched_next_rr inner_task_switch pick_next update_process_state_rr
    list_empty list_first list_add_tail current is_head
next_owner = refl

one_switch : 0 < switches 0x21000 (sys_block layout 0x21E00 kernel ∷ [])
unfolding switches
one_switch = ground (arith, next_owner)

-- Task 1 blocks, and task 2, the first in the ready queue, runs.
ready-runs_in_example : runs_in 0x22000 (sys_block layout 0x21E00 kernel ∷ []) ≡ true
ready-runs_in_example =
    ready-runs_in layout-IsLayout 0x22000 (sys_block layout 0x21E00 kernel ∷ []) [] [] kernel-Safe
      refl
      (step kernel on_block (sys_block layout 0x21E00 kernel) [] blocks
        (done (sys_block layout 0x21E00 kernel)))
      one_switch

-- Task 1 hands its children to idle.
adopt_loop-Adopted_example :
    (rings' : ℕ → List ℕ) × Adopted layout live
      (childs 0x21000)
      (childs 0x20000)
      (rings (childs 0x21000))
      kernel
      rings
      (adopt_loop 11
        (childs 0x21000)
        (kernel.links.next (childs 0x21000))
        (kernel.links.next (kernel.links.next (childs 0x21000)))
        kernel)
      rings'
adopt_loop-Adopted_example =
    adopt_loop-Adopted layout-IsLayout {live = live} (childs 0x21000)
      (unfold is_childs is_field in refl) (unfold is_head is_field in refl) 11 kernel rings
      links-Queued
      (record {
        field = unfold is_childs is_field in refl;
        head = unfold is_head is_field in refl;
        other = omega arith;
      })
      (omega arith)

fork_result : (sys_fork layout 0x21E00 kernel).0 ≡ 24
unfolding sys_fork fork_into finish_fork start_child pid_loop fork_data new_pid current copy_union
    allocate_dir alloc_frame alloc_loop share_code fork_page for_range list_empty list_first
    list_add_tail list_del is_head
fork_result = refl

sys_fork-Started_example :
    (p : ℕ) × (ps : List ℕ) × (anchor 0x24000 ∷ [] ≡ p ∷ ps)
    × Started layout 0x21000
        (anchor_entry p)
        0x21E00
        (sys_fork layout 0x21E00 kernel).0
        kernel
        (sys_fork layout 0x21E00 kernel).1
sys_fork-Started_example =
    sys_fork-Started layout-IsLayout kernel-Safe 0x21E00 (omega arith, omega arith) (omega arith)
      (omega arith, omega arith) (λ e. absurd (omega (arith, fork_result, e)))
