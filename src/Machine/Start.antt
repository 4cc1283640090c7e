-- ===== src/Machine/Start.antt =====
-- The kernel when task 1 has started.
use so.Common.{ℕ, ◌^◌, ◌<◌, ◌≡◌, true, false, arith, ◌∈◌, ◌∉◌, has, ap}
use so.ListHead.{null}
use so.Kernel.{Layout, Kernel, anchor, child_anchor, childs, task_at, initial_esp}
use so.Kernel.Placement.{IsLayout, InUnion}
use so.Sched.{init_sched, init_idle, init_task1}
use so.Sched.Boot.{
  IsZeroed, first_childs, first_rings, booted, booted-Inv, booted-Queued, first_rings-other,
  not-mem-first_rings,
}
use so.Sched.Queues.{is_childs}
use so.Sys.Family.{Family, queue-not-is_childs, child_anchor-IsLoose}
use so.Machine.{Safe}

module _ {l : Layout} (v : IsLayout l) (k : Kernel) (esp : ℕ) (zeroed : IsZeroed k.links)
    (orphans : (u : ℕ) → (k.tasks u).parent ≡ null) where
  first-parent : (u : ℕ) → ((booted v k esp).tasks u).parent ≡ null
  unfolding init_task1 init_idle init_sched
  first-parent u = ground (arith, orphans u)

  first-no_child :
      (u hd : ℕ)
      → is_childs l hd ≡ true
      → first_childs v hd ≡ true
      → child_anchor u ∉ first_rings v hd
  first-no_child u hd field on =
      ground (arith, first_rings-other v hd, queue-not-is_childs v l.freeq)

  first-free : (u : ℕ) → anchor u ∈ first_rings v l.freeq → first_childs v (childs u) ≡ false
  first-free u i = ground (
    arith,
    not-mem-first_rings v 0 l.freeq,
    not-mem-first_rings v 1 l.freeq,
    ap (λ u. has (anchor u) (first_rings v l.freeq)) {x = u} {y = task_at l 0},
    ap (λ u. has (anchor u) (first_rings v l.freeq)) {x = u} {y = task_at l 1},
  )

  first-Family : Family l (first_childs v) (booted v k esp) (first_rings v) (task_at l 1)
  first-Family =
      let q = booted-Queued v k esp zeroed in
      record {
        running = ground arith;
        idle = unfold init_task1 init_idle init_sched in ground arith;
        ready = λ u h i. absurd (ground (arith, first_rings-other v l.readyq, v.ready_ne_free));
        blocked =
            λ u h i. absurd (ground (arith, first_rings-other v l.blocked, v.free_ne_blocked));
        free = λ u h i. first-free u i;
        dead_loose = λ u h d. child_anchor-IsLoose v q u h (first-no_child u);
        dirs = λ u h on. unfold init_task1 init_idle init_sched in (ground arith);
        orphan_loose = λ u h on e. child_anchor-IsLoose v q u h (first-no_child u);
        parent = λ u h on some. absurd (some (first-parent u));
      }

  -- After `init_sched`, `init_idle` and `init_task1`, on links and parents that are all NULL and
  -- quanta that are no negative ints, with the esp0 of setTSS, and once task 1 has entered the
  -- kernel on its own stack, the kernel is safe, with task 1 running.
  pub booted-Safe :
      ((u : ℕ) → (k.tasks u).quantum < 2 ^ 31)
      → k.esp0 ≡ initial_esp l
      → InUnion (task_at l 1) esp
      → Safe l (first_childs v) (booted v k esp) (first_rings v) (task_at l 1)
  booted-Safe small end inside = record {
    inv = booted-Inv v k esp zeroed small end inside;
    family = first-Family;
  }
