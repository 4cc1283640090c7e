-- ===== src/Sched/Boot.antt =====
-- The state that `init_sched`, `init_idle` and `init_task1` of sched.c set up.
use mathlib.Core.Path.{subst}
use so.Common.{
  ℕ, zero, suc, ◌+◌, ◌-◌, ◌^◌, ◌<◌, ◌≤◌, ◌≡◌, refl, ◌≢◌, Bool, true, false, List, [], ◌∷◌, ◌++◌,
  arith, ◌∉◌, update, has-append, inl, inr, ◌∙◌, for_range_inv,
}
use so.ListHead.{Links, null, init_list_head, list_add_tail}
use so.ListHead.Rings.{IsLoose}
use so.Mm.Paging.{nr_tasks}
use so.Kernel.{initial_esp, Layout, Kernel, task_at, anchor, childs}
use so.Kernel.Placement.{IsLayout, InUnion}
use so.Sched.{init_sched, init_idle, init_task1}
use so.Sched.Heads.{also, Queued-init_list_head}
use so.Sched.Queues.{
  is_head, is_field, is_childs, Queued, Queued-list_add_tail, queue-is_sorted, anchor-ne_head,
}
use so.Sched.Invariant.{is_task, Inv, task-is_anchor}

-- At first no list of children has been initialised.
abbrev no_childs : ℕ → Bool
no_childs p = false

-- The lists once `n` tasks, from the third on, have been put into the free queue.
unfoldable pub free_rings : Layout → ℕ → ℕ → List ℕ
free_rings l zero hd = []
free_rings l (suc n) hd =
    update (free_rings l n) l.freeq (free_rings l n l.freeq ++ anchor (task_at l (n + 2)) ∷ []) hd

-- All links are NULL, as the loader leaves them.
abbrev pub IsZeroed : Links → Type 0
IsZeroed h = (p : ℕ) → (h.next p ≡ null) × (h.prev p ≡ null)

abbrev three_heads : Layout → Links → Links
three_heads l h = init_list_head l.blocked (init_list_head l.freeq (init_list_head l.readyq h))

module _ {l : Layout} (v : IsLayout l) where
  three_heads-Queued : (h : Links) → IsZeroed h → Queued l no_childs (three_heads l h) (λ hd. [])
  unfolding init_list_head is_head
  three_heads-Queued h z = record {
    all = record {
      ring = λ hd k. record { chain = (ground arith, ground arith); apart = refl; distinct = tt };
      apart = λ a b i j ne p m. ground arith;
    };
    sorted = λ hd p k i. absurd (ground arith);
    unlinked = λ p a out. ground (
      arith,
      z p,
      out l.readyq (ground arith),
      out l.freeq (ground arith),
      out l.blocked (ground arith),
    );
  }

  pub task_at-is_task : (i : ℕ) → i < nr_tasks → is_task l (task_at l i) ≡ true
  unfolding is_field
  task_at-is_task i lt = ground arith

  freeq-is_head : is_head l no_childs l.freeq ≡ true
  unfolding is_head
  freeq-is_head = ground arith

  not-mem-free_rings : (n i kd : ℕ) → n + 2 ≤ i → anchor (task_at l i) ∉ free_rings l n kd
  unfolding free_rings
  not-mem-free_rings zero i kd lt = refl
  not-mem-free_rings (suc n) i kd lt = ground (
    arith,
    has-append (anchor (task_at l i)) (free_rings l n l.freeq) (anchor (task_at l (n + 2)) ∷ []),
    not-mem-free_rings n i kd,
    not-mem-free_rings n i l.freeq,
  )

  free_rings-IsLoose :
      (n i : ℕ)
      → n + 2 ≤ i
      → i < nr_tasks
      → IsLoose (is_head l no_childs) (free_rings l n) (anchor (task_at l i))
  free_rings-IsLoose n i le lt kd k = ground (
    arith,
    not-mem-free_rings n i kd,
    anchor-ne_head v no_childs (anchor (task_at l i)) kd
        (task-is_anchor v (task_at l i) (task_at-is_task i lt)) k,
  )

  free-Queued :
      (n : ℕ) (h : Links)
      → n + 2 < nr_tasks
      → Queued l no_childs h (free_rings l n)
      → Queued l no_childs
          (list_add_tail (anchor (task_at l (n + 2))) l.freeq h)
          (free_rings l (suc n))
  unfolding free_rings
  free-Queued n h lt q =
      Queued-list_add_tail q l.freeq freeq-is_head (anchor (task_at l (n + 2)))
        (free_rings-IsLoose n (n + 2) (omega arith) lt)
        (queue-is_sorted v l.freeq (anchor (task_at l (n + 2))) (inr (inl refl))
          ∙ task-is_anchor v (task_at l (n + 2)) (task_at-is_task (n + 2) lt))

  free_step :
      (n i : ℕ) (h : Links)
      → n + 2 ≡ i + 1
      → 2 ≤ i
      → i < nr_tasks
      → ((m : ℕ) → m + 2 ≡ i → Queued l no_childs h (free_rings l m))
      → Queued l no_childs (list_add_tail (anchor (task_at l i)) l.freeq h) (free_rings l n)
  free_step zero i h e lo hi keep = absurd (omega arith)
  free_step (suc m) i h e lo hi keep =
      let same : m + 2 ≡ i = omega arith in
      subst
        (λ i.
          Queued l no_childs (list_add_tail (anchor (task_at l i)) l.freeq h)
            (free_rings l (suc m)))
        same (free-Queued m h (omega arith) (keep m same))

  free_start :
      (n : ℕ) (h : Links)
      → n + 2 ≡ 2
      → IsZeroed h
      → Queued l no_childs (three_heads l h) (free_rings l n)
  unfolding free_rings
  free_start zero h e z = three_heads-Queued h z
  free_start (suc n) h e z = absurd (omega arith)

  -- On links that are all NULL, `init_sched` leaves the ready queue and the blocked queue empty and
  -- all tasks but the first two in the free queue, in order.
  pub init_sched-Queued :
      (k : Kernel)
      → IsZeroed k.links
      → Queued l no_childs (init_sched l k).links (free_rings l (nr_tasks - 2))
  unfolding init_sched
  init_sched-Queued k z =
      for_range_inv (λ j h. (n : ℕ) → n + 2 ≡ j → Queued l no_childs h (free_rings l n))
        (λ i. list_add_tail (anchor (task_at l i)) l.freeq) (nr_tasks - 2) 2 nr_tasks
        (three_heads l k.links) (omega arith) (λ i h lo hi keep n e. free_step n i h e lo hi keep)
        (λ n e. free_start n k.links e z) (nr_tasks - 2) refl

  -- The lists of children of idle and of task 1.
  abbrev pub first_childs : ℕ → Bool
  first_childs = also (childs (task_at l 1)) (also (childs (task_at l 0)) no_childs)

  abbrev pub first_rings : ℕ → List ℕ
  first_rings =
      update (update (free_rings l (nr_tasks - 2)) (childs (task_at l 0)) []) (childs (task_at l 1))
        []

  childs-is_childs : (i : ℕ) → i < nr_tasks → is_childs l (childs (task_at l i)) ≡ true
  unfolding is_childs is_field
  childs-is_childs i lt = ground arith

  -- The state in which task 1 enters the kernel for the first time.
  abbrev pub booted : Kernel → ℕ → Kernel
  booted k esp = record (init_task1 l (init_idle l (init_sched l k))) { esp = esp }

  pub booted-Queued :
      (k : Kernel) (esp : ℕ)
      → IsZeroed k.links
      → Queued l first_childs (booted k esp).links first_rings
  unfolding init_task1 init_idle
  booted-Queued k esp z =
      Queued-init_list_head v
        (Queued-init_list_head v (init_sched-Queued k z) (childs (task_at l 0))
          (childs-is_childs 0 (omega arith)) refl)
        (childs (task_at l 1)) (childs-is_childs 1 (omega arith)) (ground arith)

  free_rings-other : (n hd : ℕ) → hd ≢ l.freeq → free_rings l n hd ≡ []
  unfolding free_rings
  free_rings-other zero hd ne = refl
  free_rings-other (suc n) hd ne = ground (arith, free_rings-other n hd)

  not-mem-free_rings_first : (n i hd : ℕ) → i < 2 → anchor (task_at l i) ∉ free_rings l n hd
  unfolding free_rings
  not-mem-free_rings_first zero i hd lt = refl
  not-mem-free_rings_first (suc n) i hd lt = ground (
    arith,
    has-append (anchor (task_at l i)) (free_rings l n l.freeq) (anchor (task_at l (n + 2)) ∷ []),
    not-mem-free_rings_first n i hd,
    not-mem-free_rings_first n i l.freeq,
  )

  pub first_rings-other : (hd : ℕ) → hd ≢ l.freeq → first_rings hd ≡ []
  first_rings-other hd ne = ground (arith, free_rings-other (nr_tasks - 2) hd)

  pub not-mem-first_rings : (i hd : ℕ) → i < 2 → anchor (task_at l i) ∉ first_rings hd
  not-mem-first_rings i hd lt = ground (arith, not-mem-free_rings_first (nr_tasks - 2) i hd)

  -- After `init_sched`, `init_idle` and `init_task1`, on links that are all NULL and quanta that
  -- are no negative ints, with the esp0 of setTSS, and once task 1 has entered the kernel on its
  -- own stack, the invariant of the scheduler holds, with task 1 running.
  pub booted-Inv :
      (k : Kernel) (esp : ℕ)
      → IsZeroed k.links
      → ((u : ℕ) → (k.tasks u).quantum < 2 ^ 31)
      → k.esp0 ≡ initial_esp l
      → InUnion (task_at l 1) esp
      → Inv l first_childs (booted k esp) first_rings (task_at l 1)
  booted-Inv k esp z small end inside = record {
    runs = record {
      queued = booted-Queued k esp z;
      task = task_at-is_task 1 (omega arith);
      running = (omega arith, omega arith);
      entry = unfold init_task1 init_idle init_sched in ground arith;
      ready_parked = λ p i ne. absurd (ground (arith, first_rings-other l.readyq, v.ready_ne_free));
      blocked_parked =
          λ p i ne. absurd (ground (arith, first_rings-other l.blocked, v.free_ne_blocked));
      idle_parked = λ ne. unfold init_task1 init_idle init_sched in ground arith;
      idle = unfold init_task1 init_idle init_sched in task_at-is_task 0 (omega arith);
      idle_waits = λ hd h i.
          absurd
            (unfold init_task1 init_idle init_sched in ground (arith, not-mem-first_rings 0 hd));
      directory = unfold init_task1 init_idle init_sched in ground arith;
      quanta = λ u i. unfold init_task1 init_idle init_sched in ground (arith, small u);
    };
    loose = λ hd h. ground (
      arith,
      not-mem-first_rings 1 hd,
      anchor-ne_head v first_childs (anchor (task_at l 1)) hd
          (task-is_anchor v (task_at l 1) (task_at-is_task 1 (omega arith))) h,
    );
  }
