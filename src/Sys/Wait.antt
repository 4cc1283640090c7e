-- ===== src/Sys/Wait.antt =====
-- `sys_block` and `sys_unblock` on the queues.
use mathlib.Core.Path.{subst}
use so.Common.{
  ℕ, ◌+◌, ◌-◌, ◌≡◌, refl, ◌≢◌, ◌⊎◌, Bool, true, false, List, [], ◌∷◌, ◌++◌, none, some, arith, ◌∈◌,
  ◌∉◌, ◌==◌, update, has, has-append, erase, mem_of_mem-erase, inl, inr, sym, Bool-cases, ap, ◌∙◌,
  wneg, wadd,
}
use so.ListHead.{list_add_tail, list_del, list_for_each}
use so.ListHead.Walk.{Ring-list_for_each}
use so.ListHead.Rings.{IsLoose-list_del}
use so.Mm.Paging.{nr_tasks}
use so.Kernel.{Layout, Kernel, current, anchor, childs}
use so.Kernel.Placement.{InUnion, IsLayout}
use so.Sched.{with_task}
use so.Sched.Queues.{
  is_head, is_anchor, Queued, Queued-list_add_tail, Queued-list_del, queue-is_sorted,
}
use so.Sched.Invariant.{
  IsResumable, Runs, Inv, task-is_anchor, readyq-is_head, blocked-is_head, current-running,
}
use so.Sched.Few.{length-le-nr_tasks}
use so.Sched.Switch.{sched_next_rr-Inv, next_task, after_pick}
use so.Sys.{sys_block, sys_unblock, find_child, unblock_child}

-- All lists once the running task waits in the blocked queue.
abbrev pub blocked_too : Layout → (ℕ → List ℕ) → ℕ → ℕ → List ℕ
blocked_too l rings t = update rings l.blocked (rings l.blocked ++ anchor t ∷ [])

module _ {l : Layout} (v : IsLayout l) {k : Kernel} {live : ℕ → Bool} {rings : ℕ → List ℕ} {t : ℕ}
    (inv : Inv l live k rings t) (entered : InUnion t k.esp) where
  running-current : current k ≡ t
  running-current = current-running v k t inv.runs.task entered

  Runs-block :
      k.idle_task ≢ t
      → Runs l live
          (record k { links = list_add_tail (anchor t) l.blocked k.links })
          (blocked_too l rings t)
          t
  Runs-block ne = record {
    queued =
        Queued-list_add_tail inv.runs.queued l.blocked (blocked-is_head v live) (anchor t) inv.loose
          (queue-is_sorted v l.blocked (anchor t) (inr (inr refl))
            ∙ task-is_anchor v t inv.runs.task);
    task = inv.runs.task;
    running = inv.runs.running;
    entry = inv.runs.entry;
    ready_parked = λ p i ne'. inv.runs.ready_parked p (ground (arith, v.ready_ne_blocked)) ne';
    blocked_parked = λ p i ne'.
        inv.runs.blocked_parked p (ground (arith, has-append p (rings l.blocked) (anchor t ∷ [])))
          ne';
    idle_parked = inv.runs.idle_parked;
    idle = inv.runs.idle;
    idle_waits = λ hd h i. ground (
      arith,
      inv.runs.idle_waits hd h,
      has-append (anchor k.idle_task) (rings l.blocked) (anchor t ∷ []),
    );
    directory = inv.runs.directory;
    quanta = inv.runs.quanta;
  }

  -- On the stack of the running task, which is not idle, with a frame pointer to resume it from and
  -- no unblock pending, `sys_block` keeps the invariant: it puts the running task behind the
  -- blocked ones and gives the processor to the first ready task, or to idle.
  pub sys_block-Inv :
      (ebp : ℕ)
      → IsResumable t ebp
      → k.idle_task ≢ t
      → (k.tasks t).pending_unblocks ≡ 0
      → Inv l live
          (sys_block l ebp k)
          (after_pick l (blocked_too l rings t))
          (next_task k.idle_task (rings l.readyq))
  unfolding sys_block
  sys_block-Inv ebp save ne pending =
      let same : blocked_too l rings t l.readyq ≡ rings l.readyq =
        ground (arith, v.ready_ne_blocked) in
      rw (running-current, pending)
        (subst (Inv l live _ _) (ap (next_task k.idle_task) same)
          (sched_next_rr-Inv v (Runs-block ne) entered ebp save))

  -- On the stack of the running task and with an unblock pending `sys_block` takes one off, and the
  -- task goes on.
  pub sys_block_pending :
      (ebp : ℕ)
      → (k.tasks t).pending_unblocks ≢ 0
      → sys_block l ebp k
        ≡ with_task t (λ s. record s { pending_unblocks = s.pending_unblocks - 1 }) k
  unfolding sys_block
  sys_block_pending ebp pending =
      let test : ((k.tasks t).pending_unblocks == 0) ≡ false = ground arith in
      rw (running-current, test) refl

-- All lists once the task `c` has gone from the blocked queue to the end of the ready queue.
abbrev pub unblocked : Layout → (ℕ → List ℕ) → ℕ → ℕ → List ℕ
unblocked l rings c =
    let left = update rings l.blocked (erase (anchor c) (rings l.blocked)) in
    update left l.readyq (left l.readyq ++ anchor c ∷ [])

module _ {l : Layout} (v : IsLayout l) {k : Kernel} {live : ℕ → Bool} {rings : ℕ → List ℕ} {t : ℕ}
    (inv : Inv l live k rings t) (c : ℕ) (waits : anchor c ∈ rings l.blocked) where
  blocked-is_anchor : is_anchor l (anchor c) ≡ true
  blocked-is_anchor =
      sym (queue-is_sorted v l.blocked (anchor c) (inr (inr refl)))
      ∙ inv.runs.queued.sorted l.blocked (anchor c) (blocked-is_head v live) waits

  blocked-ne_running : c ≢ t
  blocked-ne_running e = ground (
    arith,
    inv.loose l.blocked (blocked-is_head v live),
    ap (λ c. has (anchor c) (rings l.blocked)) e,
  )

  mem-unblocked :
      (p hd : ℕ) → p ∈ unblocked l rings c hd → (p ∈ rings hd) ⊎ ((p ≡ anchor c) × (hd ≡ l.readyq))
  mem-unblocked p hd i = ground (
    arith,
    v.ready_ne_blocked,
    has-append p (rings l.readyq) (anchor c ∷ []),
    mem_of_mem-erase p (anchor c) (rings l.blocked),
  )

  unblocked-Queued :
      Queued l live
        (list_add_tail (anchor c) l.readyq (list_del (anchor c) k.links))
        (unblocked l rings c)
  unblocked-Queued =
      Queued-list_add_tail
        (Queued-list_del inv.runs.queued l.blocked (blocked-is_head v live) (anchor c) waits)
        l.readyq (readyq-is_head v live) (anchor c)
        (IsLoose-list_del inv.runs.queued.all l.blocked (blocked-is_head v live) (anchor c) waits)
        (queue-is_sorted v l.readyq (anchor c) (inl refl) ∙ blocked-is_anchor)

  unblocked-Inv :
      Inv l live
        (record k { links = list_add_tail (anchor c) l.readyq (list_del (anchor c) k.links) })
        (unblocked l rings c)
        t
  unblocked-Inv = record {
    runs = record {
      queued = unblocked-Queued;
      task = inv.runs.task;
      running = inv.runs.running;
      entry = inv.runs.entry;
      ready_parked = λ p i ne. elim (mem-unblocked p l.readyq i) [
        | inl old ↦ inv.runs.ready_parked p old ne
        | inr (e, _) ↦ inv.runs.blocked_parked p (rw e waits) ne
      ];
      blocked_parked = λ p i ne. elim (mem-unblocked p l.blocked i) [
        | inl old ↦ inv.runs.blocked_parked p old ne
        | inr (e, _) ↦ inv.runs.blocked_parked p (rw e waits) ne
      ];
      idle_parked = inv.runs.idle_parked;
      idle = inv.runs.idle;
      idle_waits = λ hd h i. elim (mem-unblocked (anchor k.idle_task) hd i) [
        | inl old ↦ inv.runs.idle_waits hd h old
        | inr (_, e) ↦ e
      ];
      directory = inv.runs.directory;
      quanta = inv.runs.quanta;
    };
    loose = λ hd h. elim (Bool-cases (has (anchor t) (unblocked l rings c hd))) [
      | inr out ↦ ground (arith, inv.loose hd h)
      | inl i ↦ elim (mem-unblocked (anchor t) hd i) [
        | inl old ↦ ground (arith, inv.loose hd h)
        | inr (e, _) ↦ absurd (blocked-ne_running (omega arith))
      ]
    ];
  }

module _ {l : Layout} (v : IsLayout l) {k : Kernel} {live : ℕ → Bool} {rings : ℕ → List ℕ} {t : ℕ}
    (inv : Inv l live k rings t) (entered : InUnion t k.esp)
    (head : is_head l live (childs t) ≡ true) where
  children : list_for_each (nr_tasks + 1) (childs (current k)) k.links ≡ rings (childs t)
  children = rw (running-current v inv entered) (
      Ring-list_for_each (nr_tasks + 1) (inv.runs.queued.all.ring (childs t) head)
        (omega (arith, length-le-nr_tasks inv.runs.queued (childs t) head)))

  waiting : list_for_each (nr_tasks + 1) l.blocked k.links ≡ rings l.blocked
  waiting =
      Ring-list_for_each (nr_tasks + 1)
        (inv.runs.queued.all.ring l.blocked (blocked-is_head v live))
        (omega (arith, length-le-nr_tasks inv.runs.queued l.blocked (blocked-is_head v live)))

  pub found :
      (pid : ℕ)
      → find_child pid k.tasks (list_for_each (nr_tasks + 1) (childs (current k)) k.links)
        ≡ find_child pid k.tasks (rings (childs t))
  found pid = ap (find_child pid k.tasks) children

  -- On the stack of the running task, whose list of children has been initialised, `sys_unblock` of
  -- a PID that no child of the running task has fails and changes nothing.
  pub sys_unblock_missing :
      (pid : ℕ)
      → find_child pid k.tasks (rings (childs t)) ≡ none
      → sys_unblock l pid k ≡ (wneg 1, k)
  unfolding sys_unblock
  sys_unblock_missing pid e = rw (found pid ∙ e, sys_unblock) refl

  -- On the stack of the running task, whose list of children has been initialised, `sys_unblock` of
  -- a blocked child succeeds, keeps the invariant, and moves the child to the end of the ready
  -- queue; the other lists and the running task stay.
  pub sys_unblock-Inv :
      (pid c : ℕ)
      → find_child pid k.tasks (rings (childs t)) ≡ some c
      → anchor c ∈ rings l.blocked
      → ((sys_unblock l pid k).0 ≡ 0) × Inv l live (sys_unblock l pid k).1 (unblocked l rings c) t
  unfolding sys_unblock unblock_child
  sys_unblock-Inv pid c e waits =
      let test : has (anchor c) (list_for_each (nr_tasks + 1) l.blocked k.links) ≡ true =
        rw waiting waits in
      rw (found pid ∙ e, sys_unblock) (rw test (refl, unblocked-Inv v inv c waits))

  -- On the stack of the running task, whose list of children has been initialised, `sys_unblock` of
  -- a child that is not blocked succeeds and notes an unblock for later.
  pub sys_unblock_pending :
      (pid c : ℕ)
      → find_child pid k.tasks (rings (childs t)) ≡ some c
      → anchor c ∉ rings l.blocked
      → sys_unblock l pid k
        ≡ (0, with_task c (λ s. record s { pending_unblocks = wadd s.pending_unblocks 1 }) k)
  unfolding sys_unblock unblock_child
  sys_unblock_pending pid c e out =
      let test : has (anchor c) (list_for_each (nr_tasks + 1) l.blocked k.links) ≡ false =
        rw waiting out in
      rw (found pid ∙ e, sys_unblock) (rw test refl)
