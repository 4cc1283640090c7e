-- ===== src/Sched/Switch.antt =====
-- Choosing the next task and switching to it.
use so.Common.{
  ℕ, ◌-◌, ◌≡◌, refl, ◌≢◌, Bool, true, List, [], ◌∷◌, arith, ◌∈◌, update, erase, has, inl, inr, sym,
  Bool-cases, update_self, erase_head, ap, ◌∙◌,
}
use mathlib.Core.Path.{subst, subst₂}
use so.ListHead.{null, list_empty, list_first, list_del}
use so.ListHead.Ring.{Ring}
use so.ListHead.Walk.{is_nil, list_empty-is_nil, Ring-list_first}
use so.ListHead.Rings.{IsLoose, IsLoose-list_del}
use so.Kernel.{Layout, Kernel, current, anchor, anchor_entry, stack_at, kernel_stack_size}
use so.Kernel.Placement.{IsLayout, InUnion}
use so.Sched.{get_dir, pick_next, inner_task_switch, sched_next_rr, update_process_state_rr}
use so.Sched.Queues.{
  is_anchor, is_head, Queued, Queued-list_del, update_null, queue-is_sorted, anchor-ne_head,
}
use so.Sched.Invariant.{
  is_task, IsOnStack, IsResumable, IsParked, Runs, Inv, task-is_anchor, anchor-is_task,
  readyq-is_head, current-running,
}

-- The task that runs next: the first one of the ready queue, or idle.
unfoldable pub next_task : ℕ → List ℕ → ℕ
next_task idle [] = idle
next_task idle (p ∷ ps) = anchor_entry p

-- The ready queue without it.
unfoldable pub remaining : List ℕ → List ℕ
remaining [] = []
remaining (p ∷ ps) = ps

-- All lists after the choice.
abbrev pub after_pick : Layout → (ℕ → List ℕ) → ℕ → List ℕ
after_pick l rings = update rings l.readyq (remaining (rings l.readyq))

pub record Picked (l : Layout) (live : ℕ → Bool) (k : Kernel) (rings : ℕ → List ℕ) (t next : ℕ)
    (k' : Kernel) : Type 0 where
  pub chosen : next ≡ next_task k.idle_task (rings l.readyq)
  pub others : k' ≡ record k { links = k'.links }
  pub queued : Queued l live k'.links (after_pick l rings)
  pub loose : IsLoose (is_head l live) (after_pick l rings) (anchor next)
  pub task : is_task l next ≡ true
  pub parked : next ≢ t → IsParked k next

module _ {l : Layout} (v : IsLayout l) {k : Kernel} {live : ℕ → Bool} {rings : ℕ → List ℕ} {t : ℕ}
    (r : Runs l live k rings t) where
  pub empty-ready : (xs : List ℕ) → rings l.readyq ≡ xs → list_empty l.readyq k.links ≡ is_nil xs
  empty-ready xs e =
      rw (← e) (list_empty-is_nil (r.queued.all.ring l.readyq (readyq-is_head v live)))

  idle-IsLoose : rings l.readyq ≡ [] → IsLoose (is_head l live) rings (anchor k.idle_task)
  idle-IsLoose e hd head = elim (Bool-cases (has (anchor k.idle_task) (hd ∷ rings hd))) [
    | inr out ↦ out
    | inl i ↦
        let a =
          anchor-ne_head v live (anchor k.idle_task) hd (task-is_anchor v k.idle_task r.idle)
            head in
        let m : anchor k.idle_task ∈ rings hd = ground arith in
        let w = r.idle_waits hd head m in ground (arith, ap (has (anchor k.idle_task)) e)
  ]

  pick_next_nil : rings l.readyq ≡ [] → pick_next l k ≡ (k.idle_task, k)
  unfolding pick_next is_nil
  pick_next_nil e = ground (arith, empty-ready [] e)

  module _ (p : ℕ) (ps : List ℕ) (e : rings l.readyq ≡ p ∷ ps) where
    first-mem : p ∈ rings l.readyq
    first-mem = rw e (ground arith)

    first-is_anchor : is_anchor l p ≡ true
    first-is_anchor =
        sym (queue-is_sorted v l.readyq p (inl refl))
        ∙ r.queued.sorted l.readyq p (readyq-is_head v live) first-mem

    pub first-task : (is_task l (anchor_entry p) ≡ true) × (anchor (anchor_entry p) ≡ p)
    first-task = anchor-is_task v p first-is_anchor

    list_first-ready : list_first l.readyq k.links ≡ p
    list_first-ready =
        Ring-list_first
          (subst (Ring k.links l.readyq) e (r.queued.all.ring l.readyq (readyq-is_head v live)))

    unlink_first :
        update_process_state_rr (anchor_entry p) null k ≡ record k { links = list_del p k.links }
    unlink_first =
        update_null v k r.queued (anchor_entry p) l.readyq (readyq-is_head v live)
          (rw (first-task.1) first-mem)
        ∙ ap (λ a. record k { links = list_del a k.links }) first-task.1

    pick_next_cons : pick_next l k ≡ (anchor_entry p, record k { links = list_del p k.links })
    unfolding pick_next is_nil
    pick_next_cons = rw (empty-ready (p ∷ ps) e, list_first-ready, unlink_first) refl

    rest-ready : erase p (rings l.readyq) ≡ ps
    rest-ready = rw e (erase_head p ps)

    after_pick_cons : after_pick l rings ≡ update rings l.readyq (erase p (rings l.readyq))
    unfolding remaining
    after_pick_cons = rw (rest-ready, e)

  after_pick_nil : rings l.readyq ≡ [] → after_pick l rings ≡ rings
  unfolding remaining
  after_pick_nil e = rw e (update_self rings l.readyq [] e)

  pick_next-Picked :
      (xs : List ℕ)
      → rings l.readyq ≡ xs
      → Picked l live k rings t (pick_next l k).0 (pick_next l k).1
  unfolding next_task
  pick_next-Picked [] e = rw (pick_next_nil e) (record {
    chosen = rw e refl;
    others = refl;
    queued = rw (after_pick_nil e) r.queued;
    loose =
        subst (λ f. IsLoose (is_head l live) f (anchor k.idle_task)) (sym (after_pick_nil e))
          (idle-IsLoose e);
    task = r.idle;
    parked = r.idle_parked;
  })
  pick_next-Picked (p ∷ ps) e = rw (pick_next_cons p ps e) (record {
    chosen = rw e refl;
    others = refl;
    queued =
        rw (after_pick_cons p ps e)
          (Queued-list_del r.queued l.readyq (readyq-is_head v live) p (first-mem p ps e));
    loose =
        subst₂ (λ f a. IsLoose (is_head l live) f a) (sym (after_pick_cons p ps e))
          (sym (first-task p ps e).1)
          (IsLoose-list_del r.queued.all l.readyq (readyq-is_head v live) p (first-mem p ps e));
    task = (first-task p ps e).0;
    parked = r.ready_parked p (first-mem p ps e);
  })

mem_of_mem-remaining : (p : ℕ) (xs : List ℕ) → p ∈ remaining xs → p ∈ xs
unfolding remaining
mem_of_mem-remaining p [] i = i
mem_of_mem-remaining p (x ∷ xs) i = ground arith

pub mem-after_pick :
    (l : Layout) (rings : ℕ → List ℕ) (p hd : ℕ) → p ∈ after_pick l rings hd → p ∈ rings hd
mem-after_pick l rings p hd i = ground (arith, mem_of_mem-remaining p (rings l.readyq))

-- What the scheduler does with the rest of the state between the choice and the switch.
abbrev pub SameTasks : Kernel → Kernel → Type 0
SameTasks k k' =
    (k'.tasks ≡ k.tasks)
    × (k'.esp ≡ k.esp)
    × (k'.idle_task ≡ k.idle_task)
    × (k'.esp0 ≡ k.esp0)
    × (k'.cr3 ≡ k.cr3)

pub Runs-mono :
    {l : Layout} {k k' : Kernel} {live : ℕ → Bool} {rings rings' : ℕ → List ℕ} {t : ℕ}
    → Runs l live k rings t
    → SameTasks k k'
    → Queued l live k'.links rings'
    → ((p hd : ℕ) → p ∈ rings' hd → p ∈ rings hd)
    → Runs l live k' rings' t
Runs-mono {l} {k} {k'} r (te, ee, ie, ze, ce) q sub = record {
  queued = q;
  task = r.task;
  running = rw ee r.running;
  entry = rw ze r.entry;
  ready_parked = λ p i ne. rw te (r.ready_parked p (sub p l.readyq i) ne);
  blocked_parked = λ p i ne. rw te (r.blocked_parked p (sub p l.blocked i) ne);
  idle_parked = rw (te, ie) r.idle_parked;
  idle = rw ie r.idle;
  idle_waits = rw ie (λ hd h i. r.idle_waits hd h (sub _ hd i));
  directory = rw (te, ce) r.directory;
  quanta = rw te r.quanta;
}

module _ {l : Layout} (v : IsLayout l) {k : Kernel} {live : ℕ → Bool} {rings : ℕ → List ℕ} {t : ℕ}
    (r : Runs l live k rings t) (entered : InUnion t k.esp) (ebp : ℕ) (save : IsResumable t ebp)
    (next : ℕ) where
  still_current :
      current (record k { cr3 = get_dir next k; esp0 = stack_at next (kernel_stack_size - 1) }) ≡ t
  still_current =
      current-running v
        (record k { cr3 = get_dir next k; esp0 = stack_at next (kernel_stack_size - 1) }) t r.task
        entered

  -- After the switch the task that has left has its saved stack pointer in its union, as the others
  -- have.
  switch-IsParked : (u : ℕ) → (u ≢ t → IsParked k u) → IsParked (inner_task_switch ebp next k) u
  unfolding inner_task_switch
  switch-IsParked u h = ground (arith, still_current)

  switch-quanta : (u : ℕ) → ((inner_task_switch ebp next k).tasks u).quantum ≡ (k.tasks u).quantum
  unfolding inner_task_switch
  switch-quanta u = ground (arith, still_current)

  switch-running : (next ≢ t → IsParked k next) → IsOnStack next (inner_task_switch ebp next k).esp
  unfolding inner_task_switch
  switch-running h = ground (arith, still_current)

  -- `inner_task_switch` to a loose task with its saved stack pointer in its union makes it the
  -- running one.
  inner_task_switch-Inv :
      is_task l next ≡ true
      → (next ≢ t → IsParked k next)
      → IsLoose (is_head l live) rings (anchor next)
      → Inv l live (inner_task_switch ebp next k) rings next
  inner_task_switch-Inv task parked loose = record {
    runs = record {
      queued = unfold inner_task_switch in r.queued;
      task = task;
      running = switch-running parked;
      entry = unfold inner_task_switch in ground arith;
      ready_parked = λ p i ne. switch-IsParked (anchor_entry p) (r.ready_parked p i);
      blocked_parked = λ p i ne. switch-IsParked (anchor_entry p) (r.blocked_parked p i);
      idle_parked = unfold inner_task_switch in (λ ne. switch-IsParked k.idle_task r.idle_parked);
      idle = unfold inner_task_switch in r.idle;
      idle_waits = unfold inner_task_switch in r.idle_waits;
      directory = unfold inner_task_switch in ground (arith, still_current);
      quanta = λ u i. rw (switch-quanta u) (r.quanta u i);
    };
    loose = loose;
  }

module _ {l : Layout} (v : IsLayout l) {k : Kernel} {live : ℕ → Bool} {rings : ℕ → List ℕ} {t : ℕ}
    (r : Runs l live k rings t) (entered : InUnion t k.esp) (ebp : ℕ)
    (save : IsResumable t ebp) where
  -- `sched_next_rr`, called on the stack of the running task with a frame pointer to resume it
  -- from, keeps what the invariant says of the other tasks: it gives the processor to the first
  -- task of the ready queue, which leaves the queue, or to idle if the queue is empty.
  pub sched_next_rr-Inv :
      Inv l live
        (sched_next_rr l ebp k)
        (after_pick l rings)
        (next_task k.idle_task (rings l.readyq))
  unfolding sched_next_rr
  sched_next_rr-Inv = rw (← p.chosen) (
      inner_task_switch-Inv v
        (Runs-mono r
          (
            ap (λ k. k.tasks) p.others,
            ap (λ k. k.esp) p.others,
            ap (λ k. k.idle_task) p.others,
            ap (λ k. k.esp0) p.others,
            ap (λ k. k.cr3) p.others,
          )
          p.queued (mem-after_pick l rings))
        (rw (ap (λ k. k.esp) p.others) entered) ebp save (pick_next l k).0 p.task
        (rw (ap (λ k. k.tasks) p.others) p.parked) p.loose)
    where
      p : Picked l live k rings t (pick_next l k).0 (pick_next l k).1
      p = pick_next-Picked v r (rings l.readyq) refl
