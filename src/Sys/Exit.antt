-- ===== src/Sys/Exit.antt =====
-- `sys_exit` as a whole.
use so.Common.{
  ℕ, ◌≡◌, ◌≢◌, inl, inr, Bool, true, List, [], ◌∷◌, arith, ◌∈◌, has, has-append, Bool-cases, ap,
}
use so.Kernel.{Layout, Kernel, anchor, anchor_entry, childs}
use so.Kernel.Placement.{IsLayout}
use so.Sched.Queues.{is_head, is_field, is_childs, is_child_anchor, is_sorted}
use so.Sched.Invariant.{IsParked, Runs, Inv}
use so.Sched.Heads.{without}
use so.Sys.Leave.{Gone}

module _ {l : Layout} (v : IsLayout l) {k k' : Kernel} {live : ℕ → Bool} {rings rings' : ℕ → List ℕ}
    {t : ℕ} (inv : Inv l live k rings t) (ne : k.idle_task ≢ t)
    (g : Gone l live t k rings k' rings') where
  Gone-idle_waits :
      (hd : ℕ)
      → is_head l (without (childs t) live) hd ≡ true
      → anchor k.idle_task ∈ rings' hd
      → hd ≡ l.readyq
  Gone-idle_waits hd h i = elim (Bool-cases (is_childs l hd)) [
    | inl c ↦ absurd (
        unfold is_sorted is_child_anchor is_field in
        ground (arith, g.queued.sorted hd (anchor k.idle_task) h, inv.runs.idle))
    | inr c ↦
        unfold is_head in
        ground (
          arith,
          g.blocked,
          g.free,
          has-append (anchor k.idle_task) (rings l.freeq) (anchor t ∷ []),
          inv.runs.idle_waits l.blocked,
          inv.runs.idle_waits l.freeq,
          ap (has (anchor k.idle_task)) g.blocked,
          ap (has (anchor k.idle_task)) g.free,
        )
  ]

  Gone-IsParked : (u : ℕ) → IsParked k u → IsParked k' u
  Gone-IsParked u p = ground (arith, ap (λ s. s.kernel_esp) (g.tasks u))

  pub Gone-Runs : Runs l (without (childs t) live) k' rings' t
  Gone-Runs = record {
    queued = g.queued;
    task = inv.runs.task;
    running = rw (ap (λ k. k.esp) g.others) inv.runs.running;
    entry = rw (ap (λ k. k.esp0) g.others) inv.runs.entry;
    ready_parked = λ p i ne.
        Gone-IsParked (anchor_entry p)
          (inv.runs.ready_parked p (ground (arith, ap (has p) g.ready)) ne);
    blocked_parked = λ p i ne.
        Gone-IsParked (anchor_entry p)
          (inv.runs.blocked_parked p (ground (arith, ap (has p) g.blocked)) ne);
    idle_parked =
        rw (ap (λ k. k.idle_task) g.others)
          (λ ne. Gone-IsParked k.idle_task (inv.runs.idle_parked ne));
    idle = rw (ap (λ k. k.idle_task) g.others) inv.runs.idle;
    idle_waits = rw (ap (λ k. k.idle_task) g.others) Gone-idle_waits;
    directory =
        ground (arith, ap (λ k. k.cr3) g.others, ap (λ s. s.dir) (g.tasks t), inv.runs.directory);
    quanta = λ u h. rw (ap (λ s. s.quantum) (g.tasks u)) (inv.runs.quanta u h);
  }
