-- ===== src/Sys/Gone.antt =====
-- The state in which `sys_exit` chooses the next task.
use so.Common.{
  ℕ, ◌≡◌, refl, ◌≢◌, ◌⊎◌, inl, inr, Bool, true, false, List, [], ◌∷◌, ◌++◌, arith, ◌∈◌, ◌∉◌, ◌==◌,
  if◌then◌else◌, has, has-append, update, Bool-cases, ap, ◌∙◌,
}
use mathlib.Core.Path.{subst}
use so.ListHead.{null}
use so.ListHead.Rings.{IsLoose}
use so.Kernel.{Layout, Kernel, anchor, child_anchor, childs}
use so.Kernel.Placement.{IsLayout}
use so.Sched.Queues.{is_head, is_field, is_childs, Queued, Queued-list_add_tail, queue-is_sorted}
use so.Sched.Invariant.{is_task, Inv, task-is_anchor}
use so.Sched.Heads.{without, Queued-without}
use so.Sys.{leave_parent}
use so.Sys.Adopt.{Adopted}
use so.Sys.Family.{
  Family, task-is_childs, childs-is_head, queue-not-is_childs, child_anchor-IsLoose,
}
use so.Sys.Leave.{Left, Gone, orphaned, freed}

module _ {l : Layout} (v : IsLayout l) {k : Kernel} {live : ℕ → Bool} {rings : ℕ → List ℕ} {t : ℕ}
    (inv : Inv l live k rings t) (f : Family l live k rings t) (ne : k.idle_task ≢ t)
    {r₁ r₂ : ℕ → List ℕ} (left : Left l live t k rings (leave_parent t k) r₁)
    (a : Adopted l live
      (childs t)
      (childs k.idle_task)
      (r₁ (childs t))
      (leave_parent t k)
      r₁
      (orphaned t k)
      r₂) where
  abbrev r₃ : ℕ → List ℕ
  r₃ = update r₂ l.freeq (r₂ l.freeq ++ anchor t ∷ [])

  idle_head : is_head l live (childs k.idle_task) ≡ true
  idle_head = childs-is_head v live k.idle_task inv.runs.idle f.idle

  own_head : is_head l live (childs t) ≡ true
  own_head = childs-is_head v live t inv.runs.task f.running

  freeq_head : is_head l live l.freeq ≡ true
  freeq_head = unfold is_head in ground arith

  -- A node that `r₁` does not hold, `r₂` does not hold.
  not-mem-r₂ :
      (p : ℕ) → IsLoose (is_head l live) r₁ p → (hd : ℕ) → is_head l live hd ≡ true → p ∉ r₂ hd
  not-mem-r₂ p out hd h = ground (
    arith,
    a.moved hd,
    out hd h,
    out (childs k.idle_task) idle_head,
    out (childs t) own_head,
    has-append p (r₁ (childs k.idle_task)) (r₁ (childs t)),
  )

  anchor-IsLoose₁ : IsLoose (is_head l live) r₁ (anchor t)
  anchor-IsLoose₁ hd h = ground (arith, inv.loose hd h, left.less (anchor t) hd)

  anchor-IsLoose₂ : IsLoose (is_head l live) r₂ (anchor t)
  anchor-IsLoose₂ hd h = ground (arith, inv.loose hd h, not-mem-r₂ (anchor t) anchor-IsLoose₁ hd h)

  freed-Queued : Queued l (without (childs t) live) (freed l t k).links r₃
  freed-Queued =
      Queued-without v
        (Queued-list_add_tail a.queued l.freeq freeq_head (anchor t) anchor-IsLoose₂ (
          queue-is_sorted v l.freeq (anchor t) (inr (inl refl)) ∙ task-is_anchor v t inv.runs.task))
        (childs t) (task-is_childs v t inv.runs.task)
        (ground (
          arith,
          a.moved (childs t),
          queue-not-is_childs v l.freeq,
          task-is_childs v t inv.runs.task,
        ))

  queue-r₂ : (hd : ℕ) → is_childs l hd ≡ false → r₂ hd ≡ rings hd
  queue-r₂ hd c = ground (
    arith,
    a.moved hd,
    left.queues hd c,
    task-is_childs v t inv.runs.task,
    task-is_childs v k.idle_task inv.runs.idle,
  )

  others₁ : leave_parent t k ≡ record k { links = (leave_parent t k).links }
  others₁ = left.others

  not-mem-r₃ :
      (u : ℕ)
      → IsLoose (is_head l live) r₁ (child_anchor u)
      → (hd : ℕ) → is_childs l hd ≡ true
      → without (childs t) live hd ≡ true
      → child_anchor u ∉ r₃ hd
  not-mem-r₃ u out hd c on = ground (
    arith,
    queue-not-is_childs v l.freeq,
    not-mem-r₂ (child_anchor u) out hd (unfold is_head in ground arith),
  )

  -- A node that `rings` does not hold, `r₁` does not hold.
  still-IsLoose : (p : ℕ) → IsLoose (is_head l live) rings p → IsLoose (is_head l live) r₁ p
  still-IsLoose p out hd h = ground (arith, out hd h, left.less p hd)

  parent₃ :
      (u : ℕ)
      → ((freed l t k).tasks u).parent
        ≡ (if has (child_anchor u) (r₁ (childs t)) then k.idle_task else (k.tasks u).parent)
  parent₃ u = ground (arith, a.tasks u, left.others)

  idle-ne_null : k.idle_task ≢ null
  idle-ne_null = unfold is_field in ground (arith, inv.runs.idle, v.above)

  child-mem-r₃ :
      (p u : ℕ)
      → is_task l p ≡ true
      → p ≢ t
      → (child_anchor u ∈ r₁ (childs p)) ⊎ ((p ≡ k.idle_task) × (child_anchor u ∈ r₁ (childs t)))
      → child_anchor u ∈ r₃ (childs p)
  child-mem-r₃ p u h other i = ground (
    arith,
    a.moved (childs p),
    has-append (child_anchor u) (r₁ (childs k.idle_task)) (r₁ (childs t)),
    queue-not-is_childs v l.freeq,
    task-is_childs v p h,
  )

  up₃ :
      (u : ℕ)
      → is_task l u ≡ true
      → without (childs t) live (childs u) ≡ true
      → ((freed l t k).tasks u).parent ≢ null
      → let p = ((freed l t k).tasks u).parent in
        (is_task l p ≡ true)
        × (without (childs t) live (childs p) ≡ true)
        × (child_anchor u ∈ r₃ (childs p))
  up₃ u h on some = elim (Bool-cases (has (child_anchor u) (r₁ (childs t)))) [
    | inl child ↦
        let e : ((freed l t k).tasks u).parent ≡ k.idle_task = ground (arith, parent₃ u) in
        rw e (
          inv.runs.idle,
          ground (arith, f.idle),
          child-mem-r₃ k.idle_task u inv.runs.idle ne (inr (refl, child)),
        )
    | inr out ↦
        let e : ((freed l t k).tasks u).parent ≡ (k.tasks u).parent = ground (arith, parent₃ u) in
        let old = f.parent u h (ground arith) (λ z. some (e ∙ z)) in
        let mem = left.kept (child_anchor u) (childs (k.tasks u).parent) old.2 (ground arith) in
        let other : (k.tasks u).parent ≢ t =
          λ z. absurd (ground (arith, ap (λ p. has (child_anchor u) (r₁ (childs p))) z)) in
        rw e (old.0, ground (arith, old.1), child-mem-r₃ (k.tasks u).parent u old.0 other (inl mem))
  ]

  idle₃ : (freed l t k).idle_task ≡ k.idle_task
  idle₃ = ap (λ k. k.idle_task) a.others ∙ ap (λ k. k.idle_task) left.others

  tasks₃ :
      (u : ℕ)
      → (freed l t k).tasks u ≡ record (k.tasks u) { parent = ((freed l t k).tasks u).parent }
  tasks₃ u = ground (arith, a.tasks u, left.others)

  freed-Family : Family l (without (childs t) live) (freed l t k) r₃ k.idle_task
  freed-Family = record {
    running = ground (arith, f.idle);
    idle = rw idle₃ (ground (arith, f.idle));
    ready = λ u h i. ground (
      arith,
      v.ready_ne_free,
      queue-r₂ l.readyq (queue-not-is_childs v l.readyq (inl refl)),
      f.ready u h,
      inv.loose l.readyq (unfold is_head in ground arith),
    );
    blocked = λ u h i. ground (
      arith,
      v.free_ne_blocked,
      queue-r₂ l.blocked (queue-not-is_childs v l.blocked (inr (inr refl))),
      f.blocked u h,
      inv.loose l.blocked (unfold is_head in ground arith),
    );
    free = λ u h i. ground (
      arith,
      queue-r₂ l.freeq (queue-not-is_childs v l.freeq (inr (inl refl))),
      has-append (anchor u) (r₂ l.freeq) (anchor t ∷ []),
      f.free u h,
    );
    dead_loose = λ u h d. child_anchor-IsLoose v freed-Queued u h (
        not-mem-r₃ u (elim (Bool-cases (u == t)) [
          | inl e ↦
              let same : t ≡ u = ground arith in
              subst (λ u. IsLoose (is_head l live) r₁ (child_anchor u)) same left.loose
          | inr e ↦ still-IsLoose (child_anchor u) (f.dead_loose u h (ground arith))
        ]));
    dirs = λ u h on. ground (arith, ap (λ s. s.dir) (tasks₃ u), f.dirs u h);
    orphan_loose = λ u h on none. child_anchor-IsLoose v freed-Queued u h (
        not-mem-r₃ u (
          still-IsLoose (child_anchor u)
            (f.orphan_loose u h (ground arith) (ground (arith, parent₃ u, idle-ne_null)))));
    parent = up₃;
  }

  pub freed-Gone : Gone l live t k rings (freed l t k) r₃
  freed-Gone = record {
    queued = freed-Queued;
    ready =
        ground
          (arith, v.ready_ne_free, queue-r₂ l.readyq (queue-not-is_childs v l.readyq (inl refl)));
    blocked = ground (
      arith,
      v.free_ne_blocked,
      queue-r₂ l.blocked (queue-not-is_childs v l.blocked (inr (inr refl))),
    );
    free = ground (arith, queue-r₂ l.freeq (queue-not-is_childs v l.freeq (inr (inl refl))));
    others = ground (arith, a.others, left.others);
    tasks = tasks₃;
    family = freed-Family;
  }
