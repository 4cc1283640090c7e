-- ===== src/Sched/Tick.antt =====
-- What one call of `scheduler` does to the queues and to the running task.
use mathlib.Core.Path.{subst, fun_ext}
use so.Common.{
  ℕ, ◌≡◌, refl, Bool, true, false, List, [], ◌∷◌, ◌++◌, arith, ◌==◌, if◌then◌else◌, update,
  has-append, inl, inr, Bool-cases, ap, ◌∙◌, is_neg, wsub,
}
use so.ListHead.Walk.{is_nil}
use so.Kernel.{Layout, Kernel, anchor, anchor_entry}
use so.Kernel.Placement.{InUnion, IsLayout}
use so.Io.{literal}
use so.Sched.{
  scheduler, needs_sched_rr, update_sched_data_rr, update_process_state_rr, sched_next_rr, print,
}
use so.Sched.Queues.{Queued, update_loose, Queued-list_add_tail, is_sorted, queue-is_sorted}
use so.Sched.Kept.{sched_next_rr-quantum, update_process_state_rr-quantum}
use so.Sched.Invariant.{IsResumable, Runs, Inv, task-is_anchor, readyq-is_head, current-running}
use so.Sched.Switch.{
  SameTasks, Runs-mono, empty-ready, sched_next_rr-Inv, next_task, remaining, after_pick,
}

-- One tick on the lists: if the quantum has expired and somebody is ready, the running task goes to
-- the end of the ready queue and the first one of it runs; else nothing moves.
unfoldable pub round : Layout → Bool → (ℕ → List ℕ) → ℕ → List ℕ → (ℕ → List ℕ) × ℕ
round l expired rings t [] = (rings, t)
round l false rings t (p ∷ ps) = (rings, t)
round l true rings t (p ∷ ps) = (update rings l.readyq (ps ++ anchor t ∷ []), anchor_entry p)

-- The count of the quantum falls below 0.
abbrev pub expires : Kernel → Bool
expires k = is_neg (wsub k.quantum_ticks 1)

module _ {l : Layout} (v : IsLayout l) {k : Kernel} {live : ℕ → Bool} {rings : ℕ → List ℕ} {t : ℕ}
    (inv : Inv l live k rings t) (entered : InUnion t k.esp) where
  needs_nil :
      rings l.readyq ≡ []
      → needs_sched_rr l (update_sched_data_rr k)
        ≡ (0, record k { quantum_ticks = (k.tasks t).quantum })
  unfolding needs_sched_rr update_sched_data_rr is_nil
  needs_nil e = ground (
    arith,
    empty-ready v inv.runs [] e,
    current-running v (record k { quantum_ticks = wsub k.quantum_ticks 1 }) t inv.runs.task entered,
    inv.runs.quanta t inv.runs.task,
  )

  needs_cons :
      (p : ℕ) (ps : List ℕ)
      → rings l.readyq ≡ p ∷ ps
      → needs_sched_rr l (update_sched_data_rr k)
        ≡ (if expires k then 1 else 0, record k { quantum_ticks = wsub k.quantum_ticks 1 })
  unfolding needs_sched_rr update_sched_data_rr is_nil
  needs_cons p ps e = ground (arith, empty-ready v inv.runs (p ∷ ps) e)

-- The state in which `scheduler` calls `sched_next_rr`: the running task waits in the ready queue.
abbrev enqueued : Layout → (ℕ → List ℕ) → ℕ → ℕ → List ℕ
enqueued l rings t = update rings l.readyq (rings l.readyq ++ anchor t ∷ [])

module _ {l : Layout} (v : IsLayout l) {k : Kernel} {live : ℕ → Bool} {rings : ℕ → List ℕ} {t : ℕ}
    (inv : Inv l live k rings t) (k' : Kernel) (same : SameTasks k k')
    (links : k'.links ≡ k.links) where
  queued' : Queued l live k'.links rings
  queued' = rw links inv.runs.queued

  sorted' : is_sorted l l.readyq (anchor t) ≡ true
  sorted' = queue-is_sorted v l.readyq (anchor t) (inl refl) ∙ task-is_anchor v t inv.runs.task

  Runs-enqueue : Runs l live (update_process_state_rr t l.readyq k') (enqueued l rings t) t
  Runs-enqueue =
      rw
        (update_loose v k' queued' t l.readyq (readyq-is_head v live)
          (task-is_anchor v t inv.runs.task) inv.loose)
        (record {
          queued =
              Queued-list_add_tail queued' l.readyq (readyq-is_head v live) (anchor t) inv.loose
                sorted';
          task = inv.runs.task;
          running = rw same.1 inv.runs.running;
          entry = rw same.3 inv.runs.entry;
          ready_parked = λ p i ne. rw same.0 (
              inv.runs.ready_parked p
                (ground (arith, has-append p (rings l.readyq) (anchor t ∷ []))) ne);
          blocked_parked = λ p i ne. rw same.0 (
              inv.runs.blocked_parked p
                (ground (arith, v.ready_ne_blocked, has-append p (rings l.readyq) (anchor t ∷ [])))
                ne);
          idle_parked = rw (same.0, same.2) inv.runs.idle_parked;
          idle = rw same.2 inv.runs.idle;
          idle_waits = λ hd h i. ground (arith, same.2, inv.runs.idle_waits hd h);
          directory = rw (same.0, same.4) inv.runs.directory;
          quanta = rw same.0 inv.runs.quanta;
        })

enqueued-ready :
    (l : Layout) (rings : ℕ → List ℕ) (t p : ℕ) (ps : List ℕ)
    → rings l.readyq ≡ p ∷ ps
    → enqueued l rings t l.readyq ≡ p ∷ (ps ++ anchor t ∷ [])
enqueued-ready l rings t p ps e = ground (arith, ap (λ xs. xs ++ anchor t ∷ []) e)

after_pick-enqueued :
    (l : Layout) (rings : ℕ → List ℕ) (t p : ℕ) (ps : List ℕ)
    → rings l.readyq ≡ p ∷ ps
    → after_pick l (enqueued l rings t) ≡ update rings l.readyq (ps ++ anchor t ∷ [])
unfolding remaining
after_pick-enqueued l rings t p ps e = fun_ext λ q. elim (Bool-cases (q == l.readyq)) [
  | inl h ↦ rw (h, enqueued-ready l rings t p ps e)
  | inr h ↦ rw h
]

module _ {l : Layout} (v : IsLayout l) {k : Kernel} {live : ℕ → Bool} {rings : ℕ → List ℕ} {t : ℕ}
    (inv : Inv l live k rings t) (entered : InUnion t k.esp) (ebp : ℕ)
    (save : IsResumable t ebp) where
  preempt-Inv :
      (p : ℕ) (ps : List ℕ)
      → rings l.readyq ≡ p ∷ ps
      → expires k ≡ true
      → Inv l live
          (scheduler l ebp k)
          (update rings l.readyq (ps ++ anchor t ∷ []))
          (anchor_entry p)
  unfolding scheduler next_task
  preempt-Inv p ps e x =
      rw
        (
          needs_cons v inv entered p ps e,
          x,
          current-running v k₁ t inv.runs.task entered,
          ← after_pick-enqueued l rings t p ps e,
        )
        (subst (Inv l live _ _) (ap (next_task k.idle_task) (enqueued-ready l rings t p ps e))
          switched)
    where
      k₁ : Kernel
      k₁ = record k { quantum_ticks = wsub k.quantum_ticks 1 }

      k₂ : Kernel
      k₂ = print (literal "\nscheudled next task PID: ") (update_process_state_rr t l.readyq k₁)

      runs : Runs l live (update_process_state_rr t l.readyq k₁) (enqueued l rings t) t
      runs = Runs-enqueue v inv k₁ (refl, refl, refl, refl, refl) refl

      switched :
          Inv l live
            (sched_next_rr l ebp k₂)
            (after_pick l (enqueued l rings t))
            (next_task k.idle_task (enqueued l rings t l.readyq))
      switched =
          unfold update_process_state_rr in
          sched_next_rr-Inv v {k = k₂}
            (Runs-mono runs (refl, refl, refl, refl, refl) runs.queued (λ p hd i. i)) entered ebp
            save

  stay-Inv : (n : ℕ) (k' : Kernel) → k' ≡ record k { quantum_ticks = n } → Inv l live k' rings t
  stay-Inv n k' e = rw e (record {
    runs = Runs-mono inv.runs (refl, refl, refl, refl, refl) inv.runs.queued (λ p hd i. i);
    loose = inv.loose;
  })

  scheduler_nil :
      rings l.readyq ≡ [] → scheduler l ebp k ≡ record k { quantum_ticks = (k.tasks t).quantum }
  unfolding scheduler
  scheduler_nil e = rw (needs_nil v inv entered e)

  scheduler_stay :
      (p : ℕ) (ps : List ℕ)
      → rings l.readyq ≡ p ∷ ps
      → expires k ≡ false
      → scheduler l ebp k ≡ record k { quantum_ticks = wsub k.quantum_ticks 1 }
  unfolding scheduler
  scheduler_stay p ps e x = rw (needs_cons v inv entered p ps e, x)

  scheduler-Inv_at :
      (xs : List ℕ) (b : Bool)
      → rings l.readyq ≡ xs
      → expires k ≡ b
      → Inv l live (scheduler l ebp k) (round l b rings t xs).0 (round l b rings t xs).1
  unfolding round
  scheduler-Inv_at [] b e x = stay-Inv (k.tasks t).quantum (scheduler l ebp k) (scheduler_nil e)
  scheduler-Inv_at (p ∷ ps) false e x =
      stay-Inv (wsub k.quantum_ticks 1) (scheduler l ebp k) (scheduler_stay p ps e x)
  scheduler-Inv_at (p ∷ ps) true e x = preempt-Inv p ps e x

  -- A call of `scheduler`, with the stack pointer in the union of the running task and a frame
  -- pointer to resume it from, keeps the invariant. It moves the queues and the running task as
  -- `round` does on lists: when the quantum has expired and somebody is ready, the running task
  -- goes behind the ready ones and the first of them runs; else nothing moves.
  pub scheduler-Inv :
      let w = round l (expires k) rings t (rings l.readyq) in Inv l live (scheduler l ebp k) w.0 w.1
  scheduler-Inv = scheduler-Inv_at (rings l.readyq) (expires k) refl refl

  -- A round takes one off the quantum when somebody is ready.
  pub scheduler-quantum :
      (p : ℕ) (ps : List ℕ)
      → rings l.readyq ≡ p ∷ ps
      → (scheduler l ebp k).quantum_ticks ≡ wsub k.quantum_ticks 1
  unfolding scheduler
  scheduler-quantum p ps e = elim (Bool-cases (expires k)) [
    | inl x ↦
        rw (needs_cons v inv entered p ps e, x)
          (sched_next_rr-quantum l ebp _
            ∙ update_process_state_rr-quantum _ l.readyq
                (record k { quantum_ticks = wsub k.quantum_ticks 1 }))
    | inr x ↦ rw (needs_cons v inv entered p ps e, x) refl
  ]

pub round-running :
    (l : Layout) (b : Bool) (rings : ℕ → List ℕ) (t p : ℕ) (ps : List ℕ)
    → (round l b rings t (p ∷ ps)).1 ≡ (if b then anchor_entry p else t)
unfolding round
round-running l true rings t p ps = refl
round-running l false rings t p ps = refl
