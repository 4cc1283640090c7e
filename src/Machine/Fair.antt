-- ===== src/Machine/Fair.antt =====
-- Who waits in the ready queue runs.
use so.Common.{
  ℕ, ◌+◌, ◌<◌, ◌≡◌, ◌≢◌, refl, Bool, true, false, ◌||◌, List, [], ◌∷◌, ◌++◌, arith, ◌==◌,
  if◌then◌else◌, length, ap, sym, ◌∙◌,
}
use so.Kernel.{Layout, Kernel, anchor, anchor_entry}
use so.Kernel.Placement.{IsLayout}
use so.Sched.Switch.{next_task, remaining}
use so.Machine.{Queues, Safe, owner, Event, Move, stay, preempt, block, wake, spawn, lose, leave}
use so.Machine.Steps.{owner-running, Step, Step-After}

-- A sequence of steps, by the states after each of them.
pub data Trail (l : Layout) : Kernel → List Kernel → Type 0 where
  done : (k : Kernel) → Trail l k []
  step :
      (k : Kernel) (e : Event) (k' : Kernel) (ks : List Kernel)
      → Step l k e k'
      → Trail l k' ks
      → Trail l k (k' ∷ ks)

-- How often the running task changes, from the task `t` on.
unfoldable pub switches : ℕ → List Kernel → ℕ
switches t [] = 0
switches t (k ∷ ks) = (if owner k == t then 0 else 1) + switches (owner k) ks

-- Whether the task runs in one of the states.
unfoldable pub runs_in : ℕ → List Kernel → Bool
runs_in u [] = false
runs_in u (k ∷ ks) = (owner k == u) || runs_in u ks

-- The places in the ready queue after a move.
data Moved (x : ℕ) (before after : List ℕ) (q q' : Queues) : Type 0 where
  waits :
      (after' : List ℕ)
      → q'.running ≡ q.running
      → q'.ready ≡ before ++ x ∷ after'
      → Moved x before after q q'
  advances :
      (b : ℕ) (bs after' : List ℕ)
      → before ≡ b ∷ bs
      → q'.ready ≡ bs ++ x ∷ after'
      → Moved x before after q q'
  runs : q'.running ≡ anchor_entry x → Moved x before after q q'

append-assoc_one :
    (before after : List ℕ) (x y : ℕ)
    → (before ++ x ∷ after) ++ y ∷ [] ≡ before ++ x ∷ (after ++ y ∷ [])
append-assoc_one [] after x y = refl
append-assoc_one (b ∷ before) after x y = ap (λ xs. b ∷ xs) (append-assoc_one before after x y)

module _ {idle : ℕ} {q q' : Queues} {x : ℕ} where
  Move-Moved :
      (before after : List ℕ) {e : Event}
      → Move idle q q' e
      → q.ready ≡ before ++ x ∷ after
      → Moved x before after q q'
  unfolding next_task remaining
  Move-Moved before after (stay e may same) w =
      waits after (ap (λ q. q.running) same) (ap (λ q. q.ready) same ∙ w)
  Move-Moved [] after (preempt p ps e same) w =
      runs (ground (arith, ap (λ q. q.running) same, e, w))
  Move-Moved (b ∷ bs) after (preempt p ps e same) w =
      let rest : ps ≡ bs ++ x ∷ after = ap remaining (sym e ∙ w) in
      advances b bs (after ++ anchor q.running ∷ []) refl (
        ap (λ q. q.ready) same
        ∙ ap (λ xs. xs ++ anchor q.running ∷ []) rest
        ∙ append-assoc_one bs after x (anchor q.running))
  Move-Moved [] after (block ne same) w = runs (ap (λ q. q.running) same ∙ ap (next_task idle) w)
  Move-Moved (b ∷ bs) after (block ne same) w =
      advances b bs after refl (ap (λ q. q.ready) same ∙ ap remaining w)
  Move-Moved before after (wake c i same) w =
      waits (after ++ c ∷ []) (ap (λ q. q.running) same)
        (ap (λ q. q.ready) same ∙ ap (λ xs. xs ++ c ∷ []) w ∙ append-assoc_one before after x c)
  Move-Moved before after (spawn p ps e same) w =
      waits (after ++ p ∷ []) (ap (λ q. q.running) same)
        (ap (λ q. q.ready) same ∙ ap (λ xs. xs ++ p ∷ []) w ∙ append-assoc_one before after x p)
  Move-Moved before after (lose p ps e same) w =
      waits after (ap (λ q. q.running) same) (ap (λ q. q.ready) same ∙ w)
  Move-Moved [] after (leave ne same) w = runs (ap (λ q. q.running) same ∙ ap (next_task idle) w)
  Move-Moved (b ∷ bs) after (leave ne same) w =
      advances b bs after refl (ap (λ q. q.ready) same ∙ ap remaining w)

-- While the running task runs on, the first ready task stays the first.
pub Move-keeps :
    {idle p : ℕ} {ps : List ℕ} {q q' : Queues} {e : Event}
    → Move idle q q' e
    → q.ready ≡ p ∷ ps
    → anchor_entry p ≢ q.running
    → q'.running ≡ q.running
    → (ps' : List ℕ) × (q'.ready ≡ p ∷ ps')
unfolding next_task
Move-keeps {ps = ps} (stay e may same) w ne run = (ps, ap (λ q. q.ready) same ∙ w)
Move-keeps {q = q} (preempt p' ps' e same) w ne run =
    absurd (ne (ap (next_task 0) (sym w ∙ e) ∙ sym (ap (λ q. q.running) same) ∙ run))
Move-keeps {idle} (block other same) w ne run =
    absurd (ne (sym (ap (next_task idle) w) ∙ sym (ap (λ q. q.running) same) ∙ run))
Move-keeps {ps = ps} (wake c i same) w ne run =
    (ps ++ c ∷ [], ap (λ q. q.ready) same ∙ ap (λ xs. xs ++ c ∷ []) w)
Move-keeps {ps = ps} (spawn p' ps' e same) w ne run =
    (ps ++ p' ∷ [], ap (λ q. q.ready) same ∙ ap (λ xs. xs ++ p' ∷ []) w)
Move-keeps {ps = ps} (lose p' ps' e same) w ne run = (ps, ap (λ q. q.ready) same ∙ w)
Move-keeps {idle} (leave other same) w ne run =
    absurd (ne (sym (ap (next_task idle) w) ∙ sym (ap (λ q. q.running) same) ∙ run))

module _ {l : Layout} (v : IsLayout l) where
  -- From a safe state, a task in the ready queue runs before the running task has changed more
  -- often than there are tasks before it in the queue, whatever the steps, which leave out the
  -- release of the keys d, n and c, page faults, the call of number 21 and a write that does not
  -- return.
  pub ready-runs_in :
      (u : ℕ) (ks : List Kernel) {k : Kernel} {live : ℕ → Bool} {rings : ℕ → List ℕ} {t : ℕ}
      (before after : List ℕ)
      → Safe l live k rings t
      → rings l.readyq ≡ before ++ anchor u ∷ after
      → Trail l k ks
      → length before < switches t ks
      → runs_in u ks ≡ true
  unfolding switches runs_in
  ready-runs_in u [] before after s w path more = absurd (ground arith)
  ready-runs_in u (k' ∷ ks) {t = t} before after s w (step _ e _ _ one path) more =
      let a = Step-After v s one in
      let now = owner-running v a.safe in
      elim (Move-Moved before after a.move w) [
        | waits after' same w' ↦
            let later = ready-runs_in u ks before after' a.safe w' path in
            ground (arith, same, now, later)
        | advances b bs after' cut w' ↦
            let later = ready-runs_in u ks bs after' a.safe w' path in
            ground (arith, now, later, ap length cut)
        | runs here ↦ ground (arith, here, now)
      ]
