-- ===== src/Machine/Quantum.antt =====
-- The quantum of the running task: how long it keeps the processor while others are ready.
use so.Common.{
  ℕ, ◌+◌, ◌≤◌, ◌≡◌, ◌≢◌, sym, refl, Bool, false, List, [], ◌∷◌, arith, has, if◌then◌else◌, is_neg,
  wsub, ap, ◌∙◌, Bool-cases, inl, inr,
}
use so.Io.{Screen}
use so.Kernel.{Layout, Kernel, current, place, anchor, anchor_entry}
use so.Kernel.Placement.{IsLayout, InUnion}
use so.Sched.{allocate_dir, get_dir}
use so.Sched.Invariant.{IsResumable, readyq-is_head}
use so.Sched.Tick.{round, expires, scheduler-quantum, round-running}
use so.Sched.Switch.{Runs-mono, first-task}
use so.Machine.Steps.{
  Step, move_esp, tick, write, key, block, unblock, fork, exit, owner-running, Step-After,
  owner-Inv,
}
use so.Machine.Fair.{Move-keeps, Trail, done, step, switches}
use so.ListHead.{list_empty, list_first, list_del}
use so.Sched.Kept.{sched_next_rr-quantum}
use so.Interrupt.{clock_service}
use so.Interrupt.Clock.{clock_service-Inv}
use so.Sys.{
  sys_fork, sys_exit, fork_into, finish_fork, start_child, copy_union, Forked, copied, no_frame,
}
use so.Sys.Still.{pid_loop-others, sys_block-Still, sys_unblock-Still, orphaned-Still}
use so.Machine.{Safe, owner, Event, on_tick, on_block, on_unblock, on_fork, on_exit, on_other}
use so.Machine.Paged.{keyboard_service-Still}
use so.Sys.Write.{sys_write-screen}

module _ {l : Layout} (v : IsLayout l) {k : Kernel} {live : ℕ → Bool} {rings : ℕ → List ℕ} {t : ℕ}
    (s : Safe l live k rings t) (show : Screen → Screen) (ebp : ℕ) (entered : InUnion t k.esp)
    (save : IsResumable t ebp) (p : ℕ) (ps : List ℕ) (some : rings l.readyq ≡ p ∷ ps) where
  -- On the stack of the running task of a safe kernel, with a frame pointer that stands there and a
  -- task that is ready, the clock interrupt takes one off the quantum and never renews it; it lets
  -- the first ready task run if the quantum falls below 0, and else the running one.
  pub clock_service-quantum :
      let k' = clock_service l show ebp k in
      (k'.quantum_ticks ≡ wsub k.quantum_ticks 1)
      × (owner k' ≡ (if expires k then anchor_entry p else t))
  unfolding clock_service
  clock_service-quantum = (
    scheduler-quantum v
        (record {
          runs =
              Runs-mono s.inv.runs (refl, refl, refl, refl, refl) s.inv.runs.queued (λ p hd i. i);
          loose = s.inv.loose;
        })
        entered ebp save p ps some,
    owner-Inv v (clock_service-Inv v show ebp s.inv entered save)
        ∙ ap (λ xs. (round l (expires k) rings t xs).1) some
        ∙ round-running l (expires k) rings t p ps,
  )

-- How many more ticks the counter quantum_ticks lets the running task have.
abbrev pub budget : ℕ → ℕ
budget quantum = if is_neg (wsub quantum 1) then 0 else wsub quantum 1 + 1

abbrev is_tick : Event → ℕ
is_tick on_tick = 1
is_tick on_block = 0
is_tick on_unblock = 0
is_tick on_fork = 0
is_tick on_exit = 0
is_tick on_other = 0

same-budget : (q q' : ℕ) → q' ≡ q → 0 + budget q' ≤ budget q
same-budget q q' e = omega (arith, ap budget e)

finish_fork-quantum :
    (l : Layout) (t new_s ebp : ℕ) (k : Kernel) (o : Forked)
    → (finish_fork l t new_s ebp k o).1.quantum_ticks ≡ k.quantum_ticks
unfolding finish_fork start_child
finish_fork-quantum l t new_s ebp k (no_frame pag m) = refl
finish_fork-quantum l t new_s ebp k (copied m) =
    ap (λ k. k.quantum_ticks)
      (pid_loop-others 1 (place l new_s) (record k { memory = m; cr3 = get_dir t k }))

sys_fork-quantum :
    (l : Layout) (ebp : ℕ) (k : Kernel) → (sys_fork l ebp k).1.quantum_ticks ≡ k.quantum_ticks
unfolding sys_fork fork_into copy_union allocate_dir
sys_fork-quantum l ebp k = elim (Bool-cases (list_empty l.freeq k.links)) [
  | inl e ↦ rw e refl
  | inr o ↦
      let p = list_first l.freeq k.links in
      let new = anchor_entry p in
      rw o (
        finish_fork-quantum l (current k) new ebp
          (allocate_dir l new
            (copy_union (current k) new (record k { links = list_del p k.links })))
          _)
]

sys_exit-quantum :
    (l : Layout) (ebp : ℕ) (k : Kernel) → (sys_exit l ebp k).quantum_ticks ≡ k.quantum_ticks
unfolding sys_exit
sys_exit-quantum l ebp k = sched_next_rr-quantum l ebp _ ∙ (orphaned-Still (current k) k).quantum

-- The quantum after a tick that is not the last one.
tick-budget : (q q' : ℕ) → q' ≡ wsub q 1 → is_neg (wsub q 1) ≡ false → 1 + budget q' ≤ budget q
tick-budget q q' e small =
    let kept : budget q ≡ wsub q 1 + 1 = ground arith in
    let now : budget q' ≤ wsub q 1 = ground arith in omega arith

module _ {l : Layout} (v : IsLayout l) {live : ℕ → Bool} {rings : ℕ → List ℕ} (p : ℕ) (ps : List ℕ)
    (some : rings l.readyq ≡ p ∷ ps) where
  -- A step that leaves the running task running spends its budget if it is a tick.
  Step-budget :
      {k k' : Kernel} {e : Event} {t : ℕ}
      → Safe l live k rings t
      → owner k ≡ t
      → anchor_entry p ≢ t
      → Step l k e k'
      → owner k' ≡ t
      → is_tick e + budget k'.quantum_ticks ≤ budget k.quantum_ticks
  Step-budget s o ne (move_esp k esp inside) same = omega arith
  Step-budget s o ne (tick k show ebp i r) same =
      let now = clock_service-quantum v s show ebp (rw (← o) i) (rw (← o) r) p ps some in
      tick-budget k.quantum_ticks _ now.0 (elim (Bool-cases (expires k)) [
        | inl x ↦ absurd (ne (sym (ground (arith, now.1))))
        | inr x ↦ x
      ])
  Step-budget s o ne (write k fd buffer size buff low mem n k' e) same =
      same-budget _ _
        (ap (λ k. k.quantum_ticks) (sys_write-screen fd buffer size buff low mem k n k' e))
  Step-budget s o ne (key k beyond ebp c plain) same =
      same-budget _ _ (keyboard_service-Still l k beyond ebp c plain).quantum
  Step-budget s o ne (block k ebp i r other) same =
      same-budget _ _ (sys_block-Still l k ebp).quantum
  Step-budget s o ne (unblock k pid i) same = same-budget _ _ (sys_unblock-Still l k pid).quantum
  Step-budget s o ne (fork k ebp i r d) same = same-budget _ _ (sys_fork-quantum l ebp k)
  Step-budget s o ne (exit k ebp i r other) same = same-budget _ _ (sys_exit-quantum l ebp k)

-- The number of ticks in a sequence of steps.
unfoldable pub ticks : {l : Layout} {k : Kernel} {ks : List Kernel} → Trail l k ks → ℕ
ticks (done k) = 0
ticks (step k e k' ks one path) = is_tick e + ticks path

module _ {l : Layout} (v : IsLayout l) where
  -- A task in a queue is not the running one.
  ready-ne_running :
      {k : Kernel} {live : ℕ → Bool} {rings : ℕ → List ℕ} {t : ℕ} (p : ℕ) (ps : List ℕ)
      → Safe l live k rings t
      → rings l.readyq ≡ p ∷ ps
      → anchor_entry p ≢ t
  ready-ne_running {live = live} {rings = rings} {t = t} p ps s w e =
      let at : anchor t ≡ p = ap anchor (sym e) ∙ (first-task v s.inv.runs p ps w).1 in
      ground (
        arith,
        s.inv.loose l.readyq (readyq-is_head v live),
        ap (λ a. has a (rings l.readyq)) at,
        ap (has p) w,
      )

  -- From a safe kernel in which a task is ready, while the running task stays the same there are at
  -- most as many ticks as the counter quantum_ticks allows at the start, whichever task it was set
  -- for. The steps leave out the release of the keys d, n and c, page faults, the call of number 21
  -- and a write that does not return.
  pub ticks-le_budget :
      (ks : List Kernel) {k : Kernel} {live : ℕ → Bool} {rings : ℕ → List ℕ} {t : ℕ} (p : ℕ)
      (ps : List ℕ)
      → Safe l live k rings t
      → rings l.readyq ≡ p ∷ ps
      → (path : Trail l k ks) → switches t ks ≡ 0
      → ticks path ≤ budget k.quantum_ticks
  unfolding ticks switches
  ticks-le_budget [] p ps s w (done k) still = omega arith
  ticks-le_budget (k' ∷ ks) {t = t} p ps s w (step k e _ _ one path) still =
      let a = Step-After v s one in
      let now = owner-running v a.safe in
      let same : owner k' ≡ t = ground arith in
      let ne = ready-ne_running p ps s w in
      let (ps', w') = Move-keeps a.move w ne (sym now ∙ same) in
      let later = ticks-le_budget ks p ps' a.safe w' path (ground (arith, now)) in
      let spent = Step-budget v p ps w s (owner-running v s) ne one same in
      omega (arith, later, spent)
