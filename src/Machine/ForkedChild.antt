-- ===== src/Machine/ForkedChild.antt =====
-- The task that `sys_fork` makes: where it goes on, and what is on its stack.
use mathlib.Core.Path.{subst}
use so.Common.{
  ℕ, ◌+◌, ◌-◌, ◌/◌, ◌^◌, ◌<◌, ◌≤◌, ◌≡◌, refl, ◌≢◌, Bool, true, List, [], ◌∷◌, arith, wneg, ap, sym,
  ◌∙◌,
}
use so.Mm.Paging.{num_pag_data}
use so.ListHead.Ring.{Ring}
use so.ListHead.Walk.{is_nil, Ring-list_first}
use so.Kernel.{Layout, Kernel, anchor_entry, stack_at, kernel_stack_size, task_size}
use so.Kernel.Placement.{IsLayout, InUnion}
use so.Sched.{allocate_dir, new_pid, get_dir, get_task_pt}
use so.Sched.Queues.{is_head, is_field}
use so.Sched.Invariant.{is_task, IsResumable, current-running}
use so.Sys.{
  sys_fork, fork_into, finish_fork, start_child, copy_union, pid_loop, ebp_words, Forked, copied,
  no_frame, fork_data, share_code,
}
use so.Sys.Child.{child-is_task}
use so.Machine.{Safe}
use so.Sys.Still.{pid_loop-others}
use so.Machine.Fork.{copy, empty_free}

-- The stack word where the child's stack pointer stands.
abbrev pub child_top : ℕ → ℕ → ℕ
child_top t ebp = kernel_stack_size - 1 - ebp_words t ebp

-- `u` is a child of `t`, with a PID that is not its place in the array; `inner_task_switch` pops a
-- frame pointer of 0 and returns to `ret_from_fork`; the rest of its stack is its parent's, and the
-- stacks of the others are as they were.
pub record Started (l : Layout) (t u ebp pid : ℕ) (k k' : Kernel) : Type 0 where
  pub pid_eq : (k'.tasks u).pid ≡ pid
  pub not_place : pid ≢ (u - l.task) / task_size
  pub parent : (k'.tasks u).parent ≡ t
  pub kernel_esp : (k'.tasks u).kernel_esp ≡ stack_at u (child_top t ebp)
  pub popped : k'.stack u (child_top t ebp) ≡ 0
  pub returns : k'.stack u (child_top t ebp + 1) ≡ l.ret_from_fork
  pub same : (j : ℕ) → j ≢ child_top t ebp → j ≢ child_top t ebp + 1 → k'.stack u j ≡ k.stack t j
  pub others : (x j : ℕ) → x ≢ u → k'.stack x j ≡ k.stack x j

-- Two PIDs in a row differ, so two rounds are enough.
pid_loop-ne : (pos : ℕ) (k : Kernel) → pos < 2 ^ 31 → (pid_loop 1 pos k).0 ≢ pos
unfolding pid_loop new_pid
pid_loop-ne pos k small = ground arith

place-small : (l : Layout) (u : ℕ) → is_task l u ≡ true → (u - l.task) / task_size < 2 ^ 31
unfolding is_field
place-small l u h = ground arith

module _ {l : Layout} (v : IsLayout l) {k : Kernel} {live : ℕ → Bool} {rings : ℕ → List ℕ} {t : ℕ}
    (s : Safe l live k rings t) (ebp : ℕ) (save : IsResumable t ebp) (deep : t + 4 ≤ ebp) where
  module _ (p : ℕ) (ps : List ℕ) (first : rings l.freeq ≡ p ∷ ps) where
    abbrev u₀ : ℕ
    u₀ = anchor_entry p

    finish-Started :
        (o : Forked)
        → let r = finish_fork l t u₀ ebp (copy v s ebp save deep p ps first) o in
          r.0 ≢ wneg 1 → Started l t u₀ ebp r.0 k r.1
    unfolding finish_fork start_child copy_union allocate_dir
    finish-Started (no_frame pag m) ok = absurd (ok refl)
    finish-Started (copied m) ok =
        let k₁ = copy v s ebp save deep p ps first in
        let k₀ = record k₁ { memory = m; cr3 = get_dir t k₁ } in
        let place = (u₀ - l.task) / task_size in
        let o = pid_loop-others 1 place k₀ in
        record {
          pid_eq = ground arith;
          not_place =
              pid_loop-ne place k₀ (place-small l u₀ (child-is_task v s.inv s.family p ps first));
          parent = ground arith;
          kernel_esp = ground arith;
          popped = ground arith;
          returns = ground arith;
          same = λ j a b. ground (arith, ap (λ k. k.stack u₀ j) o);
          others = λ x j ne. ground (arith, ap (λ k. k.stack x j) o);
        }

  module _ (entered : InUnion t k.esp) where
    -- With a free task, `sys_fork` is what follows the loop on the pages of data.
    pub sys_fork-eq :
        (p : ℕ) (ps : List ℕ) (e : rings l.freeq ≡ p ∷ ps)
        → let k₂ = copy v s ebp save deep p ps e in
          let ptn = get_task_pt (anchor_entry p) k₂ in
          let ptc = get_task_pt t k₂ in
          sys_fork l ebp k
          ≡ finish_fork l t
              (anchor_entry p)
              ebp
              k₂
              (fork_data ptn ptc num_pag_data 0 (share_code ptn ptc k₂.memory))
    unfolding sys_fork fork_into is_nil
    sys_fork-eq p ps e =
        let head = Ring-list_first (
          subst (Ring k.links l.freeq) e
            (s.inv.runs.queued.all.ring l.freeq (unfold is_head in ground arith))) in
        rw
          (
            empty_free v s ebp save deep entered (p ∷ ps) e,
            head,
            current-running v k t s.inv.runs.task entered,
          )
          refl

    sys_fork-Started_at :
        (xs : List ℕ)
        → rings l.freeq ≡ xs
        → (sys_fork l ebp k).0 ≢ wneg 1
        → (p : ℕ) × (ps : List ℕ) × (xs ≡ p ∷ ps)
          × Started l t (anchor_entry p) ebp (sys_fork l ebp k).0 k (sys_fork l ebp k).1
    unfolding is_nil
    sys_fork-Started_at [] e ok =
        absurd (ok (unfold sys_fork in rw (empty_free v s ebp save deep entered [] e) refl))
    sys_fork-Started_at (p ∷ ps) e ok =
        let known = sys_fork-eq p ps e in
        (
          p,
          ps,
          refl,
          subst (λ r. Started l t (anchor_entry p) ebp r.0 k r.1) (sym known)
              (finish-Started p ps e _ (λ z. ok (ap (λ r. r.0) known ∙ z))),
        )

    -- On the stack of the running task of a safe kernel, with a frame pointer that stands there
    -- above the first word, a `sys_fork` that does not return -1 makes the first free task a child
    -- of the running one: its PID is the result, and not its place in the array; it goes on at
    -- `ret_from_fork`, on a stack that is otherwise its parent's; all other stacks stay.
    pub sys_fork-Started :
        (sys_fork l ebp k).0 ≢ wneg 1
        → (p : ℕ) × (ps : List ℕ) × (rings l.freeq ≡ p ∷ ps)
          × Started l t (anchor_entry p) ebp (sys_fork l ebp k).0 k (sys_fork l ebp k).1
    sys_fork-Started ok = sys_fork-Started_at (rings l.freeq) refl ok
