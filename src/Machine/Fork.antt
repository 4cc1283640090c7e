-- ===== src/Machine/Fork.antt =====
-- `sys_fork` on the whole kernel.
use mathlib.Core.Path.{subst}
use so.Common.{
  ℕ, ◌+◌, ◌≤◌, ◌≡◌, ◌⊎◌, inl, inr, refl, Bool, Bool-cases, ◌==◌, List, [], ◌∷◌, arith, ap,
}
use so.ListHead.{list_del, list_empty}
use so.ListHead.Ring.{Ring}
use so.ListHead.Walk.{is_nil, list_empty-is_nil, Ring-list_first}
use so.Mm.Paging.{Memory}
use so.Kernel.{Layout, Kernel, place}
use so.Kernel.Placement.{IsLayout, InUnion}
use so.Sched.{get_dir, allocate_dir}
use so.Sched.Queues.{is_head}
use so.Sched.Invariant.{IsResumable, current-running}
use so.Sys.{sys_fork, fork_into, finish_fork, start_child, copy_union, Forked, copied, no_frame}
use so.Sys.Still.{pid_loop-others, pid_loop-counter}
use so.Sys.Child.{copied_heads, child-ne_running, copied-Queued, entered-Queued}
use so.Machine.{Safe, After, on_fork}
use so.Machine.Same.{Same-refl, Same-After}
use so.Machine.Lost.{But, c, lost-After}
use so.Machine.Spawned.{spawned-After}

module _ {l : Layout} (v : IsLayout l) {k : Kernel} {live : ℕ → Bool} {rings : ℕ → List ℕ} {t : ℕ}
    (s : Safe l live k rings t) (ebp : ℕ) (save : IsResumable t ebp) (deep : t + 4 ≤ ebp) where
  module _ (p : ℕ) (ps : List ℕ) (first : rings l.freeq ≡ p ∷ ps) where
    -- The kernel with the copy of the union.
    abbrev pub copy : Kernel
    copy =
        allocate_dir l (c v s p ps first)
          (copy_union t (c v s p ps first) (record k { links = list_del p k.links }))

    copy-But :
        (m : Memory) (cr3 : ℕ)
        → (cr3 ≡ k.cr3) ⊎ (cr3 ≡ (k.tasks t).dir)
        → But l t (c v s p ps first) k (record copy { memory = m; cr3 = cr3 })
    unfolding allocate_dir copy_union
    copy-But m cr3 which = record {
      cr3 = which;
      counter = λ small. ground arith;
      dir = ground arith;
      esp = refl;
      esp0 = refl;
      idle = refl;
      tasks = λ u ne. ground arith;
      quantum = ground (arith, s.inv.runs.quanta t s.inv.runs.task);
    }

    copy-dir : get_dir t copy ≡ (k.tasks t).dir
    unfolding get_dir allocate_dir copy_union
    copy-dir = ground (arith, child-ne_running v s.inv s.family p ps first)

    copy-links : copy.links ≡ copied_heads t (c v s p ps first) (list_del p k.links)
    unfolding allocate_dir copy_union
    copy-links = refl

    start-After :
        (m : Memory) (cr3 : ℕ)
        → (cr3 ≡ k.cr3) ⊎ (cr3 ≡ (k.tasks t).dir)
        → After l live k rings t on_fork
            (start_child l t (c v s p ps first) ebp (record copy { memory = m; cr3 = cr3 })).1
    unfolding start_child allocate_dir copy_union
    start-After m cr3 which =
        let k₀ = record copy { memory = m; cr3 = cr3 } in
        let place₀ = place l (c v s p ps first) in
        let o = pid_loop-others 1 place₀ k₀ in
        spawned-After v s p ps first
          (record {
            esp = ap (λ k. k.esp) o;
            esp0 = ap (λ k. k.esp0) o;
            idle = ap (λ k. k.idle_task) o;
            tasks =
                λ u ne. ground (arith, ap (λ k. k.tasks u) o, (copy-But m cr3 which).tasks u ne);
            cr3 = rw (ap (λ k. k.cr3) o) which;
            counter = λ small. ground (arith, pid_loop-counter place₀ k₀ small);
            dir =
                ground
                  (arith, ap (λ k. (k.tasks (c v s p ps first)).dir) o, (copy-But m cr3 which).dir);
            quantum = ground (
              arith,
              ap (λ k. (k.tasks (c v s p ps first)).quantum) o,
              (copy-But m cr3 which).quantum,
            );
          })
          (ground arith) (ground arith) (λ small. ground (arith, pid_loop-counter place₀ k₀ small))
          (entered-Queued v s.inv s.family p ps first _
            (rw (ap (λ k. k.links) o) (rw copy-links (copied-Queued v s.inv s.family p ps first))))

    finish-After :
        (o : Forked)
        → After l live k rings t on_fork (finish_fork l t (c v s p ps first) ebp copy o).1
    unfolding finish_fork
    finish-After (no_frame pag m) =
        lost-After v s p ps first
          (copy-But m _ (elim (Bool-cases (pag == 0)) [
            | inl e ↦ rw e (inl (unfold allocate_dir copy_union in refl))
            | inr ne ↦ rw ne (inr copy-dir)
          ]))
          (rw copy-links (copied-Queued v s.inv s.family p ps first))
    finish-After (copied m) = start-After m _ (inr copy-dir)

  module _ (entered : InUnion t k.esp) where
    pub empty_free : (xs : List ℕ) → rings l.freeq ≡ xs → list_empty l.freeq k.links ≡ is_nil xs
    empty_free xs e =
        rw (← e)
          (list_empty-is_nil (s.inv.runs.queued.all.ring l.freeq (unfold is_head in ground arith)))

    sys_fork-After_at :
        (xs : List ℕ) → rings l.freeq ≡ xs → After l live k rings t on_fork (sys_fork l ebp k).1
    unfolding sys_fork fork_into is_nil
    sys_fork-After_at [] e = rw (empty_free [] e) (Same-After s Same-refl on_fork refl)
    sys_fork-After_at (p ∷ ps) e =
        rw
          (
            empty_free (p ∷ ps) e,
            Ring-list_first (
                subst (Ring k.links l.freeq) e
                  (s.inv.runs.queued.all.ring l.freeq (unfold is_head in ground arith))),
            current-running v k t s.inv.runs.task entered,
          )
          (finish-After p ps e _)

    pub sys_fork-After : After l live k rings t on_fork (sys_fork l ebp k).1
    sys_fork-After = sys_fork-After_at (rings l.freeq) refl
