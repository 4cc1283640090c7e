-- ===== src/Machine/Exit.antt =====
-- `sys_exit` on the whole kernel.
use mathlib.Core.Path.{subst}
use so.Common.{ℕ, ◌+◌, ◌≡◌, refl, ◌≢◌, Bool, List, arith, ap, sym, ◌∙◌}
use so.Mm.Paging.{nr_tasks}
use so.Kernel.{Layout, Kernel, childs}
use so.Kernel.Placement.{IsLayout, InUnion}
use so.Sched.{sched_next_rr}
use so.Sched.Invariant.{IsResumable, current-running}
use so.Sched.Few.{length-le-nr_tasks}
use so.Sched.Heads.{without}
use so.Sched.Kept.{sched_next_rr-Kept}
use so.Sched.Switch.{sched_next_rr-Inv, after_pick, next_task}
use so.Sys.{sys_exit, leave_parent}
use so.Sys.Adopt.{Adopted, HasIdle, adopt_loop-Adopted}
use so.Sys.Exit.{Gone-Runs}
use so.Sys.Gone.{freed-Gone}
use so.Sys.Leave.{Gone, leave_parent-Left, orphaned, freed}
use so.Sys.Family.{Family-pick, task-is_childs, childs-is_head}
use so.Sys.Still.{orphaned-Still}
use so.Machine.NoBirths.{no-Births}
use so.Machine.{Safe, After, on_exit, leave}

module _ {l : Layout} (v : IsLayout l) {k : Kernel} {live : ℕ → Bool} {rings : ℕ → List ℕ} {t : ℕ}
    (s : Safe l live k rings t) (ne : t ≢ k.idle_task) where
  -- The lists in which the next task is chosen.
  pub gone : (r₃ : ℕ → List ℕ) × Gone l live t k rings (freed l t k) r₃
  gone =
      let (r₁, left) = leave_parent-Left v s.inv s.family in
      let idle₁ : (leave_parent t k).idle_task ≡ k.idle_task = ap (λ k. k.idle_task) left.others in
      let own = childs-is_head v live t s.inv.runs.task s.family.running in
      let to : HasIdle l live (childs t) (leave_parent t k) = record {
        field = rw idle₁ (task-is_childs v k.idle_task s.inv.runs.idle);
        head = rw idle₁ (childs-is_head v live k.idle_task s.inv.runs.idle s.family.idle);
        other = rw idle₁ (omega arith);
      } in
      let (r₂, a) =
        adopt_loop-Adopted v (childs t) (task-is_childs v t s.inv.runs.task) own (nr_tasks + 1)
          (leave_parent t k) r₁ left.queued to
          (omega (arith, length-le-nr_tasks left.queued (childs t) own)) in
      (
        _,
        freed-Gone v s.inv s.family (λ e. ne (sym e)) left
            (subst
              (λ i.
                Adopted l live (childs t) (childs i) (r₁ (childs t)) (leave_parent t k) r₁
                  (orphaned t k) r₂)
              idle₁ a),
      )

  module _ (entered : InUnion t k.esp) (ebp : ℕ) (save : IsResumable t ebp) where
    pub sys_exit_at : sys_exit l ebp k ≡ sched_next_rr l ebp (freed l t k)
    unfolding sys_exit
    sys_exit_at = rw (current-running v k t s.inv.runs.task entered) refl

    Gone-After :
        (r₃ : ℕ → List ℕ)
        → Gone l live t k rings (freed l t k) r₃
        → After l live k rings t on_exit (sched_next_rr l ebp (freed l t k))
    Gone-After r₃ g =
        let idle₃ : (freed l t k).idle_task ≡ k.idle_task = ap (λ k. k.idle_task) g.others in
        let kept = sched_next_rr-Kept l ebp (freed l t k) in
        let next =
          sched_next_rr-Inv v (Gone-Runs v s.inv (λ e. ne (sym e)) g)
            (rw (ap (λ k. k.esp) g.others) entered) ebp save in
        record {
          live = without (childs t) live;
          rings' = after_pick l r₃;
          running = next_task (freed l t k).idle_task (r₃ l.readyq);
          safe = record {
            inv = next;
            family =
                Family-pick v g.family g.queued (sched_next_rr l ebp (freed l t k)) next.runs.queued
                  kept;
          };
          births =
              no-Births (λ u. kept.pids u ∙ (orphaned-Still t k).pids u)
                (kept.last_pid ∙ (orphaned-Still t k).last_pid) (λ u on. ground arith);
          move = leave ne (
              ground
                (arith, idle₃, g.ready, g.blocked, g.free, v.ready_ne_free, v.ready_ne_blocked));
        }

    -- On the stack of the running task of a safe kernel, which is not idle, with a frame pointer
    -- that stands there, `sys_exit` leaves the kernel safe, puts the task at the end of the free
    -- queue, and gives the processor to the first ready task or idle.
    pub sys_exit-After : After l live k rings t on_exit (sys_exit l ebp k)
    sys_exit-After = rw sys_exit_at (Gone-After gone.0 gone.1)
