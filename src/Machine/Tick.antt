-- ===== src/Machine/Tick.antt =====
-- The clock interrupt on the whole kernel.
use so.Common.{
  wadd, ℕ, ◌≡◌, refl, Bool, true, false, List, [], ◌∷◌, ◌++◌, arith, update, has, has-append, ap,
}
use so.Io.{Screen}
use so.Kernel.{Layout, Kernel, anchor, anchor_entry}
use so.Kernel.Placement.{IsLayout, InUnion}
use so.Sched.Invariant.{IsResumable, Inv}
use so.Sched.Kept.{Kept, scheduler-Kept}
use so.Sched.Tick.{round, expires}
use so.Interrupt.{clock_service}
use so.Interrupt.Clock.{clock_service-Inv}
use so.Sys.Family.{Family-queues, queue-not-is_childs, ready-live}
use so.Machine.NoBirths.{no-Births}
use so.Machine.{Safe, After, on_tick, stay, preempt}

module _ {l : Layout} (v : IsLayout l) {k : Kernel} {live : ℕ → Bool} {rings : ℕ → List ℕ} {t : ℕ}
    (s : Safe l live k rings t) (show : Screen → Screen) (ebp : ℕ) where
  clock_service-Kept : Kept k (clock_service l show ebp k)
  unfolding clock_service
  clock_service-Kept =
      let c =
        scheduler-Kept l ebp
          (record k { zeos_ticks = wadd k.zeos_ticks 1; screen = show k.screen }) in
      record {
        parents = c.parents;
        dirs = c.dirs;
        pids = c.pids;
        last_pid = c.last_pid;
        idle = c.idle;
        memory = c.memory;
      }

  stay-After :
      Inv l live (clock_service l show ebp k) rings t
      → After l live k rings t on_tick (clock_service l show ebp k)
  stay-After inv = record {
    live = live;
    rings' = rings;
    running = t;
    safe = record {
      inv = inv;
      family =
          Family-queues v s.family inv.runs.queued clock_service-Kept.parents
            clock_service-Kept.dirs clock_service-Kept.idle (λ hd c. refl) s.family.running
            s.family.ready s.family.blocked (λ u i. i);
    };
    births = no-Births clock_service-Kept.pids clock_service-Kept.last_pid (λ u on. on);
    move = stay on_tick refl refl;
  }

  -- The family after a round: a tick that does not preempt, or one that does.
  round-Safe :
      (b : Bool) (xs : List ℕ)
      → rings l.readyq ≡ xs
      → let w = round l b rings t xs in
        Inv l live (clock_service l show ebp k) w.0 w.1
        → After l live k rings t on_tick (clock_service l show ebp k)
  unfolding round
  round-Safe b [] e inv = stay-After inv
  round-Safe false (p ∷ ps) e inv = stay-After inv
  round-Safe true (p ∷ ps) e inv = record {
    live = live;
    rings' = update rings l.readyq (ps ++ anchor t ∷ []);
    running = anchor_entry p;
    safe = record {
      inv = inv;
      family =
          Family-queues v s.family inv.runs.queued clock_service-Kept.parents
            clock_service-Kept.dirs clock_service-Kept.idle
            (λ hd c. ground (arith, queue-not-is_childs v l.readyq))
            (ready-live v s.family s.inv.runs.queued p (rw e (ground arith))).1
            (λ u h i. ground (
              arith,
              has-append (anchor u) ps (anchor t ∷ []),
              s.family.ready u h,
              s.family.running,
              ap (has (anchor u)) e,
            ))
            (λ u h i. ground (arith, s.family.blocked u h, v.ready_ne_blocked))
            (λ u i. ground (arith, v.ready_ne_free));
    };
    births = no-Births clock_service-Kept.pids clock_service-Kept.last_pid (λ u on. on);
    move = preempt p ps e (ground (arith, v.ready_ne_blocked, v.ready_ne_free));
  }

  -- On the stack of the running task of a safe kernel, with a frame pointer that stands there, the
  -- clock interrupt leaves the kernel safe and the queues as they are, or lets the first ready task
  -- run and puts the running one at the end of the ready queue.
  pub clock_service-After :
      InUnion t k.esp
      → IsResumable t ebp
      → After l live k rings t on_tick (clock_service l show ebp k)
  clock_service-After entered save =
      round-Safe (expires k) (rings l.readyq) refl (clock_service-Inv v show ebp s.inv entered save)
