-- ===== src/Interrupt/Clock.antt =====
-- The clock interrupt and the invariant of the scheduler.
use so.Common.{ℕ, refl, Bool, List}
use so.Io.{Screen}
use so.Kernel.{Layout, Kernel}
use so.Kernel.Placement.{InUnion, IsLayout}
use so.Sched.Invariant.{IsResumable, Inv}
use so.Sched.Switch.{Runs-mono}
use so.Sched.Tick.{round, expires, scheduler-Inv}
use so.Interrupt.{clock_service}

-- A clock interrupt on the stack of the running task, with a frame pointer to resume it from, keeps
-- the invariant of the scheduler and moves the queues and the running task
-- as `round` does, whatever `zeos_show_clock` does to the screen.
pub clock_service-Inv :
    {l : Layout} (v : IsLayout l) {k : Kernel} {live : ℕ → Bool} {rings : ℕ → List ℕ} {t : ℕ}
    (show : Screen → Screen) (ebp : ℕ)
    → Inv l live k rings t
    → InUnion t k.esp
    → IsResumable t ebp
    → let w = round l (expires k) rings t (rings l.readyq) in
      Inv l live (clock_service l show ebp k) w.0 w.1
unfolding clock_service
clock_service-Inv v show ebp inv entered save =
    scheduler-Inv v
      (record {
        runs = Runs-mono inv.runs (refl, refl, refl, refl, refl) inv.runs.queued (λ p hd i. i);
        loose = inv.loose;
      })
      entered ebp save
