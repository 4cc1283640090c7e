-- ===== src/Common/Loop.antt =====
-- Counted loops.
use Prim.Native.Nat.{ℕ, zero, suc, ◌+◌, ◌≤◌, ◌<◌}
use mathlib.Core.Path.{◌≡◌}
use native.Mathlib.Omega.{arith}

-- for (k = start; k < start + rounds; k++) state = step k state: recursion on the rounds left.
unfoldable pub for_range {ℓ} :
    {State : Type ℓ} → (rounds start : ℕ) → (ℕ → State → State) → State → State
for_range zero start step state = state
for_range (suc rounds) start step state = for_range rounds (start + 1) step (step start state)

-- A predicate that each step hands on, at the counters from `start` up to `stop`, holds at the end.
pub for_range_inv {ℓ κ} :
    {State : Type ℓ} (Good : ℕ → State → Type κ) (step : ℕ → State → State) (rounds start stop : ℕ)
    (state : State)
    → start + rounds ≡ stop
    → ((k : ℕ) (now : State) → start ≤ k → k < stop → Good k now → Good (k + 1) (step k now))
    → Good start state
    → Good stop (for_range rounds start step state)
unfolding for_range
for_range_inv Good step zero start stop state whole hand good =
    let done : start ≡ stop = omega arith in rw (← done) good
for_range_inv Good step (suc rounds) start stop state whole hand good =
    for_range_inv Good step rounds (start + 1) stop (step start state) (omega arith)
      (λ k now lo hi. hand k now (omega arith) hi)
      (hand start state (omega arith) (omega arith) good)
