-- ===== src/Machine/NoBirths.antt =====
-- No task comes into use, and PIDs stay.
use so.Common.{ℕ, ◌≡◌, Bool, true, inl, arith}
use so.Kernel.{Layout, Kernel, childs}
use so.Machine.{Births}

pub no-Births :
    {l : Layout} {live live' : ℕ → Bool} {k k' : Kernel}
    → ((u : ℕ) → (k'.tasks u).pid ≡ (k.tasks u).pid)
    → k'.last_pid ≡ k.last_pid
    → ((u : ℕ) → live' (childs u) ≡ true → live (childs u) ≡ true)
    → Births l live live' k k'
no-Births pids last fewer = record {
  same = λ u h on. inl (fewer u on, pids u);
  single = λ u w h h' on on' off off'. absurd (ground (arith, fewer u on));
  counter = λ small. (omega (arith, last), omega (arith, last));
}
