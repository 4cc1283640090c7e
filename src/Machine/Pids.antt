-- ===== src/Machine/Pids.antt =====
-- PIDs tell tasks apart.
use so.Common.{ℕ, ◌+◌, ◌*◌, ◌^◌, ◌≤◌, ◌<◌, ◌≡◌, inl, inr, Bool, true, List, arith, sym, ◌∙◌}
use mathlib.Core.Path.{subst}
use so.Kernel.{Layout, Kernel, childs}
use so.Kernel.Placement.{IsLayout}
use so.Sched.Invariant.{is_task}
use so.Machine.{Safe, Births, owner}
use so.Machine.Steps.{Step-After, Reach, start, next, owner-running}

-- Two tasks in use have different PIDs, none of them above the last one that was given.
pub record HasPids (l : Layout) (live : ℕ → Bool) (k : Kernel) : Type 0 where
  pub below : (u : ℕ) → is_task l u ≡ true → live (childs u) ≡ true → (k.tasks u).pid ≤ k.last_pid
  pub distinct :
      (u w : ℕ)
      → is_task l u ≡ true
      → is_task l w ≡ true
      → live (childs u) ≡ true
      → live (childs w) ≡ true
      → (k.tasks u).pid ≡ (k.tasks w).pid
      → u ≡ w

Births-HasPids :
    {l : Layout} {live live' : ℕ → Bool} {k k' : Kernel}
    → HasPids l live k
    → Births l live live' k k'
    → k.last_pid + 2 < 2 ^ 32
    → HasPids l live' k'
Births-HasPids {l} {live} {live'} {k} {k'} h b small = record {
  below = λ u task on. elim (b.same u task on) [
    | inl old ↦ omega (arith, h.below u task old.0, old.1, b.counter small)
    | inr new ↦ (new.1 small).1
  ];
  distinct = λ u w task task' on on' same. elim (b.same u task on) [
    | inl old ↦ elim (b.same w task' on') [
      | inl old' ↦ h.distinct u w task task' old.0 old'.0 (sym old.1 ∙ same ∙ old'.1)
      | inr new' ↦ absurd (omega (arith, old.1, same, h.below u task old.0, new'.1 small))
    ]
    | inr new ↦ elim (b.same w task' on') [
      | inl old' ↦ absurd (omega (arith, old'.1, same, h.below w task' old'.0, new.1 small))
      | inr new' ↦ b.single u w task task' on on' new.0 new'.0
    ]
  ];
}

-- How many steps there have been.
unfoldable pub steps : {l : Layout} {k₀ k : Kernel} → Reach l k₀ k → ℕ
steps start = 0
steps (next k e k' before one) = steps before + 1

module _ {l : Layout} (v : IsLayout l) where
  -- From a safe kernel in which PIDs tell the tasks in use apart, for as many steps as the counter
  -- of PIDs does not wrap, the kernel stays safe and PIDs tell the tasks in use apart.
  pub Reach-HasPids :
      {k₀ k : Kernel} {live : ℕ → Bool} {rings : ℕ → List ℕ} {t : ℕ}
      → Safe l live k₀ rings t
      → HasPids l live k₀
      → (path : Reach l k₀ k) → k₀.last_pid + 2 * steps path < 2 ^ 32
      → (live' : ℕ → Bool) × (rings' : ℕ → List ℕ) × Safe l live' k rings' (owner k)
        × HasPids l live' k
        × (k.last_pid ≤ k₀.last_pid + 2 * steps path)
  unfolding steps
  Reach-HasPids {live = live} {rings = rings} s h start small =
      (live, rings, subst (Safe l live _ rings) (sym (owner-running v s)) s, h, omega arith)
  Reach-HasPids s h (next k e k' before one) small =
      let (live, rings, now, pids, count) = Reach-HasPids s h before (omega arith) in
      let a = Step-After v now one in
      let room : k.last_pid + 2 < 2 ^ 32 = omega (arith, count) in
      (
        a.live,
        a.rings',
        subst (Safe l a.live k' a.rings') (sym (owner-running v a.safe)) a.safe,
        Births-HasPids pids a.births room,
        omega (arith, count, a.births.counter room),
      )
