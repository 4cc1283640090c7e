-- ===== src/Machine/Keys.antt =====
-- The keyboard interrupt on the whole kernel.
use Prim.Native.Nat.{bit_and}
use mathlib.Core.Path.{subst}
use so.Common.{
  ◌∉◌, ◌+◌, sym, ℕ, ◌≡◌, ◌≢◌, refl, Bool, true, false, List, arith, ◌||◌, ◌==◌, Bool-cases, inl,
  inr,
}
use so.Interrupt.Keyboard.{IsPlainKey, keyboard_service, map_char}
use so.Kernel.{Layout, Kernel, anchor, task_at}
use so.Kernel.Placement.{IsLayout}
use so.ListHead.{list_for_each}
use so.ListHead.Walk.{Ring-list_for_each}
use so.Mm.Paging.{nr_tasks}
use so.Sched.Few.{length-le-nr_tasks}
use so.Sched.Invariant.{readyq-is_head, blocked-is_head}
use so.Sched.{inner_task_switch}
use so.Sched.Queues.{is_head}
use so.Machine.{Safe, After, owner, on_other}
use so.Machine.Same.{screen-Same, Same-After}

-- A key that is none of d, n and c changes the screen only.
pub keyboard_service-screen :
    (l : Layout) (k : Kernel) (beyond : ℕ → ℕ) (ebp c : ℕ)
    → IsPlainKey beyond c
    → let k' = keyboard_service l beyond ebp c k in k' ≡ record k { screen = k'.screen }
unfolding keyboard_service
keyboard_service-screen l k beyond ebp c plain =
    let key = map_char beyond (bit_and c 0x7F) in
    let no_d : (key == b'd') ≡ false = ground (arith, plain.0) in
    let no_n : (key == b'n') ≡ false = ground (arith, plain.1) in
    let no_c : (key == b'c') ≡ false = ground (arith, plain.2) in
    elim (Bool-cases ((c == 0) || (bit_and c 0x80 == 0))) [
      | inl e ↦ rw e refl
      | inr e ↦ rw (e, no_d, no_n, no_c) refl
    ]

module _ {l : Layout} (v : IsLayout l) {k : Kernel} {live : ℕ → Bool} {rings : ℕ → List ℕ} {t : ℕ}
    (s : Safe l live k rings t) (beyond : ℕ → ℕ) (ebp c : ℕ) where
  -- From a safe state, a key that is none of d, n and c leaves the kernel safe and all queues
  -- alone.
  pub keyboard_service-After :
      IsPlainKey beyond c → After l live k rings t on_other (keyboard_service l beyond ebp c k)
  keyboard_service-After plain =
      subst (After l live k rings t on_other) (sym (keyboard_service-screen l k beyond ebp c plain))
        (Same-After s (screen-Same k _) on_other refl)

  -- What `list_for_each` visits of a queue does not hold the running task.
  running-absent :
      (hd : ℕ) → is_head l live hd ≡ true → anchor t ∉ list_for_each (nr_tasks + 1) hd k.links
  running-absent hd h =
      rw
        (Ring-list_for_each (nr_tasks + 1) (s.inv.runs.queued.all.ring hd h)
          (omega (arith, length-le-nr_tasks s.inv.runs.queued hd h)))
        (ground (arith, s.inv.loose hd h))

  -- From a safe state in which another task than the first one runs, the release of the key d makes
  -- the first one run, and a walk through any of the three queues does not meet the task that ran.
  pub keyboard_service-lost :
      c ≢ 0
      → bit_and c 0x80 ≢ 0
      → map_char beyond (bit_and c 0x7F) ≡ b'd'
      → t ≢ task_at l 0
      → let k' = keyboard_service l beyond ebp c k in
        (owner k' ≡ task_at l 0)
        × (owner k' ≢ t)
        × (anchor t ∉ list_for_each (nr_tasks + 1) l.readyq k'.links)
        × (anchor t ∉ list_for_each (nr_tasks + 1) l.blocked k'.links)
        × (anchor t ∉ list_for_each (nr_tasks + 1) l.freeq k'.links)
  unfolding keyboard_service inner_task_switch owner
  keyboard_service-lost press released d other =
      let on : ((c == 0) || (bit_and c 0x80 == 0)) ≡ false = ground (arith, press, released) in
      let key : (map_char beyond (bit_and c 0x7F) == b'd') ≡ true = ground (arith, d) in
      rw (on, key)
        (
          ground (arith, v.page, v.above),
          ground (arith, v.page, v.above, s.inv.runs.task),
          running-absent l.readyq (readyq-is_head v live),
          running-absent l.blocked (blocked-is_head v live),
          running-absent l.freeq (unfold is_head in ground arith),
        )
