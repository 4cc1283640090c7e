-- ===== src/Sys/Named.antt =====
-- Which child `sys_unblock` takes for a PID.
use so.Common.{
  ℕ, ◌≡◌, refl, ◌≢◌, true, false, List, [], ◌∷◌, none, some, arith, ◌∈◌, ◌==◌, Bool, Bool-cases,
  inl, inr, ap, wneg,
}
use so.Kernel.{Task, Layout, Kernel, anchor, childs, child_anchor, child_anchor_entry}
use so.Kernel.Placement.{InUnion, IsLayout}
use so.Sched.Queues.{is_head}
use so.Sched.Invariant.{Inv}
use so.Sys.{find_child, sys_unblock}
use so.Sys.Wait.{unblocked, sys_unblock_missing, sys_unblock-Inv}

-- Of the entries that a list of children holds, none has the PID.
abbrev pub HasNoPid : ℕ → (ℕ → Task) → List ℕ → Type 0
HasNoPid pid tasks entries = (p : ℕ) → p ∈ entries → (tasks (child_anchor_entry p)).pid ≢ pid

-- The task `c` stands in the list of children, has the PID, and is the only one there with it.
pub record IsNamed (pid : ℕ) (tasks : ℕ → Task) (entries : List ℕ) (c : ℕ) : Type 0 where
  pub member : child_anchor c ∈ entries
  pub same : (tasks c).pid ≡ pid
  pub only : (p : ℕ) → p ∈ entries → (tasks (child_anchor_entry p)).pid ≡ pid → p ≡ child_anchor c

find_child-none :
    (pid : ℕ) (tasks : ℕ → Task) (xs : List ℕ)
    → HasNoPid pid tasks xs
    → find_child pid tasks xs ≡ none
unfolding find_child
find_child-none pid tasks [] out = refl
find_child-none pid tasks (x ∷ xs) out =
    let other : ((tasks (child_anchor_entry x)).pid == pid) ≡ false = ground (arith, out x) in
    rw other (find_child-none pid tasks xs (λ p i. out p (ground arith)))

find_child-some :
    (pid c : ℕ) (tasks : ℕ → Task) (xs : List ℕ)
    → child_anchor c ∈ xs
    → (tasks c).pid ≡ pid
    → ((p : ℕ) → p ∈ xs → (tasks (child_anchor_entry p)).pid ≡ pid → p ≡ child_anchor c)
    → find_child pid tasks xs ≡ some c
unfolding find_child
find_child-some pid c tasks [] i same only = absurd (ground arith)
find_child-some pid c tasks (x ∷ xs) i same only =
    elim (Bool-cases ((tasks (child_anchor_entry x)).pid == pid)) [
      | inl hit ↦
          let e : x ≡ child_anchor c = only x (ground arith) (ground arith) in
          rw hit (ap some (omega (arith, e)))
      | inr miss ↦
          let later : child_anchor c ∈ xs = elim (Bool-cases (child_anchor c == x)) [
            | inl here ↦
                let e : child_anchor_entry x ≡ c = ground arith in
                absurd (ground (arith, same, miss, ap (λ p. (tasks p).pid) e))
            | inr there ↦ ground arith
          ] in
          rw miss (find_child-some pid c tasks xs later same (λ p j. only p (ground arith)))
    ]

module _ {l : Layout} (v : IsLayout l) {k : Kernel} {live : ℕ → Bool} {rings : ℕ → List ℕ} {t : ℕ}
    (inv : Inv l live k rings t) (entered : InUnion t k.esp)
    (head : is_head l live (childs t) ≡ true) where
  -- On the stack of the running task, whose list of children has been initialised, `sys_unblock` of
  -- a PID that no task in the list of children of the running task has returns -1 and changes
  -- nothing.
  pub sys_unblock_stranger :
      (pid : ℕ) → HasNoPid pid k.tasks (rings (childs t)) → sys_unblock l pid k ≡ (wneg 1, k)
  sys_unblock_stranger pid out =
      sys_unblock_missing v inv entered head pid
        (find_child-none pid k.tasks (rings (childs t)) out)

  -- On the stack of the running task, whose list of children has been initialised, `sys_unblock` of
  -- the PID of a blocked child, which no other child has, returns 0, keeps the invariant, and moves
  -- this child to the end of the ready queue; the other lists and the running task stay.
  pub sys_unblock_named :
      (pid c : ℕ)
      → IsNamed pid k.tasks (rings (childs t)) c
      → anchor c ∈ rings l.blocked
      → ((sys_unblock l pid k).0 ≡ 0) × Inv l live (sys_unblock l pid k).1 (unblocked l rings c) t
  sys_unblock_named pid c named waits =
      sys_unblock-Inv v inv entered head pid c
        (find_child-some pid c k.tasks (rings (childs t)) named.member named.same named.only) waits
