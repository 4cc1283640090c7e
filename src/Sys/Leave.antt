-- ===== src/Sys/Leave.antt =====
-- `sys_exit` up to the choice of the next task: the task leaves its parent, its children go to
-- idle, and it goes to the free queue.
use so.Common.{
  ℕ, ◌+◌, ◌≡◌, refl, ◌≢◌, inl, inr, Bool, false, List, [], ◌∷◌, ◌++◌, arith, ◌∈◌, ◌==◌, update,
  erase, mem_of_mem-erase, mem-erase_of_ne, Bool-cases,
}
use so.ListHead.{null, list_add_tail}
use so.ListHead.Rings.{IsLoose, IsLoose-list_del}
use so.Mm.Paging.{nr_tasks, free_user_pages}
use so.Kernel.{Layout, Kernel, anchor, child_anchor, childs}
use so.Kernel.Placement.{IsLayout}
use so.Sched.Queues.{is_head, is_childs, Queued, Queued-list_del}
use so.Sched.Invariant.{Inv}
use so.Sched.Heads.{without}
use so.Sys.{leave_parent, adopt_loop}
use so.Sys.Family.{Family, task-is_childs, childs-is_head}

-- `t` stands in no list of children any more, and nothing else has changed.
pub record Left (l : Layout) (live : ℕ → Bool) (t : ℕ) (k : Kernel) (rings : ℕ → List ℕ)
    (k' : Kernel) (rings' : ℕ → List ℕ) : Type 0 where
  pub queued : Queued l live k'.links rings'
  pub others : k' ≡ record k { links = k'.links }
  pub loose : IsLoose (is_head l live) rings' (child_anchor t)
  pub queues : (hd : ℕ) → is_childs l hd ≡ false → rings' hd ≡ rings hd
  pub less : (p hd : ℕ) → p ∈ rings' hd → p ∈ rings hd
  pub kept : (p hd : ℕ) → p ∈ rings hd → p ≢ child_anchor t → p ∈ rings' hd

module _ {l : Layout} (v : IsLayout l) {k : Kernel} {live : ℕ → Bool} {rings : ℕ → List ℕ} {t : ℕ}
    (inv : Inv l live k rings t) (f : Family l live k rings t) where
  pub leave_parent-Left : (rings' : ℕ → List ℕ) × Left l live t k rings (leave_parent t k) rings'
  unfolding leave_parent
  leave_parent-Left = elim (Bool-cases ((k.tasks t).parent == null)) [
    | inl none ↦ rw none (
      rings,
      record {
        queued = inv.runs.queued;
        others = refl;
        loose = f.orphan_loose t inv.runs.task f.running (ground arith);
        queues = λ hd c. refl;
        less = λ p hd i. i;
        kept = λ p hd i ne. i;
      },
    )
    | inr some ↦
        let p = (k.tasks t).parent in
        let up = f.parent t inv.runs.task f.running (ground arith) in
        let head = childs-is_head v live p up.0 up.1 in
        rw some (
          update rings (childs p) (erase (child_anchor t) (rings (childs p))),
          record {
            queued = Queued-list_del inv.runs.queued (childs p) head (child_anchor t) up.2;
            others = refl;
            loose = IsLoose-list_del inv.runs.queued.all (childs p) head (child_anchor t) up.2;
            queues = λ hd c. ground (arith, task-is_childs v p up.0);
            less = λ q hd i. ground (arith, mem_of_mem-erase q (child_anchor t) (rings (childs p)));
            kept =
                λ q hd i ne. ground (arith, mem-erase_of_ne q (child_anchor t) (rings (childs p)));
          },
        )
  ]

-- What stands when the next task is chosen: `t` is free, and its children are idle's.
pub record Gone (l : Layout) (live : ℕ → Bool) (t : ℕ) (k : Kernel) (rings : ℕ → List ℕ)
    (k' : Kernel) (rings' : ℕ → List ℕ) : Type 0 where
  pub queued : Queued l (without (childs t) live) k'.links rings'
  pub ready : rings' l.readyq ≡ rings l.readyq
  pub blocked : rings' l.blocked ≡ rings l.blocked
  pub free : rings' l.freeq ≡ rings l.freeq ++ anchor t ∷ []
  pub others : k' ≡ record k { links = k'.links; tasks = k'.tasks; memory = k'.memory }
  pub tasks : (u : ℕ) → k'.tasks u ≡ record (k.tasks u) { parent = (k'.tasks u).parent }
  pub family : Family l (without (childs t) live) k' rings' k.idle_task

-- The kernel when the task has left its parent and its children.
abbrev pub orphaned : ℕ → Kernel → Kernel
orphaned t k =
    let k₁ = leave_parent t k in
    let pos = k₁.links.next (childs t) in
    adopt_loop (nr_tasks + 1) (childs t) pos (k₁.links.next pos) k₁

-- The kernel when it is free.
abbrev pub freed : Layout → ℕ → Kernel → Kernel
freed l t k = record (orphaned t k) {
  memory = free_user_pages ((orphaned t k).tasks t).dir (orphaned t k).memory;
  links = list_add_tail (anchor t) l.freeq (orphaned t k).links;
}
