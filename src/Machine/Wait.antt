-- ===== src/Machine/Wait.antt =====
-- `sys_block` and `sys_unblock` on the whole kernel.
use so.Common.{
  ℕ, ◌+◌, ◌-◌, ◌≡◌, refl, ◌≢◌, Bool, true, List, [], ◌∷◌, Option, none, some, arith, ◌∈◌, ◌==◌, has,
  has-append, mem_of_mem-erase, sym, ◌∙◌, inl, inr, Bool-cases, wadd,
}
use so.Mm.Paging.{nr_tasks}
use so.ListHead.{list_add_tail, list_for_each}
use so.Kernel.{Layout, Kernel, current, anchor, childs}
use so.Kernel.Placement.{IsLayout, InUnion}
use so.Sched.{with_task}
use so.Sched.Invariant.{IsResumable, current-running}
use so.Sched.Kept.{Kept, sched_next_rr-Kept}
use so.Sched.Queues.{is_head}
use so.Sched.Switch.{after_pick, mem-after_pick, next_task}
use so.Sys.{sys_block, sys_unblock, unblock_child, find_child}
use so.Sys.Family.{Family-queues, queue-not-is_childs, next-live, childs-is_head}
use so.Sys.Wait.{
  blocked_too, unblocked, found, sys_block-Inv, sys_block_pending, sys_unblock-Inv,
  sys_unblock_missing, sys_unblock_pending,
}
use so.Sys.Still.{sys_unblock-Still}
use so.Machine.NoBirths.{no-Births}
use so.Machine.{Safe, After, on_block, on_unblock, block, wake}
use so.Machine.Same.{Same, Same-refl, Same-After}

-- Only the unblocks that a task has pending change.
pending-Same :
    (t : ℕ) (n : ℕ → ℕ) (k : Kernel)
    → Same k (with_task t (λ s. record s { pending_unblocks = n s.pending_unblocks }) k)
pending-Same t n k = record {
  links = refl;
  esp0 = refl;
  esp = refl;
  idle = refl;
  stacks = λ u. ground arith;
  quanta = λ u. ground arith;
  parents = λ u. ground arith;
  pids = λ u. ground arith;
  last_pid = refl;
  cr3 = refl;
  dirs = λ u. ground arith;
}

-- Waking a child changes no parent, no directory and not the idle task.
module _ (l : Layout) (k : Kernel) where
  abbrev Parents : Kernel → Type 0
  Parents k' =
      ((u : ℕ) → (k'.tasks u).parent ≡ (k.tasks u).parent)
      × ((u : ℕ) → (k'.tasks u).dir ≡ (k.tasks u).dir)
      × (k'.idle_task ≡ k.idle_task)

  unblock_child-Parents : (c : ℕ) → Parents (unblock_child l c k)
  unfolding unblock_child
  unblock_child-Parents c =
      elim (Bool-cases (has (anchor c) (list_for_each (nr_tasks + 1) l.blocked k.links))) [
        | inl e ↦ rw e ((λ u. refl), (λ u. refl), refl)
        | inr e ↦ rw e ((λ u. ground arith), (λ u. ground arith), refl)
      ]

  sys_unblock-Parents :
      (pid c : ℕ)
      → find_child pid k.tasks (list_for_each (nr_tasks + 1) (childs (current k)) k.links) ≡ some c
      → Parents (sys_unblock l pid k).1
  unfolding sys_unblock
  sys_unblock-Parents pid c e = rw (e, sys_unblock) (unblock_child-Parents c)

module _ {l : Layout} (v : IsLayout l) {k : Kernel} {live : ℕ → Bool} {rings : ℕ → List ℕ} {t : ℕ}
    (s : Safe l live k rings t) (entered : InUnion t k.esp) where
  module _ (ebp : ℕ) (save : IsResumable t ebp) (ne : t ≢ k.idle_task) where
    blocks-Kept : (k.tasks t).pending_unblocks ≡ 0 → Kept k (sys_block l ebp k)
    unfolding sys_block
    blocks-Kept zeroed =
        let c =
          sched_next_rr-Kept l ebp
            (record k { links = list_add_tail (anchor t) l.blocked k.links }) in
        rw (current-running v k t s.inv.runs.task entered, zeroed)
          (record {
            parents = c.parents;
            dirs = c.dirs;
            pids = c.pids;
            last_pid = c.last_pid;
            idle = c.idle;
            memory = c.memory;
          })

    blocks-After :
        (k.tasks t).pending_unblocks ≡ 0 → After l live k rings t on_block (sys_block l ebp k)
    blocks-After zeroed =
        let inv = sys_block-Inv v s.inv entered ebp save (λ e. ne (sym e)) zeroed in
        let c = blocks-Kept zeroed in
        record {
          live = live;
          rings' = after_pick l (blocked_too l rings t);
          running = next_task k.idle_task (rings l.readyq);
          safe = record {
            inv = inv;
            family =
                Family-queues v s.family inv.runs.queued c.parents c.dirs c.idle
                  (λ hd i.
                    ground (arith, queue-not-is_childs v l.readyq, queue-not-is_childs v l.blocked))
                  (next-live v s.family s.inv.runs.queued (rings l.readyq) refl)
                  (λ u h i. ground (
                    arith,
                    v.ready_ne_blocked,
                    mem-after_pick l (blocked_too l rings t) (anchor u) l.readyq i,
                    s.family.ready u h,
                  ))
                  (λ u h i. ground (
                    arith,
                    v.ready_ne_blocked,
                    has-append (anchor u) (rings l.blocked) (anchor t ∷ []),
                    s.family.blocked u h,
                    s.family.running,
                  ))
                  (λ u i. ground (arith, v.ready_ne_free, v.free_ne_blocked));
          };
          births = no-Births c.pids c.last_pid (λ u on. on);
          move = block ne (ground (arith, v.ready_ne_free, v.free_ne_blocked, v.ready_ne_blocked));
        }

    pub sys_block-After : After l live k rings t on_block (sys_block l ebp k)
    sys_block-After = elim (Bool-cases ((k.tasks t).pending_unblocks == 0)) [
      | inl zeroed ↦ blocks-After (ground arith)
      | inr more ↦
          rw (sys_block_pending v s.inv entered ebp (ground arith))
            (Same-After s (pending-Same t (λ n. n - 1) k) on_block refl)
    ]

  head : is_head l live (childs t) ≡ true
  head = childs-is_head v live t s.inv.runs.task s.family.running

  wakes-After :
      (pid c : ℕ)
      → find_child pid k.tasks (rings (childs t)) ≡ some c
      → anchor c ∈ rings l.blocked
      → After l live k rings t on_unblock (sys_unblock l pid k).1
  wakes-After pid c e waits =
      let inv = (sys_unblock-Inv v s.inv entered head pid c e waits).1 in
      let same = sys_unblock-Parents l k pid c (found v s.inv entered head pid ∙ e) in
      record {
        live = live;
        rings' = unblocked l rings c;
        running = t;
        safe = record {
          inv = inv;
          family =
              Family-queues v s.family inv.runs.queued same.0 same.1 same.2
                (λ hd i.
                  ground (arith, queue-not-is_childs v l.readyq, queue-not-is_childs v l.blocked))
                s.family.running
                (λ u h i. ground (
                  arith,
                  v.ready_ne_blocked,
                  has-append (anchor u) (rings l.readyq) (anchor c ∷ []),
                  s.family.ready u h,
                  s.family.blocked u h,
                ))
                (λ u h i. ground (
                  arith,
                  v.ready_ne_blocked,
                  mem_of_mem-erase (anchor u) (anchor c) (rings l.blocked),
                  s.family.blocked u h,
                ))
                (λ u i. ground (arith, v.ready_ne_free, v.free_ne_blocked));
        };
        births =
            no-Births (sys_unblock-Still l k pid).pids (sys_unblock-Still l k pid).last_pid
              (λ u on. on);
        move =
            wake (anchor c) waits
              (ground (arith, v.ready_ne_free, v.free_ne_blocked, v.ready_ne_blocked));
      }

  pub sys_unblock-After : (pid : ℕ) → After l live k rings t on_unblock (sys_unblock l pid k).1
  sys_unblock-After pid = sys_unblock-After_at pid (find_child pid k.tasks (rings (childs t))) refl
    where
      sys_unblock-After_at :
          (pid : ℕ) (o : Option ℕ)
          → find_child pid k.tasks (rings (childs t)) ≡ o
          → After l live k rings t on_unblock (sys_unblock l pid k).1
      sys_unblock-After_at pid none e =
          rw (sys_unblock_missing v s.inv entered head pid e)
            (Same-After s Same-refl on_unblock refl)
      sys_unblock-After_at pid (some c) e = elim (Bool-cases (has (anchor c) (rings l.blocked))) [
        | inl waits ↦ wakes-After pid c e waits
        | inr out ↦
            rw (sys_unblock_pending v s.inv entered head pid c e out)
              (Same-After s (pending-Same c (λ n. wadd n 1) k) on_unblock refl)
      ]
