-- ===== src/Sys/Family.antt =====
-- Parents and children: which tasks are in use, and in which list of children each of them stands.
use so.Common.{
  ℕ, ◌≡◌, refl, ◌≢◌, ◌⊎◌, inl, inr, Bool, true, false, List, [], ◌∷◌, arith, ◌∈◌, ◌∉◌, Bool-cases,
  sym, ◌∙◌,
}
use so.ListHead.{Links, null}
use so.ListHead.Rings.{IsLoose}
use so.Kernel.{Layout, Kernel, anchor, anchor_entry, child_anchor, childs, dir_of}
use so.Kernel.Placement.{IsLayout}
use so.Sched.Queues.{
  is_head, is_field, is_anchor, is_childs, is_child_anchor, is_sorted, Queued, queue-is_sorted,
}
use so.Sched.Invariant.{is_task, anchor-is_task, readyq-is_head}
use so.Sched.Kept.{Kept}
use so.Sched.Switch.{next_task, after_pick, mem-after_pick}

-- A task is in use if its list of children has been initialised since it was last free. A task in
-- use with a parent stands in the list of the parent, which is in use; all others stand in none.
-- Each task in use has the directory of its place.
pub record Family (l : Layout) (live : ℕ → Bool) (k : Kernel) (rings : ℕ → List ℕ) (t : ℕ)
    : Type 0 where
  pub running : live (childs t) ≡ true
  pub idle : live (childs k.idle_task) ≡ true
  pub ready : (u : ℕ) → is_task l u ≡ true → anchor u ∈ rings l.readyq → live (childs u) ≡ true
  pub blocked : (u : ℕ) → is_task l u ≡ true → anchor u ∈ rings l.blocked → live (childs u) ≡ true
  pub free : (u : ℕ) → is_task l u ≡ true → anchor u ∈ rings l.freeq → live (childs u) ≡ false
  pub dead_loose :
      (u : ℕ)
      → is_task l u ≡ true
      → live (childs u) ≡ false
      → IsLoose (is_head l live) rings (child_anchor u)
  pub dirs : (u : ℕ) → is_task l u ≡ true → live (childs u) ≡ true → (k.tasks u).dir ≡ dir_of l u
  pub orphan_loose :
      (u : ℕ)
      → is_task l u ≡ true
      → live (childs u) ≡ true
      → (k.tasks u).parent ≡ null
      → IsLoose (is_head l live) rings (child_anchor u)
  pub parent :
      (u : ℕ)
      → is_task l u ≡ true
      → live (childs u) ≡ true
      → (k.tasks u).parent ≢ null
      → let p = (k.tasks u).parent in
        (is_task l p ≡ true) × (live (childs p) ≡ true) × (child_anchor u ∈ rings (childs p))

module _ {l : Layout} (v : IsLayout l) where
  pub task-is_child_anchor :
      (u : ℕ) → is_task l u ≡ true → is_child_anchor l (child_anchor u) ≡ true
  unfolding is_child_anchor is_field
  task-is_child_anchor u h = ground (arith, v.page)

  pub task-is_childs : (u : ℕ) → is_task l u ≡ true → is_childs l (childs u) ≡ true
  unfolding is_childs is_field
  task-is_childs u h = ground (arith, v.page)

  pub childs-is_head :
      (live : ℕ → Bool) (u : ℕ)
      → is_task l u ≡ true
      → live (childs u) ≡ true
      → is_head l live (childs u) ≡ true
  unfolding is_head
  childs-is_head live u h k = ground (arith, task-is_childs u h)

  -- A queue is no list of children, and a child anchor is neither an anchor nor a head.
  pub queue-not-is_childs :
      (hd : ℕ) → (hd ≡ l.readyq) ⊎ ((hd ≡ l.freeq) ⊎ (hd ≡ l.blocked)) → is_childs l hd ≡ false
  unfolding is_childs is_field
  queue-not-is_childs hd h = ground (arith, v.ready_global, v.free_global, v.blocked_global)

  pub child_anchor-not-is_anchor :
      (u : ℕ) → is_task l u ≡ true → is_anchor l (child_anchor u) ≡ false
  unfolding is_anchor is_field
  child_anchor-not-is_anchor u h = ground (arith, v.page)

  pub child_anchor-ne_head :
      (live : ℕ → Bool) (u hd : ℕ)
      → is_task l u ≡ true
      → is_head l live hd ≡ true
      → child_anchor u ≢ hd
  unfolding is_head is_childs is_field
  child_anchor-ne_head live u hd h k =
      ground (arith, v.page, v.ready_global, v.free_global, v.blocked_global)

  live_of_head :
      (live : ℕ → Bool) (hd : ℕ) → is_head l live hd ≡ true → is_childs l hd ≡ true → live hd ≡ true
  unfolding is_head is_childs is_field
  live_of_head live hd k c = ground (arith, v.ready_global, v.free_global, v.blocked_global)

  module _ {live : ℕ → Bool} {h : Links} {rings : ℕ → List ℕ} (q : Queued l live h rings) where
    -- Only the lists of children can hold a child anchor, and only the queues an anchor.
    pub child_anchor-IsLoose :
        (u : ℕ)
        → is_task l u ≡ true
        → ((hd : ℕ) → is_childs l hd ≡ true → live hd ≡ true → child_anchor u ∉ rings hd)
        → IsLoose (is_head l live) rings (child_anchor u)
    child_anchor-IsLoose u h out hd k = elim (Bool-cases (is_childs l hd)) [
      | inl c ↦
          ground (arith, child_anchor-ne_head live u hd h k, out hd c (live_of_head live hd k c))
      | inr c ↦
          unfold is_sorted in
          ground (
            arith,
            child_anchor-ne_head live u hd h k,
            child_anchor-not-is_anchor u h,
            q.sorted hd (child_anchor u) k,
          )
    ]

    pub child_anchor-not-queue :
        (u hd : ℕ)
        → is_task l u ≡ true
        → is_head l live hd ≡ true
        → is_childs l hd ≡ false
        → child_anchor u ∉ rings hd
    child_anchor-not-queue u hd h k c =
        unfold is_sorted in
        ground (arith, child_anchor-not-is_anchor u h, q.sorted hd (child_anchor u) k)

-- What happens in the queues alone does not touch parents and children.
pub Family-queues :
    {l : Layout} (v : IsLayout l) {live : ℕ → Bool} {k k' : Kernel} {rings rings' : ℕ → List ℕ}
    {t t' : ℕ}
    → Family l live k rings t
    → Queued l live k'.links rings'
    → ((u : ℕ) → (k'.tasks u).parent ≡ (k.tasks u).parent)
    → ((u : ℕ) → (k'.tasks u).dir ≡ (k.tasks u).dir)
    → k'.idle_task ≡ k.idle_task
    → ((hd : ℕ) → is_childs l hd ≡ true → rings' hd ≡ rings hd)
    → live (childs t') ≡ true
    → ((u : ℕ) → is_task l u ≡ true → anchor u ∈ rings' l.readyq → live (childs u) ≡ true)
    → ((u : ℕ) → is_task l u ≡ true → anchor u ∈ rings' l.blocked → live (childs u) ≡ true)
    → ((u : ℕ) → anchor u ∈ rings' l.freeq → anchor u ∈ rings l.freeq)
    → Family l live k' rings' t'
Family-queues {l} v {live} {k} {k'} {rings} {rings'} f q parents dirs idle same here ready blocked
      free =
    record {
      running = here;
      idle = rw idle f.idle;
      ready = ready;
      blocked = blocked;
      free = λ u h i. f.free u h (free u i);
      dead_loose = λ u h d. child_anchor-IsLoose v q u h λ hd c on.
          ground (arith, same hd c, f.dead_loose u h d hd (unfold is_head in ground arith));
      dirs = λ u h on. dirs u ∙ f.dirs u h on;
      orphan_loose = λ u h on e. child_anchor-IsLoose v q u h λ hd c on'. ground (
        arith,
        same hd c,
        f.orphan_loose u h on (sym (parents u) ∙ e) hd (unfold is_head in ground arith),
      );
      parent = λ u h on ne.
          let old = f.parent u h on (λ z. ne (parents u ∙ z)) in
          let c = task-is_childs v (k.tasks u).parent old.0 in
          rw (parents u) (old.0, old.1, rw (same (childs (k.tasks u).parent) c) old.2);
    }

module _ {l : Layout} (v : IsLayout l) {live : ℕ → Bool} {k : Kernel} {rings : ℕ → List ℕ} {t : ℕ}
    (f : Family l live k rings t) (q : Queued l live k.links rings) where
  -- The entries of the ready queue are tasks in use.
  pub ready-live :
      (p : ℕ)
      → p ∈ rings l.readyq
      → (is_task l (anchor_entry p) ≡ true) × (live (childs (anchor_entry p)) ≡ true)
  ready-live p i =
      let a : is_anchor l p ≡ true =
        sym (queue-is_sorted v l.readyq p (inl refl))
        ∙ q.sorted l.readyq p (readyq-is_head v live) i in
      let (task, back) = anchor-is_task v p a in (task, f.ready (anchor_entry p) task (rw back i))

  pub next-live :
      (xs : List ℕ) → rings l.readyq ≡ xs → live (childs (next_task k.idle_task xs)) ≡ true
  unfolding next_task
  next-live [] e = f.idle
  next-live (p ∷ ps) e = (ready-live p (rw e (ground arith))).1

  -- Choosing the next task and switching to it.
  pub Family-pick :
      (k' : Kernel)
      → Queued l live k'.links (after_pick l rings)
      → Kept k k'
      → Family l live k' (after_pick l rings) (next_task k.idle_task (rings l.readyq))
  Family-pick k' q' kept =
      Family-queues v f q' kept.parents kept.dirs kept.idle
        (λ hd c. ground (arith, queue-not-is_childs v l.readyq)) (next-live (rings l.readyq) refl)
        (λ u h i. f.ready u h (mem-after_pick l rings (anchor u) l.readyq i))
        (λ u h i. f.blocked u h (mem-after_pick l rings (anchor u) l.blocked i))
        (λ u i. mem-after_pick l rings (anchor u) l.freeq i)
