-- ===== src/Sys/Child.antt =====
-- The lists in `sys_fork`: the union taken, the heads copied with it, and the child entered.
use so.Common.{
  ℕ, ◌≡◌, refl, ◌≢◌, inl, inr, Bool, true, false, List, [], ◌∷◌, ◌++◌, arith, ◌∈◌, ◌==◌,
  if◌then◌else◌, has-append, update, erase, sym, ◌∙◌,
}
use mathlib.Core.Path.{subst}
use so.ListHead.{Links, init_list_head, list_add_tail, list_del}
use so.ListHead.Rings.{IsLoose, IsLoose-list_del}
use so.Kernel.{Layout, Kernel, anchor, anchor_entry, child_anchor, childs}
use so.Kernel.Placement.{IsLayout}
use so.Sched.Queues.{
  is_head, is_field, is_anchor, is_childs, is_sorted, Queued, Queued-list_add_tail, Queued-list_del,
  queue-is_sorted,
}
use so.Sched.Invariant.{is_task, Inv, readyq-is_head, task-is_anchor, anchor-is_task}
use so.Sched.Heads.{also, new-IsLoose, Queued-init_list_head, Queued-frame}
use so.Sys.{copy_node}
use so.Sys.Family.{
  Family, task-is_childs, childs-is_head, queue-not-is_childs, task-is_child_anchor,
}

-- The links when the heads of the task at `t` are copied to `u`.
abbrev pub copied_heads : ℕ → ℕ → Links → Links
copied_heads t u h =
    copy_node (childs t) (childs u)
      (copy_node (child_anchor t) (child_anchor u) (copy_node (anchor t) (anchor u) h))

-- The links when the child `u` of `t` is entered.
abbrev pub entered_links : Layout → ℕ → ℕ → Links → Links
entered_links l t u h =
    list_add_tail (anchor u) l.readyq
      (list_add_tail (child_anchor u) (childs t) (init_list_head (childs u) h))

-- The lists without the first free union.
abbrev pub taken : Layout → (ℕ → List ℕ) → List ℕ → ℕ → List ℕ
taken l rings ps = update rings l.freeq ps

abbrev pub with_child : ℕ → ℕ → (ℕ → List ℕ) → ℕ → List ℕ
with_child t u rings =
    let r = update rings (childs u) [] in update r (childs t) (r (childs t) ++ child_anchor u ∷ [])

-- The lists with the child.
abbrev pub with_task_in : Layout → ℕ → ℕ → (ℕ → List ℕ) → ℕ → List ℕ
with_task_in l t u rings =
    let r = with_child t u rings in update r l.readyq (r l.readyq ++ anchor u ∷ [])

module _ {l : Layout} (v : IsLayout l) {k : Kernel} {live : ℕ → Bool} {rings : ℕ → List ℕ} {t : ℕ}
    (inv : Inv l live k rings t) (f : Family l live k rings t) (p : ℕ) (ps : List ℕ)
    (first : rings l.freeq ≡ p ∷ ps) where
  abbrev pub child : ℕ
  child = anchor_entry p

  pub freeq-is_head : is_head l live l.freeq ≡ true
  unfolding is_head
  freeq-is_head = ground arith

  pub first-mem : p ∈ rings l.freeq
  first-mem = rw first (ground arith)

  first-is_anchor : is_anchor l p ≡ true
  first-is_anchor =
      sym (queue-is_sorted v l.freeq p (inr (inl refl)))
      ∙ inv.runs.queued.sorted l.freeq p freeq-is_head first-mem

  pub child-is_task : is_task l child ≡ true
  child-is_task = (anchor-is_task v p first-is_anchor).0

  pub child-anchor : anchor child ≡ p
  child-anchor = (anchor-is_task v p first-is_anchor).1

  pub child-dead : live (childs child) ≡ false
  child-dead = f.free child child-is_task (rw child-anchor first-mem)

  pub child-ne_running : child ≢ t
  child-ne_running e = ground (arith, inv.loose l.freeq freeq-is_head, first-mem, child-anchor, e)

  erased : erase p (rings l.freeq) ≡ ps
  erased = rw first (unfold erase in ground arith)

  pub taken-Queued : Queued l live (list_del p k.links) (taken l rings ps)
  taken-Queued = rw (← erased) (Queued-list_del inv.runs.queued l.freeq freeq-is_head p first-mem)

  pub taken-less : (q hd : ℕ) → q ∈ taken l rings ps hd → q ∈ rings hd
  taken-less q hd i = ground (arith, first)

  pub child-IsLoose : IsLoose (is_head l live) (taken l rings ps) (anchor child)
  child-IsLoose =
      subst (IsLoose (is_head l live) (taken l rings ps)) (sym child-anchor)
        (rw (← erased) (IsLoose-list_del inv.runs.queued.all l.freeq freeq-is_head p first-mem))

  pub own_child_anchor-IsLoose : IsLoose (is_head l live) (taken l rings ps) (child_anchor child)
  own_child_anchor-IsLoose hd h =
      ground (
        arith,
        f.dead_loose child child-is_task child-dead hd h,
        taken-less (child_anchor child) hd,
      )

  childs-IsLoose : IsLoose (is_head l live) (taken l rings ps) (childs child)
  childs-IsLoose =
      new-IsLoose v taken-Queued (childs child) (task-is_childs v child child-is_task) child-dead

  running-IsLoose : IsLoose (is_head l live) (taken l rings ps) (anchor t)
  running-IsLoose hd h = ground (arith, inv.loose hd h, taken-less (anchor t) hd)

  -- The copied heads spare all lists.
  pub copied-Queued : Queued l live (copied_heads t child (list_del p k.links)) (taken l rings ps)
  copied-Queued =
      let own =
        taken-Queued.unlinked (anchor t) (task-is_anchor v t inv.runs.task) running-IsLoose in
      let new =
        taken-Queued.unlinked (anchor child) (task-is_anchor v child child-is_task) child-IsLoose in
      Queued-frame v taken-Queued (copied_heads t child (list_del p k.links))
        (λ q hd h i.
          ground (arith, child-IsLoose hd h, own_child_anchor-IsLoose hd h, childs-IsLoose hd h))
        (λ q a out. unfold is_anchor is_field in ground (arith, own, new, v.page, child-is_task))

  abbrev pub live' : ℕ → Bool
  live' = also (childs child) live

  abbrev pub rings' : ℕ → List ℕ
  rings' = with_task_in l t child (taken l rings ps)

  old-is_head : (hd : ℕ) → is_head l live' hd ≡ true → hd ≢ childs child → is_head l live hd ≡ true
  unfolding is_head
  old-is_head hd h ne = ground arith

  running-is_head : is_head l live' (childs t) ≡ true
  running-is_head = childs-is_head v live' t inv.runs.task (ground (arith, f.running))

  -- A node of no list, but the heads, is in no list after the list of children has been added.
  still-IsLoose :
      (q : ℕ)
      → q ≢ childs child
      → IsLoose (is_head l live) (taken l rings ps) q
      → IsLoose (is_head l live') (update (taken l rings ps) (childs child) []) q
  still-IsLoose q ne out hd h = ground (arith, out hd, old-is_head hd h)

  with_child-IsLoose :
      IsLoose (is_head l live') (with_child t child (taken l rings ps)) (anchor child)
  with_child-IsLoose hd h = ground (
    arith,
    still-IsLoose (anchor child) (omega arith) child-IsLoose hd h,
    still-IsLoose (anchor child) (omega arith) child-IsLoose (childs t) running-is_head,
    has-append (anchor child) (update (taken l rings ps) (childs child) [] (childs t))
        (child_anchor child ∷ []),
  )

  pub entered-Queued :
      (h : Links)
      → Queued l live h (taken l rings ps)
      → Queued l live' (entered_links l t child h) rings'
  entered-Queued h q =
      let q₁ =
        Queued-init_list_head v q (childs child) (task-is_childs v child child-is_task)
          child-dead in
      let q₂ =
        Queued-list_add_tail q₁ (childs t) running-is_head (child_anchor child)
          (still-IsLoose (child_anchor child) (omega arith) own_child_anchor-IsLoose)
          (unfold is_sorted in
            ground (
              arith,
              task-is_childs v t inv.runs.task,
              task-is_child_anchor v child child-is_task,
            )) in
      Queued-list_add_tail q₂ l.readyq (readyq-is_head v live') (anchor child) with_child-IsLoose (
        queue-is_sorted v l.readyq (anchor child) (inl refl) ∙ task-is_anchor v child child-is_task)

  -- What the lists hold.
  pub rings'-ready : rings' l.readyq ≡ rings l.readyq ++ p ∷ []
  rings'-ready = ground (
    arith,
    child-anchor,
    v.ready_ne_free,
    queue-not-is_childs v l.readyq,
    task-is_childs v t inv.runs.task,
    task-is_childs v child child-is_task,
  )

  pub rings'-queue :
      (hd : ℕ) → is_childs l hd ≡ false → hd ≢ l.readyq → rings' hd ≡ taken l rings ps hd
  rings'-queue hd c ne =
      ground (arith, task-is_childs v t inv.runs.task, task-is_childs v child child-is_task)

  pub rings'-childs :
      (hd : ℕ)
      → is_childs l hd ≡ true
      → rings' hd ≡ (
          if hd == childs child
          then []
          else if hd == childs t
          then rings hd ++ child_anchor child ∷ []
          else rings hd)
  rings'-childs hd c =
      ground
        (arith, child-ne_running, queue-not-is_childs v l.readyq, queue-not-is_childs v l.freeq)
