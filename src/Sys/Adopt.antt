-- ===== src/Sys/Adopt.antt =====
-- The loop of `sys_exit` that hands the children of a task to idle.
use mathlib.Core.Path.{subst}
use mathlib.Core.List.{append_assoc, append-nil}
use so.Common.{
  ℕ, zero, suc, ◌<◌, ◌≡◌, refl, ◌≢◌, Bool, true, false, List, [], ◌∷◌, ◌++◌, arith, ◌∈◌, ◌==◌,
  if◌then◌else◌, update, erase, has, length, sym, erase_head,
}
use so.ListHead.{Links, list_add_tail, list_del}
use so.ListHead.Ring.{Ring}
use so.ListHead.Rings.{IsLoose-list_del}
use so.Kernel.{Layout, Kernel, childs, child_anchor, child_anchor_entry}
use so.Kernel.Placement.{IsLayout}
use so.Sched.{with_task}
use so.Sched.Queues.{
  is_head, is_field, is_childs, is_child_anchor, is_sorted, Queued, Queued-list_add_tail,
  Queued-list_del,
}
use so.Sys.{adopt_loop}

-- The first entry of a list, or its head.
abbrev pub first_or : ℕ → List ℕ → ℕ
first_or hd [] = hd
first_or hd (x ∷ xs) = x

pub Ring-next_first : {h : Links} {hd : ℕ} {xs : List ℕ} → Ring h hd xs → h.next hd ≡ first_or hd xs
Ring-next_first {h} {hd} {xs = []} r = r.chain.0
Ring-next_first {h} {hd} {xs = x ∷ xs} r = r.chain.0

Ring-next_second :
    {h : Links} {hd x : ℕ} {xs : List ℕ} → Ring h hd (x ∷ xs) → h.next x ≡ first_or hd xs
Ring-next_second {h} {hd} {x} {xs = []} r = r.chain.2.0
Ring-next_second {h} {hd} {x} {xs = y ∷ ys} r = r.chain.2.0

-- The children `xs` of the list at `from` have gone to the end of the list at `to`, and have idle
-- as their parent; nothing else has changed but links.
pub record Adopted (l : Layout) (live : ℕ → Bool) (from to : ℕ) (xs : List ℕ) (k : Kernel)
    (rings : ℕ → List ℕ) (k' : Kernel) (rings' : ℕ → List ℕ) : Type 0 where
  pub queued : Queued l live k'.links rings'
  pub moved :
      (hd : ℕ)
      → rings' hd ≡ (if hd == from then [] else if hd == to then rings to ++ xs else rings hd)
  pub tasks :
      (u : ℕ)
      → k'.tasks u ≡ (
          if has (child_anchor u) xs
          then record (k.tasks u) { parent = k.idle_task }
          else k.tasks u)
  pub others : k' ≡ record k { links = k'.links; tasks = k'.tasks }

-- One round of the loop: the state, and the lists.
abbrev handed : ℕ → Kernel → Kernel
handed pos k =
    record (with_task (child_anchor_entry pos) (λ s. record s { parent = k.idle_task }) k) {
      links = list_add_tail pos (childs k.idle_task) (list_del pos k.links);
    }

abbrev handed_rings : ℕ → ℕ → ℕ → (ℕ → List ℕ) → ℕ → List ℕ
handed_rings from to p rings =
    let left = update rings from (erase p (rings from)) in update left to (left to ++ p ∷ [])

-- Idle has a list of children, and another one.
pub record HasIdle (l : Layout) (live : ℕ → Bool) (from : ℕ) (k : Kernel) : Type 0 where
  pub field : is_childs l (childs k.idle_task) ≡ true
  pub head : is_head l live (childs k.idle_task) ≡ true
  pub other : from ≢ childs k.idle_task

module _ {l : Layout} (v : IsLayout l) {live : ℕ → Bool} (from : ℕ)
    (from_field : is_childs l from ≡ true) (from_head : is_head l live from ≡ true) where
  child-is_child_anchor :
      {h : Links} {rings : ℕ → List ℕ}
      → Queued l live h rings
      → (p : ℕ) → p ∈ rings from
      → is_child_anchor l p ≡ true
  child-is_child_anchor q p i = unfold is_sorted in ground (arith, q.sorted from p from_head i)

  handed-Queued :
      (p : ℕ) (k : Kernel) (rings : ℕ → List ℕ)
      → Queued l live k.links rings
      → HasIdle l live from k
      → p ∈ rings from
      → Queued l live (handed p k).links (handed_rings from (childs k.idle_task) p rings)
  handed-Queued p k rings q to i =
      Queued-list_add_tail (Queued-list_del q from from_head p i) (childs k.idle_task) to.head p
        (IsLoose-list_del q.all from from_head p i)
        (unfold is_sorted in ground (arith, child-is_child_anchor q p i, to.field))

  handed-Adopted :
      (p : ℕ) (ps : List ℕ) (k k' : Kernel) (rings rings' : ℕ → List ℕ)
      → Queued l live k.links rings
      → HasIdle l live from k
      → rings from ≡ p ∷ ps
      → Adopted l live from
          (childs k.idle_task)
          ps
          (handed p k)
          (handed_rings from (childs k.idle_task) p rings)
          k'
          rings'
      → Adopted l live from (childs k.idle_task) (p ∷ ps) k rings k' rings'
  handed-Adopted p ps k k' rings rings' q to e a =
      let mem : p ∈ rings from = rw e (ground arith) in
      let field = child-is_child_anchor q p mem in
      record {
        queued = a.queued;
        moved = λ hd.
            ground
              (arith, a.moved hd, to.other, append_assoc (rings (childs k.idle_task)) (p ∷ []) ps);
        tasks = λ u. unfold is_child_anchor is_field in ground (arith, a.tasks u);
        others = ground (arith, a.others);
      }

  adopt_loop-Adopted_at :
      (f : ℕ) (xs : List ℕ) (k : Kernel) (rings : ℕ → List ℕ) (pos : ℕ)
      → Queued l live k.links rings
      → HasIdle l live from k
      → rings from ≡ xs
      → length xs < f
      → pos ≡ first_or from xs
      → (rings' : ℕ → List ℕ) × Adopted l live from
          (childs k.idle_task)
          xs
          k
          rings
          (adopt_loop f from pos (k.links.next pos) k)
          rings'
  unfolding adopt_loop
  adopt_loop-Adopted_at zero xs k rings pos q to e fuel at = absurd (omega arith)
  adopt_loop-Adopted_at (suc f) [] k rings pos q to e fuel at =
      let test : (pos == from) ≡ true = ground arith in
      rw test (
        rings,
        record {
          queued = q;
          moved = λ hd. ground (arith, e, append-nil (rings (childs k.idle_task)));
          tasks = λ u. refl;
          others = refl;
        },
      )
  adopt_loop-Adopted_at (suc f) (p ∷ ps) k rings pos q to e fuel at =
      let mem : p ∈ rings from = rw e (ground arith) in
      let ring = q.all.ring from from_head in
      let test : (pos == from) ≡ false = ground (arith, ring.apart) in
      let here : p ≡ pos = sym at in
      let (rings', a) =
        adopt_loop-Adopted_at f ps (handed p k) (handed_rings from (childs k.idle_task) p rings)
          (k.links.next p) (handed-Queued p k rings q to mem)
          (record { field = to.field; head = to.head; other = to.other })
          (ground (arith, to.other, e, erase_head p ps)) (omega arith)
          (Ring-next_second (subst (Ring k.links from) e ring)) in
      rw test (
        rings',
        subst
            (λ x.
              Adopted l live from (childs k.idle_task) (p ∷ ps) k rings
                (adopt_loop f from (k.links.next x) ((handed x k).links.next (k.links.next x))
                  (handed x k))
                rings')
            here (handed-Adopted p ps k _ rings rings' q to e a),
      )

  -- With a round for each child and one for the head, the loop that hands the children of a task to
  -- idle, another task, ends: the list is empty, its children stand in order behind those of idle,
  -- which is their parent, and all else is as it was.
  pub adopt_loop-Adopted :
      (f : ℕ) (k : Kernel) (rings : ℕ → List ℕ)
      → Queued l live k.links rings
      → HasIdle l live from k
      → length (rings from) < f
      → let pos = k.links.next from in
        (rings' : ℕ → List ℕ) × Adopted l live from
          (childs k.idle_task)
          (rings from)
          k
          rings
          (adopt_loop f from pos (k.links.next pos) k)
          rings'
  adopt_loop-Adopted f k rings q to fuel =
      adopt_loop-Adopted_at f (rings from) k rings (k.links.next from) q to refl fuel
        (Ring-next_first (q.all.ring from from_head))
