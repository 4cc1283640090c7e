-- ===== src/Sched/Queues.antt =====
-- The queues of the scheduler and the lists of children as lists: every head of the kernel at once.
use so.Common.{
  ℕ, ◌-◌, ◌%◌, ◌≡◌, refl, ◌≢◌, Bool, true, ◌&&◌, ◌||◌, List, [], ◌∷◌, ◌++◌, arith, ◌∈◌, ◌∉◌, ◌==◌,
  leb, ltb, if◌then◌else◌, update, erase, Bool-cases, inl, inr, ◌⊎◌, has-append, mem_of_mem-erase,
  mem-erase_of_ne,
}
use so.ListHead.{Links, null, list_add_tail, list_del}
use so.ListHead.Delete.{Ring-list_del}
use so.ListHead.Walk.{Ring-next_ne_null}
use so.ListHead.Apart.{list_add_tail-SameAt, list_del-SameAt}
use so.ListHead.Rings.{Rings, IsLoose, Rings-list_add_tail, Rings-list_del, IsLoose-list_del}
use so.Mm.Paging.{nr_tasks}
use so.Kernel.{Layout, Kernel, task_at, task_size, anchor}
use so.Kernel.Placement.{IsLayout}
use so.Sched.{update_process_state_rr}

-- Whether `p` is the address of the field at the offset in one of the tasks.
unfoldable pub is_field : Layout → ℕ → ℕ → Bool
is_field l offset p =
    leb l.task p && (ltb p (task_at l nr_tasks) && ((p - l.task) % task_size == offset))

unfoldable pub is_anchor : Layout → ℕ → Bool
unfolding is_field
is_anchor l = is_field l 4

unfoldable pub is_child_anchor : Layout → ℕ → Bool
unfolding is_field
is_child_anchor l = is_field l 32

unfoldable pub is_childs : Layout → ℕ → Bool
unfolding is_field
is_childs l = is_field l 40

-- The heads: three queues, and the lists of children at the addresses that `live` names, those that
-- have been initialised.
unfoldable pub is_head : Layout → (ℕ → Bool) → ℕ → Bool
unfolding is_childs
is_head l live p =
    (p == l.readyq) || ((p == l.freeq) || ((p == l.blocked) || (is_childs l p && live p)))

-- A queue holds anchors of tasks, and a list of children holds child anchors.
unfoldable pub is_sorted : Layout → ℕ → ℕ → Bool
unfolding is_childs is_child_anchor is_anchor
is_sorted l hd p = if is_childs l hd then is_child_anchor l p else is_anchor l p

-- The links stand for the lists, and both words of an anchor in no list are NULL.
pub record Queued (l : Layout) (live : ℕ → Bool) (h : Links) (rings : ℕ → List ℕ) : Type 0 where
  pub all : Rings (is_head l live) h rings
  pub sorted : (hd p : ℕ) → is_head l live hd ≡ true → p ∈ rings hd → is_sorted l hd p ≡ true
  pub unlinked :
      (p : ℕ)
      → is_anchor l p ≡ true
      → IsLoose (is_head l live) rings p
      → (h.next p ≡ null) × (h.prev p ≡ null)

module _ {l : Layout} {live : ℕ → Bool} {h : Links} {rings : ℕ → List ℕ} (q : Queued l live h rings)
    (hd : ℕ) (head : is_head l live hd ≡ true) where
  outside_add :
      (n p : ℕ)
      → IsLoose (is_head l live) (update rings hd (rings hd ++ n ∷ [])) p
      → IsLoose (is_head l live) rings p × (p ≢ n)
  outside_add n p out = (
    λ kd k. ground (arith, out kd k, has-append p (rings hd) (n ∷ [])),
    ground (arith, out hd head, has-append p (rings hd) (n ∷ [])),
  )

  outside_del :
      (e p : ℕ)
      → IsLoose (is_head l live) (update rings hd (erase e (rings hd))) p
      → p ≢ e
      → IsLoose (is_head l live) rings p
  outside_del e p out ne kd k = ground (arith, out kd k, mem-erase_of_ne p e (rings hd))

  -- `list_add_tail` of a loose node of the right sort puts it at the end of one queue.
  pub Queued-list_add_tail :
      (n : ℕ)
      → IsLoose (is_head l live) rings n
      → is_sorted l hd n ≡ true
      → Queued l live (list_add_tail n hd h) (update rings hd (rings hd ++ n ∷ []))
  Queued-list_add_tail n loose s = record {
    all = Rings-list_add_tail q.all hd head n loose;
    sorted = λ kd p k i.
        ground (arith, has-append p (rings hd) (n ∷ []), q.sorted hd p head, q.sorted kd p k);
    unlinked = λ p a out.
        let before = outside_add n p out in
        ground (
          arith,
          q.unlinked p a before.0,
          list_add_tail-SameAt (q.all.ring hd head) p (before.0 hd head) n before.1,
        );
  }

  -- `list_del` of an entry takes it out of its queue.
  pub Queued-list_del :
      (e : ℕ) → e ∈ rings hd → Queued l live (list_del e h) (update rings hd (erase e (rings hd)))
  Queued-list_del e mem = record {
    all = Rings-list_del q.all hd head e mem;
    sorted = λ kd p k i.
        ground (arith, mem_of_mem-erase p e (rings hd), q.sorted hd p head, q.sorted kd p k);
    unlinked = λ p a out. elim (Bool-cases (p == e)) [
      | inl c ↦
          let same : p ≡ e = ground arith in
          ground (arith, Ring-list_del e (q.all.ring hd head) mem)
      | inr c ↦
          let before = outside_del e p out (ground arith) in
          ground (
            arith,
            q.unlinked p a before,
            list_del-SameAt (q.all.ring hd head) p (before hd head) e mem,
          )
    ];
  }

not_mem_of_ne : (a : ℕ) (xs : List ℕ) → ((p : ℕ) → p ∈ xs → p ≢ a) → a ∉ xs
not_mem_of_ne a [] h = refl
not_mem_of_ne a (x ∷ xs) h = ground (arith, h x, not_mem_of_ne a xs (λ p i. h p (ground arith)))

module _ {l : Layout} (v : IsLayout l) where
  head-ne_null : (live : ℕ → Bool) (hd : ℕ) → is_head l live hd ≡ true → hd ≢ null
  unfolding is_head is_field
  head-ne_null live hd k =
      ground (arith, v.above, v.ready_global.0, v.free_global.0, v.blocked_global.0)

  entry-ne_null : (hd p : ℕ) → is_sorted l hd p ≡ true → p ≢ null
  unfolding is_sorted is_field
  entry-ne_null hd p k = ground (arith, v.above)

  pub anchor-ne_head :
      (live : ℕ → Bool) (p hd : ℕ) → is_anchor l p ≡ true → is_head l live hd ≡ true → p ≢ hd
  unfolding is_head is_anchor is_field
  anchor-ne_head live p hd a k = ground (arith, v.ready_global, v.free_global, v.blocked_global)

  -- A queue is no list of children.
  pub queue-is_sorted :
      (hd p : ℕ)
      → (hd ≡ l.readyq) ⊎ ((hd ≡ l.freeq) ⊎ (hd ≡ l.blocked))
      → is_sorted l hd p ≡ is_anchor l p
  unfolding is_sorted is_field
  queue-is_sorted hd p h = ground (arith, v.ready_global, v.free_global, v.blocked_global)

module _ {l : Layout} (v : IsLayout l) (k : Kernel) {live : ℕ → Bool} {rings : ℕ → List ℕ}
    (q : Queued l live k.links rings) (t : ℕ) where
  linked-ne_null :
      (hd : ℕ) → is_head l live hd ≡ true → anchor t ∈ rings hd → k.links.next (anchor t) ≢ null
  linked-ne_null hd head i = Ring-next_ne_null (anchor t) (q.all.ring hd head) i (
      not_mem_of_ne 0 (hd ∷ rings hd) λ p m z. elim (Bool-cases (p == hd)) [
        | inl e ↦ head-ne_null v live hd head (ground arith)
        | inr e ↦ entry-ne_null v hd p (q.sorted hd p head (ground arith)) z
      ])

  -- The state that `update_process_state_rr` leaves, in each of the cases.
  pub update_loose :
      (dest : ℕ)
      → is_head l live dest ≡ true
      → is_anchor l (anchor t) ≡ true
      → IsLoose (is_head l live) rings (anchor t)
      → update_process_state_rr t dest k
        ≡ record k { links = list_add_tail (anchor t) dest k.links }
  unfolding update_process_state_rr
  update_loose dest head a loose =
      ground (arith, q.unlinked (anchor t) a loose, head-ne_null v live dest head)

  pub update_null :
      (hd : ℕ)
      → is_head l live hd ≡ true
      → anchor t ∈ rings hd
      → update_process_state_rr t null k ≡ record k { links = list_del (anchor t) k.links }
  unfolding update_process_state_rr
  update_null hd head i = ground (arith, linked-ne_null hd head i)

  update_move :
      (hd dest : ℕ)
      → is_head l live hd ≡ true
      → is_head l live dest ≡ true
      → anchor t ∈ rings hd
      → update_process_state_rr t dest k
        ≡ record k { links = list_add_tail (anchor t) dest (list_del (anchor t) k.links) }
  unfolding update_process_state_rr
  update_move hd dest head dhead i =
      ground (arith, linked-ne_null hd head i, head-ne_null v live dest dhead)

  -- A task that waits in no queue is put at the end of the queue.
  pub update_process_state_rr-loose :
      (dest : ℕ)
      → is_head l live dest ≡ true
      → is_anchor l (anchor t) ≡ true
      → is_sorted l dest (anchor t) ≡ true
      → IsLoose (is_head l live) rings (anchor t)
      → Queued l live
          (update_process_state_rr t dest k).links
          (update rings dest (rings dest ++ anchor t ∷ []))
  update_process_state_rr-loose dest head a s loose =
      rw (update_loose dest head a loose) (Queued-list_add_tail q dest head (anchor t) loose s)

  -- A task that waits in a queue is taken out of it, if there is no other queue for it.
  pub update_process_state_rr-null :
      (hd : ℕ)
      → is_head l live hd ≡ true
      → anchor t ∈ rings hd
      → Queued l live
          (update_process_state_rr t null k).links
          (update rings hd (erase (anchor t) (rings hd)))
  update_process_state_rr-null hd head i =
      rw (update_null hd head i) (Queued-list_del q hd head (anchor t) i)

  -- A task that waits in a queue is taken out of it and put at the end of the given one.
  pub update_process_state_rr-move :
      (hd dest : ℕ)
      → is_head l live hd ≡ true
      → is_head l live dest ≡ true
      → is_sorted l dest (anchor t) ≡ true
      → anchor t ∈ rings hd
      → let left = update rings hd (erase (anchor t) (rings hd)) in
        Queued l live
          (update_process_state_rr t dest k).links
          (update left dest (left dest ++ anchor t ∷ []))
  update_process_state_rr-move hd dest head dhead s i = rw (update_move hd dest head dhead i) (
      Queued-list_add_tail (Queued-list_del q hd head (anchor t) i) dest dhead (anchor t)
        (IsLoose-list_del q.all hd head (anchor t) i) s)
