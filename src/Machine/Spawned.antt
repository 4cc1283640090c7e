-- ===== src/Machine/Spawned.antt =====
-- The state in which the child of `sys_fork` is entered.
use mathlib.Core.Path.{subst}
use so.Common.{
  ℕ, ◌≡◌, refl, ◌≢◌, ◌⊎◌, inl, inr, Bool, true, false, List, [], ◌∷◌, ◌++◌, arith, ◌∈◌, ◌∉◌, ◌==◌,
  has, has-append, Bool-cases, ap, sym, ◌∙◌,
}
use so.ListHead.Rings.{IsLoose}
use so.Kernel.{Layout, Kernel, anchor, anchor_entry, child_anchor, childs}
use so.Kernel.Placement.{IsLayout}
use so.Sched.Queues.{
  is_head, is_field, is_childs, is_child_anchor, is_sorted, Queued, anchor-ne_head,
}
use so.Sched.Invariant.{is_task, IsParked, Runs, readyq-is_head, task-is_anchor}
use so.Sys.Child.{
  child-dead, child-ne_running, child-IsLoose, live', rings', rings'-ready, rings'-queue,
  rings'-childs,
}
use so.Sys.Family.{Family, task-is_childs, queue-not-is_childs, child_anchor-IsLoose}
use so.Machine.{IsNewPid, Safe, After, on_fork, spawn}
use so.Machine.Lost.{
  But, c, idle-ne_child, ready-ne_child, blocked-ne_child, stays-IsParked, directory-But,
  quanta-But,
}

module _ {l : Layout} (v : IsLayout l) {k : Kernel} {live : ℕ → Bool} {rings : ℕ → List ℕ} {t : ℕ}
    (s : Safe l live k rings t) (p : ℕ) (ps : List ℕ) (first : rings l.freeq ≡ p ∷ ps) {k' : Kernel}
    (b : But l t (c v s p ps first) k k') (own : (k'.tasks (c v s p ps first)).parent ≡ t)
    (parked : IsParked k' (c v s p ps first)) (new : IsNewPid k k' (c v s p ps first)) where
  abbrev u₀ : ℕ
  u₀ = c v s p ps first

  abbrev lists : ℕ → List ℕ
  lists = rings' v s.inv s.family p ps first

  abbrev in_use : ℕ → Bool
  in_use = live' v s.inv s.family p ps first

  ready-eq : lists l.readyq ≡ rings l.readyq ++ p ∷ []
  ready-eq = rings'-ready v s.inv s.family p ps first

  blocked-eq : lists l.blocked ≡ rings l.blocked
  blocked-eq =
      rings'-queue v s.inv s.family p ps first l.blocked
        (queue-not-is_childs v l.blocked (inr (inr refl))) (λ e. v.ready_ne_blocked (sym e))
      ∙ ground (arith, v.free_ne_blocked)

  free-eq : lists l.freeq ≡ ps
  free-eq =
      rings'-queue v s.inv s.family p ps first l.freeq
        (queue-not-is_childs v l.freeq (inr (inl refl))) (λ e. v.ready_ne_free (sym e))
      ∙ ground arith

  -- A node of a queue was there before, or is the child's.
  mem-lists :
      (q hd : ℕ)
      → is_head l in_use hd ≡ true
      → is_childs l hd ≡ false
      → q ∈ lists hd
      → (q ∈ rings hd) ⊎ ((q ≡ p) × (hd ≡ l.readyq))
  mem-lists q hd h queue i = elim (Bool-cases (hd == l.readyq)) [
    | inl e ↦
        let same : hd ≡ l.readyq = ground arith in
        let at : q ∈ (rings l.readyq ++ p ∷ []) =
          subst (λ xs. q ∈ xs) ready-eq (subst (λ hd. q ∈ lists hd) same i) in
        rw same (ground (arith, has-append q (rings l.readyq) (p ∷ [])))
    | inr ne ↦
        let old = rings'-queue v s.inv s.family p ps first hd queue (ground arith) in
        inl (ground (arith, subst (λ xs. q ∈ xs) old i, first))
  ]

  still-head :
      (hd : ℕ) → is_head l in_use hd ≡ true → is_childs l hd ≡ false → is_head l live hd ≡ true
  unfolding is_head
  still-head hd h queue = ground arith

  not-mem-childs :
      (hd u : ℕ)
      → Queued l in_use k'.links lists
      → is_head l in_use hd ≡ true
      → is_childs l hd ≡ true
      → is_task l u ≡ true
      → anchor u ∉ lists hd
  not-mem-childs hd u q h field task =
      unfold is_sorted is_child_anchor is_field in ground (arith, q.sorted hd (anchor u) h, task)

  spawned-Runs : Queued l in_use k'.links lists → Runs l in_use k' lists t
  spawned-Runs q = record {
    queued = q;
    task = s.inv.runs.task;
    running = rw b.esp s.inv.runs.running;
    entry = rw b.esp0 s.inv.runs.entry;
    ready_parked = λ q i ne.
        elim (mem-lists q l.readyq (readyq-is_head v in_use)
          (queue-not-is_childs v l.readyq (inl refl)) i) [
            | inl old ↦
                stays-IsParked v s p ps first b (anchor_entry q)
                  (ready-ne_child v s p ps first q old) (s.inv.runs.ready_parked q old ne)
            | inr (e, _) ↦ subst (λ q. IsParked k' (anchor_entry q)) (sym e) parked
          ];
    blocked_parked = λ q i ne.
        let old = subst (λ xs. q ∈ xs) blocked-eq i in
        stays-IsParked v s p ps first b (anchor_entry q) (blocked-ne_child v s p ps first q old)
          (s.inv.runs.blocked_parked q old ne);
    idle_parked = rw b.idle λ ne.
        stays-IsParked v s p ps first b k.idle_task (idle-ne_child v s p ps first)
          (s.inv.runs.idle_parked ne);
    idle = rw b.idle s.inv.runs.idle;
    idle_waits = rw b.idle λ hd h i. elim (Bool-cases (is_childs l hd)) [
      | inl field ↦ absurd (ground (arith, not-mem-childs hd k.idle_task q h field s.inv.runs.idle))
      | inr queue ↦ elim (mem-lists (anchor k.idle_task) hd h queue i) [
        | inl old ↦ s.inv.runs.idle_waits hd (still-head hd h queue) old
        | inr (_, e) ↦ e
      ]
    ];
    directory = directory-But v s p ps first b;
    quanta = quanta-But v s p ps first b;
  }

  is_head-live : (hd : ℕ) → is_childs l hd ≡ true → live hd ≡ true → is_head l live hd ≡ true
  unfolding is_head
  is_head-live hd field on = ground arith

  still-out :
      (u : ℕ)
      → u ≢ u₀
      → IsLoose (is_head l live) rings (child_anchor u)
      → (hd : ℕ) → is_childs l hd ≡ true
      → in_use hd ≡ true
      → child_anchor u ∉ lists hd
  still-out u ne out hd field on = rw (rings'-childs v s.inv s.family p ps first hd field) (
      ground (
        arith,
        has-append (child_anchor u) (rings hd) (child_anchor u₀ ∷ []),
        out hd,
        is_head-live hd field,
      ))

  child-mem-lists : child_anchor u₀ ∈ lists (childs t)
  child-mem-lists =
      rw (rings'-childs v s.inv s.family p ps first (childs t) (task-is_childs v t s.inv.runs.task))
        (ground (
          arith,
          child-ne_running v s.inv s.family p ps first,
          has-append (child_anchor u₀) (rings (childs t)) (child_anchor u₀ ∷ []),
        ))

  old-mem-lists :
      (q a : ℕ)
      → is_childs l (childs q) ≡ true
      → live (childs q) ≡ true
      → a ∈ rings (childs q)
      → a ∈ lists (childs q)
  old-mem-lists q a field on i = rw (rings'-childs v s.inv s.family p ps first (childs q) field) (
      ground (
        arith,
        has-append a (rings (childs q)) (child_anchor u₀ ∷ []),
        child-dead v s.inv s.family p ps first,
        ap live {x = childs q} {y = childs u₀},
      ))

  same_parent : (u : ℕ) → u ≢ u₀ → (k'.tasks u).parent ≡ (k.tasks u).parent
  same_parent u ne = ap (λ s. s.parent) (b.tasks u ne)

  spawned-Family : Queued l in_use k'.links lists → Family l in_use k' lists t
  spawned-Family q = record {
    running = ground (arith, s.family.running);
    idle = rw b.idle (ground (arith, s.family.idle));
    ready = λ u h i.
        elim (mem-lists (anchor u) l.readyq (readyq-is_head v in_use)
          (queue-not-is_childs v l.readyq (inl refl)) i) [
            | inl old ↦ ground (arith, s.family.ready u h old)
            | inr (e, _) ↦ ground (arith, e)
          ];
    blocked =
        λ u h i. ground (arith, s.family.blocked u h (subst (λ xs. anchor u ∈ xs) blocked-eq i));
    free = λ u h i.
        let rest = subst (λ xs. anchor u ∈ xs) free-eq i in
        ground (
          arith,
          s.family.free u h (rw first (ground arith)),
          child-IsLoose v s.inv s.family p ps first l.freeq (unfold is_head in ground arith),
          ap (λ u. has (anchor u) ps) {x = u} {y = u₀},
        );
    dead_loose = λ u h d.
        child_anchor-IsLoose v q u h (
          still-out u (λ e. absurd (ground (arith, d, e)))
            (s.family.dead_loose u h (ground arith)));
    dirs = λ u h on. elim (Bool-cases (u == u₀)) [
      | inl same ↦ let e : u ≡ u₀ = ground arith in rw e b.dir
      | inr ne ↦ ap (λ s. s.dir) (b.tasks u (ground arith)) ∙ s.family.dirs u h (ground arith)
    ];
    orphan_loose = λ u h on e. elim (Bool-cases (u == u₀)) [
      | inl same ↦ absurd (
          unfold is_field in
          ground
            (arith, ap (λ u. (k'.tasks u).parent) {x = u} {y = u₀}, own, s.inv.runs.task, v.above))
      | inr ne ↦ child_anchor-IsLoose v q u h (
          still-out u (ground arith)
            (s.family.orphan_loose u h (ground arith) (sym (same_parent u (ground arith)) ∙ e)))
    ];
    parent = λ u h on some. elim (Bool-cases (u == u₀)) [
      | inl same ↦
          let e : u ≡ u₀ = ground arith in
          rw e (rw own (s.inv.runs.task, ground (arith, s.family.running), child-mem-lists))
      | inr ne ↦
          let e = same_parent u (ground arith) in
          let old = s.family.parent u h (ground arith) (λ z. some (e ∙ z)) in
          rw e (
            old.0,
            ground (arith, old.1),
            old-mem-lists (k.tasks u).parent (child_anchor u)
                (task-is_childs v (k.tasks u).parent old.0) old.1 old.2,
          )
    ];
  }

  spawned-IsLoose : Queued l in_use k'.links lists → IsLoose (is_head l in_use) lists (anchor t)
  spawned-IsLoose q hd h =
      let no_head = anchor-ne_head v in_use (anchor t) hd (task-is_anchor v t s.inv.runs.task) h in
      elim (Bool-cases (is_childs l hd)) [
        | inl field ↦ ground (arith, no_head, not-mem-childs hd t q h field s.inv.runs.task)
        | inr queue ↦ elim (Bool-cases (has (anchor t) (lists hd))) [
          | inr out ↦ ground (arith, no_head)
          | inl i ↦ elim (mem-lists (anchor t) hd h queue i) [
            | inl old ↦ absurd (ground (arith, s.inv.loose hd (still-head hd h queue)))
            | inr (e, _) ↦ absurd (child-ne_running v s.inv s.family p ps first (omega (arith, e)))
          ]
        ]
      ]

  pub spawned-After : Queued l in_use k'.links lists → After l live k rings t on_fork k'
  spawned-After q = record {
    live = in_use;
    rings' = lists;
    running = t;
    safe = record {
      inv = record { runs = spawned-Runs q; loose = spawned-IsLoose q };
      family = spawned-Family q;
    };
    births = record {
      same = λ u h on. elim (Bool-cases (u == u₀)) [
        | inl e ↦
            let at : u ≡ u₀ = ground arith in
            inr (rw at (child-dead v s.inv s.family p ps first, new))
        | inr ne ↦ inl (ground arith, ap (λ s. s.pid) (b.tasks u (ground arith)))
      ];
      single = λ u w h h' on on' off off'. ground arith;
      counter = b.counter;
    };
    move = spawn p ps first (ground (arith, ready-eq, blocked-eq, free-eq));
  }
