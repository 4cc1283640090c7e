-- ===== src/Machine/Lost.antt =====
-- The union that `sys_fork` takes, and the state in which it is lost.
use so.Common.{
  ℕ, ◌+◌, ◌^◌, ◌≤◌, ◌<◌, ◌≡◌, refl, ◌≢◌, ◌⊎◌, inl, inr, Bool, true, false, List, ◌∷◌, arith, ◌∈◌,
  ◌==◌, has, Bool-cases, ap, sym, ◌∙◌,
}
use so.ListHead.Rings.{IsLoose}
use so.Kernel.{Layout, Kernel, anchor, anchor_entry, child_anchor, childs, dir_of}
use so.Kernel.Placement.{IsLayout}
use so.Sched.Queues.{is_head, is_childs, is_sorted, is_anchor, Queued}
use so.Sched.Invariant.{is_task, IsParked, Runs, readyq-is_head, blocked-is_head, anchor-is_task}
use so.Sys.Child.{
  taken, child, child-anchor, child-dead, child-ne_running, taken-less, child-IsLoose,
}
use so.Sys.Family.{Family, task-is_childs, queue-not-is_childs}
use so.Machine.{Safe, After, on_fork, lose}

-- The state is that of `k` but for the links, the task `c` and what the scheduler does not see.
pub record But (l : Layout) (t c : ℕ) (k k' : Kernel) : Type 0 where
  pub esp : k'.esp ≡ k.esp
  pub esp0 : k'.esp0 ≡ k.esp0
  pub idle : k'.idle_task ≡ k.idle_task
  pub tasks : (u : ℕ) → u ≢ c → k'.tasks u ≡ k.tasks u
  pub cr3 : (k'.cr3 ≡ k.cr3) ⊎ (k'.cr3 ≡ (k.tasks t).dir)
  pub counter :
      k.last_pid + 2 < 2 ^ 32 → (k.last_pid ≤ k'.last_pid) × (k'.last_pid ≤ k.last_pid + 2)
  pub dir : (k'.tasks c).dir ≡ dir_of l c
  pub quantum : (k'.tasks c).quantum < 2 ^ 31

module _ {l : Layout} (v : IsLayout l) {k : Kernel} {live : ℕ → Bool} {rings : ℕ → List ℕ} {t : ℕ}
    (s : Safe l live k rings t) (p : ℕ) (ps : List ℕ) (first : rings l.freeq ≡ p ∷ ps) where
  abbrev pub c : ℕ
  c = child v s.inv s.family p ps first

  abbrev pub without_first : ℕ → List ℕ
  without_first = taken l rings ps

  pub idle-ne_child : k.idle_task ≢ c
  idle-ne_child e = ground (
    arith,
    v.ready_ne_free,
    s.inv.runs.idle_waits l.freeq (unfold is_head in ground arith),
    ap (λ u. has (anchor u) (rings l.freeq)) e,
    child-anchor v s.inv s.family p ps first,
    first,
  )

  -- A task that waits in the other queues is another one.
  waits-ne_child :
      (hd q : ℕ)
      → is_head l live hd ≡ true
      → is_childs l hd ≡ false
      → hd ≢ l.freeq
      → q ∈ rings hd
      → anchor_entry q ≢ c
  waits-ne_child hd q h queue ne i e =
      let sort : is_anchor l q ≡ true =
        unfold is_sorted in ground (arith, s.inv.runs.queued.sorted hd q h i) in
      let same : anchor c ≡ q = ap anchor (sym e) ∙ (anchor-is_task v q sort).1 in
      ground
        (arith, child-IsLoose v s.inv s.family p ps first hd h, ap (λ q. has q (rings hd)) same)

  pub ready-ne_child : (q : ℕ) → q ∈ rings l.readyq → anchor_entry q ≢ c
  ready-ne_child q =
      waits-ne_child l.readyq q (readyq-is_head v live) (queue-not-is_childs v l.readyq (inl refl))
        v.ready_ne_free

  pub blocked-ne_child : (q : ℕ) → q ∈ rings l.blocked → anchor_entry q ≢ c
  blocked-ne_child q =
      waits-ne_child l.blocked q (blocked-is_head v live)
        (queue-not-is_childs v l.blocked (inr (inr refl))) (λ e. v.free_ne_blocked (sym e))

  module _ {k' : Kernel} (b : But l t c k k') where
    pub stays-IsParked : (u : ℕ) → u ≢ c → IsParked k u → IsParked k' u
    stays-IsParked u ne h = rw (b.tasks u ne) h

    pub quanta-But : (u : ℕ) → is_task l u ≡ true → (k'.tasks u).quantum < 2 ^ 31
    quanta-But u h = elim (Bool-cases (u == c)) [
      | inl e ↦ let same : u ≡ c = ground arith in rw same b.quantum
      | inr ne ↦ rw (b.tasks u (ground arith)) (s.inv.runs.quanta u h)
    ]

    pub directory-But : k'.cr3 ≡ (k'.tasks t).dir
    directory-But = ground (
      arith,
      b.cr3,
      b.tasks t (λ e. child-ne_running v s.inv s.family p ps first (sym e)),
      s.inv.runs.directory,
    )

    pub less : (q hd : ℕ) → q ∈ without_first hd → q ∈ rings hd
    less = taken-less v s.inv s.family p ps first

    lost-Runs : Queued l live k'.links without_first → Runs l live k' without_first t
    lost-Runs q = record {
      queued = q;
      task = s.inv.runs.task;
      running = rw b.esp s.inv.runs.running;
      entry = rw b.esp0 s.inv.runs.entry;
      ready_parked = λ q i ne.
          stays-IsParked (anchor_entry q) (ready-ne_child q (less q l.readyq i))
            (s.inv.runs.ready_parked q (less q l.readyq i) ne);
      blocked_parked = λ q i ne.
          stays-IsParked (anchor_entry q) (blocked-ne_child q (less q l.blocked i))
            (s.inv.runs.blocked_parked q (less q l.blocked i) ne);
      idle_parked =
          rw b.idle λ ne. stays-IsParked k.idle_task idle-ne_child (s.inv.runs.idle_parked ne);
      idle = rw b.idle s.inv.runs.idle;
      idle_waits = rw b.idle λ hd h i. s.inv.runs.idle_waits hd h (less (anchor k.idle_task) hd i);
      directory = directory-But;
      quanta = quanta-But;
    }

    not_child : (u : ℕ) → live (childs u) ≡ true → k'.tasks u ≡ k.tasks u
    not_child u on = b.tasks u λ e.
        absurd (ground (arith, ap (λ u. live (childs u)) e, child-dead v s.inv s.family p ps first))

    -- The union is lost: it is in no queue and not in use.
    lost-Family : Queued l live k'.links without_first → Family l live k' without_first t
    lost-Family q = record {
      running = s.family.running;
      idle = rw b.idle s.family.idle;
      ready = λ u h i. s.family.ready u h (less (anchor u) l.readyq i);
      blocked = λ u h i. s.family.blocked u h (less (anchor u) l.blocked i);
      free = λ u h i. s.family.free u h (less (anchor u) l.freeq i);
      dead_loose = λ u h d. still-IsLoose (child_anchor u) (s.family.dead_loose u h d);
      dirs = λ u h on. ap (λ s. s.dir) (not_child u on) ∙ s.family.dirs u h on;
      orphan_loose = λ u h on e.
          still-IsLoose (child_anchor u)
            (s.family.orphan_loose u h on (sym (same_parent u on) ∙ e));
      parent = λ u h on ne.
          let old = s.family.parent u h on (λ z. ne (same_parent u on ∙ z)) in
          let field = task-is_childs v (k.tasks u).parent old.0 in
          rw (same_parent u on)
            (old.0, old.1, ground (arith, old.2, field, queue-not-is_childs v l.freeq));
    }
      where
        still-IsLoose :
            (q : ℕ) → IsLoose (is_head l live) rings q → IsLoose (is_head l live) without_first q
        still-IsLoose q out hd h = ground (arith, out hd h, less q hd)

        same_parent : (u : ℕ) → live (childs u) ≡ true → (k'.tasks u).parent ≡ (k.tasks u).parent
        same_parent u on = ap (λ s. s.parent) (not_child u on)

    pub lost-After : Queued l live k'.links without_first → After l live k rings t on_fork k'
    lost-After q = record {
      live = live;
      rings' = without_first;
      running = t;
      safe = record {
        inv = record {
          runs = lost-Runs q;
          loose = λ hd h. ground (arith, s.inv.loose hd h, less (anchor t) hd);
        };
        family = lost-Family q;
      };
      births = record {
        same = λ u h on. inl (on, ap (λ s. s.pid) (not_child u on));
        single = λ u w h h' on on' off off'. absurd (ground arith);
        counter = b.counter;
      };
      move = lose p ps first (ground (arith, v.ready_ne_free, v.free_ne_blocked));
    }
