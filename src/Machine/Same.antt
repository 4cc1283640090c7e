-- ===== src/Machine/Same.antt =====
-- Changes that the scheduler does not see.
use so.Common.{ℕ, ◌≡◌, refl, sym, ◌∙◌, List, Bool, true}
use so.Io.{Screen}
use so.Kernel.{Layout, Kernel, anchor_entry}
use so.Sched.Invariant.{IsParked, Inv}
use so.Sys.Family.{Family}
use so.Machine.NoBirths.{no-Births}
use so.Machine.{Safe, After, Event, may_stay, stay}

-- Two states with the same lists, in which each task waits at the same place.
pub record Same (k k' : Kernel) : Type 0 where
  pub links : k'.links ≡ k.links
  pub esp0 : k'.esp0 ≡ k.esp0
  pub esp : k'.esp ≡ k.esp
  pub idle : k'.idle_task ≡ k.idle_task
  pub stacks : (u : ℕ) → (k'.tasks u).kernel_esp ≡ (k.tasks u).kernel_esp
  pub quanta : (u : ℕ) → (k'.tasks u).quantum ≡ (k.tasks u).quantum
  pub pids : (u : ℕ) → (k'.tasks u).pid ≡ (k.tasks u).pid
  pub last_pid : k'.last_pid ≡ k.last_pid
  pub cr3 : k'.cr3 ≡ k.cr3
  pub dirs : (u : ℕ) → (k'.tasks u).dir ≡ (k.tasks u).dir
  pub parents : (u : ℕ) → (k'.tasks u).parent ≡ (k.tasks u).parent

pub Same-refl : {k : Kernel} → Same k k
Same-refl = record {
  links = refl;
  esp0 = refl;
  esp = refl;
  idle = refl;
  stacks = λ u. refl;
  quanta = λ u. refl;
  pids = λ u. refl;
  last_pid = refl;
  cr3 = refl;
  dirs = λ u. refl;
  parents = λ u. refl;
}

pub screen-Same : (k : Kernel) (screen : Screen) → Same k (record k { screen = screen })
screen-Same k screen = record {
  links = refl;
  esp0 = refl;
  esp = refl;
  idle = refl;
  stacks = λ u. refl;
  quanta = λ u. refl;
  pids = λ u. refl;
  last_pid = refl;
  cr3 = refl;
  dirs = λ u. refl;
  parents = λ u. refl;
}

module _ {l : Layout} {k k' : Kernel} {live : ℕ → Bool} {rings : ℕ → List ℕ} {t : ℕ}
    (s : Safe l live k rings t) (same : Same k k') where
  Same-IsParked : (u : ℕ) → IsParked k u → IsParked k' u
  Same-IsParked u p = rw (same.stacks u) p

  Same-Inv : Inv l live k' rings t
  Same-Inv = record {
    runs = record {
      queued = rw same.links s.inv.runs.queued;
      task = s.inv.runs.task;
      running = rw same.esp s.inv.runs.running;
      entry = rw same.esp0 s.inv.runs.entry;
      ready_parked = λ p i ne. Same-IsParked (anchor_entry p) (s.inv.runs.ready_parked p i ne);
      blocked_parked = λ p i ne. Same-IsParked (anchor_entry p) (s.inv.runs.blocked_parked p i ne);
      idle_parked = rw same.idle (λ ne. Same-IsParked k.idle_task (s.inv.runs.idle_parked ne));
      idle = rw same.idle s.inv.runs.idle;
      idle_waits = rw same.idle s.inv.runs.idle_waits;
      directory = same.cr3 ∙ s.inv.runs.directory ∙ sym (same.dirs t);
      quanta = λ u h. rw (same.quanta u) (s.inv.runs.quanta u h);
    };
    loose = s.inv.loose;
  }

  Same-Family : Family l live k' rings t
  Same-Family = record {
    running = s.family.running;
    idle = rw same.idle s.family.idle;
    ready = s.family.ready;
    blocked = s.family.blocked;
    free = s.family.free;
    dead_loose = s.family.dead_loose;
    dirs = λ u h on. same.dirs u ∙ s.family.dirs u h on;
    orphan_loose = λ u h on e. s.family.orphan_loose u h on (rw (← same.parents u) e);
    parent = λ u h on. rw (same.parents u) (s.family.parent u h on);
  }

  pub Same-Safe : Safe l live k' rings t
  Same-Safe = record { inv = Same-Inv; family = Same-Family }

  pub Same-After : (e : Event) → may_stay e ≡ true → After l live k rings t e k'
  Same-After e may = record {
    live = live;
    rings' = rings;
    running = t;
    safe = Same-Safe;
    births = no-Births same.pids same.last_pid (λ u on. on);
    move = stay e may refl;
  }
