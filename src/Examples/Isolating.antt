-- ===== src/Examples/Isolating.antt =====
-- The memory, the PIDs and the quanta of tasks at concrete states.
use so.Common.{ℕ, ◌-◌, ◌^◌, ◌<◌, ◌≤◌, ◌≡◌, refl, Bool, List, [], ◌∷◌, arith, wsub, if◌then◌else◌}
use so.Io.{printk}
use so.Kernel.{Kernel, anchor, anchor_entry}
use so.Interrupt.{clock_service}
use so.Mm.Paging.{num_pag_code, num_pag_data}
use so.Mm.Isolation.Blank.{blank}
use so.Mm.Isolation.First.{Given}
use so.Machine.{Safe, owner, on_fork, on_tick}
use so.Machine.Fair.{step, done, switches}
use so.Machine.Paged.{IsPaged}
use so.Machine.Pids.{HasPids, steps}
use so.Machine.Private.{IsPrivate, Step-IsPaged}
use so.Machine.Quantum.{budget, ticks, clock_service-quantum, ticks-le_budget}
use so.Machine.Same.{Same-Safe}
use so.Machine.Steps.{Reach, Step, tick, fork, start, next, owner-running}
use so.Sched.Boot.{first_childs, first_rings}
use so.Sched.Tick.{expires}
use so.Sys.{sys_fork}
use so.System.{main}
use so.System.Pids.{main-pids}
use so.System.Private.{main-IsPaged, main-Given, main-IsPrivate}
use so.System.Started.{main-Safe}
use so.Examples.State.{layout, layout-IsLayout, live, rings, kernel}
use so.Examples.Running.{kernel-Safe}
use so.Examples.Starting.{handlers, loaded_system, loaded}

-- Task 1 on its stack after `main`.
abbrev first : Kernel
first = record (main layout 0x12345 (λ i. i) handlers loaded loaded_system).0.0.kernel {
  esp = 0x21F00;
}

first-Safe : Safe layout (first_childs layout-IsLayout) first (first_rings layout-IsLayout) 0x21000
first-Safe =
    main-Safe layout-IsLayout 0x12345 (λ i. i) handlers loaded loaded_system (λ p. (refl, refl))
      (λ u. refl) (λ u. omega arith) 0x21F00 (omega arith, omega arith)

-- Its first call of `sys_fork`.
abbrev forked : Kernel
forked = (sys_fork layout 0x21E00 first).1

forks : Step layout first on_fork forked
forks =
    let own = owner-running layout-IsLayout first-Safe in
    fork first 0x21E00 (rw own (omega arith, omega arith)) (rw own (omega arith, omega arith))
      (rw own (omega arith))

path : Reach layout first forked
path = next first on_fork forked start forks

main-IsPrivate_example : IsPrivate layout forked
main-IsPrivate_example =
    main-IsPrivate layout-IsLayout 0x12345 (λ i. i) handlers loaded loaded_system forked 0x21F00
      (λ p. (refl, refl)) (λ u. refl) (λ u. omega arith) (omega arith, omega arith) path

main-Given_example :
    Given 0x40000 1 num_pag_code num_pag_data
      (blank 0x30000 0x40000 layout-IsLayout.tables_apart loaded_system.kernel.memory)
      first.memory
main-Given_example = main-Given layout-IsLayout 0x12345 (λ i. i) handlers loaded loaded_system

Step-IsPaged_example : IsPaged layout forked.memory
Step-IsPaged_example =
    Step-IsPaged layout-IsLayout first-Safe
      (main-IsPaged layout-IsLayout 0x12345 (λ i. i) handlers loaded loaded_system) forks

one_step : steps path < 2 ^ 31 - 1
unfolding steps path
one_step = omega arith

main-pids_example :
    (live' : ℕ → Bool) × (rings' : ℕ → List ℕ) × Safe layout live' forked rings' (owner forked)
    × HasPids layout live' forked
main-pids_example =
    main-pids layout-IsLayout 0x12345 (λ i. i) handlers loaded loaded_system (λ p. (refl, refl))
      (λ u. refl) (λ u. omega arith) refl 0x21F00 forked (omega arith, omega arith) path one_step

-- Five ticks are left, and task 2 is ready.
abbrev patient : Kernel
patient = record kernel { quantum_ticks = 5 }

patient-Safe : Safe layout live patient rings 0x21000
patient-Safe = Same-Safe kernel-Safe (record {
  links = refl;
  esp0 = refl;
  esp = refl;
  idle = refl;
  stacks = λ u. refl;
  quanta = λ u. refl;
  pids = λ u. refl;
  last_pid = refl;
  cr3 = refl;
  dirs = λ u. refl;
  parents = λ u. refl;
})

abbrev ticked : Kernel
ticked = clock_service layout (printk 80 (λ i. 0)) 0x21E00 patient

clock_service-quantum_example :
    (ticked.quantum_ticks ≡ wsub 5 1)
    × (owner ticked ≡ (if expires patient then anchor_entry (anchor 0x22000) else 0x21000))
clock_service-quantum_example =
    clock_service-quantum layout-IsLayout patient-Safe (printk 80 (λ i. 0)) 0x21E00
      (omega arith, omega arith) (omega arith, omega arith) (anchor 0x22000) [] refl

ticks_once : Step layout patient on_tick ticked
ticks_once =
    tick patient (printk 80 (λ i. 0)) 0x21E00 (unfold owner in (omega arith, omega arith))
      (unfold owner in (omega arith, omega arith))

no_switch : switches 0x21000 (ticked ∷ []) ≡ 0
unfolding switches
no_switch =
    let now =
      clock_service-quantum layout-IsLayout patient-Safe (printk 80 (λ i. 0)) 0x21E00
        (omega arith, omega arith) (omega arith, omega arith) (anchor 0x22000) [] refl in
    let same : owner ticked ≡ 0x21000 = now.1 in ground (arith, same)

ticks-le_budget_example : ticks (step patient on_tick ticked [] ticks_once (done ticked)) ≤ budget 5
ticks-le_budget_example =
    ticks-le_budget layout-IsLayout (ticked ∷ []) (anchor 0x22000) [] patient-Safe refl
      (step patient on_tick ticked [] ticks_once (done ticked)) no_switch
