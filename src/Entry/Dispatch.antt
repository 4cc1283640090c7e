-- ===== src/Entry/Dispatch.antt =====
-- The system calls by number, as steps of the kernel.
use so.Common.{
  ◌∙◌, ap, ℕ, zero, suc, ◌<◌, ◌≤◌, ◌+◌, ◌≡◌, refl, ◌≢◌, Bool, true, false, List, [], ◌∷◌, Option,
  none, some, arith, wneg, is_neg, ltb, length, get_elem?, has, ◌∉◌, ◌||◌, Bool-cases, inl, inr,
  ◌⊎◌, ◌&&◌, ◌==◌,
}
use so.Kernel.{Layout, Kernel}
use so.Kernel.Placement.{IsLayout, InUnion}
use so.Sched.Invariant.{IsResumable}
use so.Machine.{Safe, After, owner, Event, on_block, on_unblock, on_fork, on_exit, on_other}
use so.Machine.Steps.{Step, move_esp, write, block, unblock, fork, exit, owner-running, Step-After}
use so.Sys.{sys_ni_syscall, sys_write, user_end}
use so.Sys.Write.{IsOnStack, Wrote, wrote, refused, sys_write-Wrote}
use so.Entry.{
  Registers, Context, Service, calls_ni, calls_exit, calls_fork, calls_write, calls_block,
  calls_unblock, calls_gettime, calls_getpid, sys_call_table, max_syscall, value_of, serve,
  system_call_handler,
}

-- What a service asks of the kernel.
abbrev event_of : Service → Event
event_of calls_ni = on_other
event_of calls_exit = on_exit
event_of calls_fork = on_fork
event_of calls_write = on_other
event_of calls_block = on_block
event_of calls_unblock = on_unblock
event_of calls_gettime = on_other
event_of calls_getpid = on_other

-- What the number of a call asks of the kernel.
abbrev pub event_at : ℕ → Event
event_at n = elim (get_elem? sys_call_table n) [ none ↦ on_other | some s ↦ event_of s ]

get_elem?_cases {ℓ} :
    {A : Type ℓ} (xs : List A) (n : ℕ)
    → ((length xs ≤ n) × (get_elem? xs n ≡ none))
      ⊎ ((x : A) × (n < length xs) × (get_elem? xs n ≡ some x))
get_elem?_cases [] n = inl (omega arith, refl)
get_elem?_cases (x ∷ xs) zero = inr (x, omega arith, refl)
get_elem?_cases (x ∷ xs) (suc n) = elim (get_elem?_cases xs n) [
  | inl (le, e) ↦ inl (omega arith, e)
  | inr (y, lt, e) ↦ inr (y, omega arith, e)
]

-- What a `sys_write` needs to return.
abbrev pub Returnable : Context → Registers → Kernel → Type 0
Returnable c r k = IsOnStack r.ebx c.buff c.low k × (r.ecx + r.ebx ≤ user_end)

-- An answer, and a step that leads to its kernel.
abbrev Stepped : Layout → Kernel → Event → Option (Option ℕ × Kernel) → Type 0
Stepped l k e answer = (eax : Option ℕ) × (k' : Kernel) × (answer ≡ some (eax, k')) × Step l k e k'

module _ (l : Layout) (c : Context) (r : Registers) where
  write-Stepped :
      (k : Kernel)
      → Wrote k r.ebx (sys_write r.edx r.ecx r.ebx c.buff c.low c.mem k)
      → Stepped l k on_other (serve l c r calls_write k)
  unfolding serve
  write-Stepped k (wrote screen small e) =
      let k' : Kernel = record k { screen = screen } in
      (some r.ebx, k', ap value_of e, write k r.edx r.ecx r.ebx c.buff c.low c.mem r.ebx k' e)
  write-Stepped k (refused n known e) =
      (some (wneg n), k, ap value_of e, write k r.edx r.ecx r.ebx c.buff c.low c.mem (wneg n) k e)

  serve-Stepped :
      (k : Kernel) (s : Service)
      → InUnion (owner k) k.esp
      → IsResumable (owner k) c.ebp
      → owner k + 4 ≤ c.ebp
      → owner k ≢ k.idle_task
      → (s ≡ calls_write → Returnable c r k)
      → Stepped l k (event_of s) (serve l c r s k)
  unfolding serve
  serve-Stepped k calls_ni i m d ne ok = (some sys_ni_syscall, k, refl, move_esp k k.esp i)
  serve-Stepped k calls_exit i m d ne ok = (none, _, refl, exit k c.ebp i m ne)
  serve-Stepped k calls_fork i m d ne ok = (_, _, refl, fork k c.ebp i m d)
  serve-Stepped k calls_write i m d ne ok =
      let (stack, inside) = ok refl in
      write-Stepped k (sys_write-Wrote r.edx r.ecx r.ebx c.buff c.low c.mem k stack inside)
  serve-Stepped k calls_block i m d ne ok = (none, _, refl, block k c.ebp i m ne)
  serve-Stepped k calls_unblock i m d ne ok = (_, _, refl, unblock k r.edx i)
  serve-Stepped k calls_gettime i m d ne ok = (_, k, refl, move_esp k k.esp i)
  serve-Stepped k calls_getpid i m d ne ok = (_, k, refl, move_esp k k.esp i)

-- An answer, and what its kernel keeps.
abbrev Answered :
    (l : Layout) (live : ℕ → Bool) (k : Kernel) (rings : ℕ → List ℕ) (t : ℕ) (e : Event)
    → Option (Option ℕ × Kernel)
    → Type 0
Answered l live k rings t e answer =
    (eax : Option ℕ) × (k' : Kernel) × (answer ≡ some (eax, k')) × After l live k rings t e k'

module _ {l : Layout} (v : IsLayout l) {k : Kernel} {live : ℕ → Bool} {rings : ℕ → List ℕ} {t : ℕ}
    (s : Safe l live k rings t) (c : Context) (r : Registers) where
  serve-After :
      (service : Service)
      → InUnion t k.esp
      → IsResumable t c.ebp
      → t + 4 ≤ c.ebp
      → t ≢ k.idle_task
      → (service ≡ calls_write → Returnable c r k)
      → Answered l live k rings t (event_of service) (serve l c r service k)
  serve-After service i m d ne ok =
      let o : owner k ≡ t = owner-running v s in
      let (eax, k', e, one) =
        serve-Stepped l c r k service (rw o i) (rw o m) (rw o d) (rw o ne) ok in
      (eax, k', e, Step-After v s one)

  -- A system call of a task other than idle, whose number is not MAX_SYSCALL, and which, if it is a
  -- write, finds room for its array on the stack and does not reach behind the user's pages, leads
  -- through the dispatch to a safe kernel, and what it does to the running task and the queues is a
  -- move that the service of that number in the table allows; a number without one changes no
  -- queue.
  pub system_call_handler-After :
      InUnion t k.esp
      → IsResumable t c.ebp
      → t + 4 ≤ c.ebp
      → t ≢ k.idle_task
      → r.eax ≢ max_syscall
      → (get_elem? sys_call_table r.eax ≡ some calls_write → Returnable c r k)
      → (eax : Option ℕ) × (k' : Kernel) × (system_call_handler l c r k ≡ some (eax, k'))
        × After l live k rings t (event_at r.eax) k'
  unfolding system_call_handler
  system_call_handler-After i m d ne in_table ok = elim (get_elem?_cases sys_call_table r.eax) [
    | inl (out, missing) ↦
        let denied : (is_neg r.eax || ltb max_syscall r.eax) ≡ true = ground arith in
        let o : owner k ≡ t = owner-running v s in
        rw (denied, missing) (some (wneg 38), k, refl, Step-After v s (move_esp k k.esp (rw o i)))
    | inr (service, inside, found) ↦
        let accepted : (is_neg r.eax || ltb max_syscall r.eax) ≡ false = ground arith in
        rw (accepted, found) (serve-After service i m d ne (λ e. ok (found ∙ ap some e)))
  ]

-- The numbers of the calls that have a handler.
abbrev served : List ℕ
served = 1 ∷ 2 ∷ 4 ∷ 5 ∷ 6 ∷ 10 ∷ 20 ∷ []

abbrev is_ni : Option Service → Bool
is_ni (some calls_ni) = true
is_ni entry = false

ni_of_is_ni : (entry : Option Service) → is_ni entry ≡ true → entry ≡ some calls_ni
ni_of_is_ni none h = absurd (ground arith)
ni_of_is_ni (some calls_ni) h = refl
ni_of_is_ni (some calls_exit) h = absurd (ground arith)
ni_of_is_ni (some calls_fork) h = absurd (ground arith)
ni_of_is_ni (some calls_write) h = absurd (ground arith)
ni_of_is_ni (some calls_block) h = absurd (ground arith)
ni_of_is_ni (some calls_unblock) h = absurd (ground arith)
ni_of_is_ni (some calls_gettime) h = absurd (ground arith)
ni_of_is_ni (some calls_getpid) h = absurd (ground arith)

-- Whether the test holds of the numbers below `n`.
abbrev all_below : (ℕ → Bool) → ℕ → Bool
all_below test zero = true
all_below test (suc n) = test n && all_below test n

all_below-holds : (test : ℕ → Bool) (n i : ℕ) → all_below test n ≡ true → i < n → test i ≡ true
all_below-holds test zero i all lt = absurd (omega arith)
all_below-holds test (suc n) i all lt = elim (Bool-cases (i == n)) [
  | inl same ↦ let e : i ≡ n = ground arith in rw e (ground arith)
  | inr below ↦ all_below-holds test n i (ground arith) (ground arith)
]

abbrev has_handler_or_ni : ℕ → Bool
has_handler_or_ni n = has n served || is_ni (get_elem? sys_call_table n)

unserved : (n : ℕ) → n < max_syscall → n ∉ served → get_elem? sys_call_table n ≡ some calls_ni
unserved n small unknown =
    let h : has_handler_or_ni n ≡ true =
      all_below-holds has_handler_or_ni max_syscall n refl small in
    ni_of_is_ni (get_elem? sys_call_table n) (ground (arith, unknown, h))

-- A system call whose number is none of those with a handler, and not MAX_SYSCALL, returns -38 and
-- changes nothing.
pub system_call_handler_unknown :
    (l : Layout) (c : Context) (r : Registers) (k : Kernel)
    → r.eax ∉ served
    → r.eax ≢ max_syscall
    → system_call_handler l c r k ≡ some (some (wneg 38), k)
unfolding system_call_handler serve sys_ni_syscall
system_call_handler_unknown l c r k unknown in_table = elim (Bool-cases (ltb r.eax max_syscall)) [
  | inl inside ↦
      let accepted : (is_neg r.eax || ltb max_syscall r.eax) ≡ false = ground arith in
      rw (accepted, unserved r.eax (ground arith) unknown) refl
  | inr outside ↦ ground arith
]
