-- ===== src/Sched/Few.antt =====
-- No list of the kernel is longer than the number of tasks.
use so.Common.{
  ℕ, zero, suc, ◌+◌, ◌-◌, ◌*◌, ◌%◌, ◌<◌, ◌≤◌, ◌≡◌, ◌≢◌, Bool, true, List, [], ◌∷◌, arith, ◌∈◌,
  length, erase, Distinct, mem_of_mem-erase, not-mem-erase_self, Distinct-erase, Bool-cases, inl,
  inr,
}
use so.ListHead.{Links}
use so.Mm.Paging.{nr_tasks}
use so.Kernel.{Layout, task_size}
use so.Sched.Queues.{is_head, is_field, is_anchor, is_childs, is_child_anchor, is_sorted, Queued}

length-le-erase : (a : ℕ) (xs : List ℕ) → length xs ≤ length (erase a xs) + 1
unfolding erase
length-le-erase a [] = omega arith
length-le-erase a (x ∷ xs) = ground (arith, length-le-erase a xs)

-- One address for each of `n` tasks from `base` on, at one offset.
abbrev IsPlaced : ℕ → ℕ → ℕ → ℕ → Type 0
IsPlaced base off n p = (base ≤ p) × (p < base + task_size * n) × ((p - base) % task_size ≡ off)

IsPlaced-last :
    (base off n p : ℕ)
    → off < task_size
    → IsPlaced base off (suc n) p
    → p ≢ base + task_size * n + off
    → IsPlaced base off n p
IsPlaced-last base off n p small h ne = (h.0, omega arith, h.2)

length-le-places :
    (base off n : ℕ) (xs : List ℕ)
    → off < task_size
    → Distinct xs
    → ((p : ℕ) → p ∈ xs → IsPlaced base off n p)
    → length xs ≤ n
length-le-places base off zero [] small d h = omega arith
length-le-places base off zero (x ∷ xs) small d h =
    let first = h x (ground arith) in absurd (omega arith)
length-le-places base off (suc n) xs small d h =
    let a = base + task_size * n + off in
    let less = length-le-places base off n (erase a xs) small (Distinct-erase a xs d) λ p i.
      IsPlaced-last base off n p small (h p (mem_of_mem-erase p a xs i))
        (ground (arith, not-mem-erase_self a xs d)) in
    omega (arith, length-le-erase a xs, less)

module _ {l : Layout} {live : ℕ → Bool} {h : Links} {rings : ℕ → List ℕ}
    (q : Queued l live h rings) where
  -- A list of the kernel has at most one entry for each task.
  pub length-le-nr_tasks : (hd : ℕ) → is_head l live hd ≡ true → length (rings hd) ≤ nr_tasks
  length-le-nr_tasks hd k = elim (Bool-cases (is_childs l hd)) [
    | inl c ↦
        length-le-places l.task 32 nr_tasks (rings hd) (omega arith) (q.all.ring hd k).distinct
          λ p i. unfold is_sorted is_child_anchor is_field in ground (arith, q.sorted hd p k)
    | inr c ↦
        length-le-places l.task 4 nr_tasks (rings hd) (omega arith) (q.all.ring hd k).distinct
          λ p i. unfold is_sorted is_anchor is_field in ground (arith, q.sorted hd p k)
  ]
