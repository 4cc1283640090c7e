-- ===== src/Sched/Heads.antt =====
-- A list of children more or less among the lists of the kernel, and changes that spare all lists.
use so.Common.{
  ℕ, ◌≡◌, ◌≢◌, Bool, true, false, not, ◌&&◌, ◌||◌, List, [], ◌∷◌, arith, ◌∈◌, ◌==◌, update, has,
  inl, inr, Bool-cases, ap,
}
use so.ListHead.{Links, init_list_head}
use so.ListHead.Walk.{Ring-init_list_head}
use so.ListHead.Apart.{SameAt, Ring-frame, Ring-frame, SameAt}
use so.ListHead.Rings.{Rings-frame, IsLoose}
use so.Kernel.{Layout}
use so.Kernel.Placement.{IsLayout}
use so.Sched.Queues.{
  is_head, is_field, is_childs, is_child_anchor, is_anchor, is_sorted, Queued, anchor-ne_head,
}

-- One more list of children.
abbrev pub also : ℕ → (ℕ → Bool) → ℕ → Bool
also hd live p = (p == hd) || live p

module _ {l : Layout} (v : IsLayout l) {live : ℕ → Bool} {h : Links} {rings : ℕ → List ℕ}
    (q : Queued l live h rings) (hd : ℕ) (field : is_childs l hd ≡ true)
    (new : live hd ≡ false) where
  pub new-IsLoose : IsLoose (is_head l live) rings hd
  new-IsLoose kd k = elim (Bool-cases (has hd (kd ∷ rings kd))) [
    | inr out ↦ out
    | inl i ↦ elim (Bool-cases (hd == kd)) [
      | inl e ↦ absurd (
          unfold is_head is_childs is_field in
          ground (
            arith,
            v.ready_global,
            v.free_global,
            v.blocked_global,
            ap live {x = hd} {y = kd} (ground arith),
          ))
      | inr ne ↦ absurd (
          unfold is_sorted is_childs is_child_anchor is_anchor is_field in
          ground (arith, q.sorted kd hd k (ground arith)))
    ]
  ]

  old_head : (kd : ℕ) → is_head l (also hd live) kd ≡ true → kd ≢ hd → is_head l live kd ≡ true
  unfolding is_head
  old_head kd k ne = ground arith

  more_heads : (kd : ℕ) → is_head l live kd ≡ true → is_head l (also hd live) kd ≡ true
  unfolding is_head
  more_heads kd k = ground arith

  new_head : is_head l (also hd live) hd ≡ true
  unfolding is_head
  new_head = ground arith

  init_same :
      (kd : ℕ)
      → is_head l live kd ≡ true
      → (p : ℕ) → p ∈ (kd ∷ rings kd)
      → SameAt h (init_list_head hd h) p
  unfolding init_list_head
  init_same kd k p i = ground (arith, new-IsLoose kd k)

  -- `INIT_LIST_HEAD` of the list of children of a task adds an empty list to the lists.
  pub Queued-init_list_head : Queued l (also hd live) (init_list_head hd h) (update rings hd [])
  Queued-init_list_head = record {
    all = record {
      ring = λ kd k. elim (Bool-cases (kd == hd)) [
        | inl e ↦ let same : kd ≡ hd = ground arith in rw (e, same) (Ring-init_list_head h hd)
        | inr e ↦
            let old = old_head kd k (ground arith) in
            rw e (Ring-frame (init_same kd old) (q.all.ring kd old))
      ];
      apart = λ a b i j ne p m. elim (Bool-cases (a == hd)) [
        | inl e ↦ let old = old_head b j (ground arith) in ground (arith, new-IsLoose b old)
        | inr e ↦
            let old = old_head a i (ground arith) in
            elim (Bool-cases (b == hd)) [
              | inl e' ↦ ground (arith, new-IsLoose a old)
              | inr e' ↦ ground (arith, q.all.apart a b old (old_head b j (ground arith)) ne p)
            ]
      ];
    };
    sorted = λ kd p k i. elim (Bool-cases (kd == hd)) [
      | inl e ↦ absurd (ground arith)
      | inr e ↦ q.sorted kd p (old_head kd k (ground arith)) (ground arith)
    ];
    unlinked = λ p a out.
        let before : IsLoose (is_head l live) rings p =
          λ kd k. ground (arith, out kd (more_heads kd k), new-IsLoose kd k) in
        unfold init_list_head in
        ground (arith, q.unlinked p a before, anchor-ne_head v (also hd live) p hd a (new_head));
  }

-- One list of children less.
abbrev pub without : ℕ → (ℕ → Bool) → ℕ → Bool
without hd live p = not (p == hd) && live p

module _ {l : Layout} (v : IsLayout l) {live : ℕ → Bool} {h : Links} {rings : ℕ → List ℕ}
    (q : Queued l live h rings) where
  kept_head : (hd kd : ℕ) → is_head l (without hd live) kd ≡ true → is_head l live kd ≡ true
  unfolding is_head
  kept_head hd kd k = ground arith

  -- An empty list of children may be forgotten.
  pub Queued-without :
      (hd : ℕ) → is_childs l hd ≡ true → rings hd ≡ [] → Queued l (without hd live) h rings
  Queued-without hd field empty = record {
    all = record {
      ring = λ kd k. q.all.ring kd (kept_head hd kd k);
      apart = λ a b i j. q.all.apart a b (kept_head hd a i) (kept_head hd b j);
    };
    sorted = λ kd p k. q.sorted kd p (kept_head hd kd k);
    unlinked = λ p a out. q.unlinked p a λ kd k. elim (Bool-cases (kd == hd)) [
      | inl e ↦
          let same : kd ≡ hd = ground arith in
          rw same (ground (arith, ap (has p) empty, anchor-ne_head v live p kd a k))
      | inr e ↦ out kd (unfold is_head in ground arith)
    ];
  }

  -- The lists do not see a change that spares their nodes and the anchors.
  pub Queued-frame :
      (g : Links)
      → ((p hd : ℕ) → is_head l live hd ≡ true → p ∈ (hd ∷ rings hd) → SameAt h g p)
      → ((p : ℕ) → is_anchor l p ≡ true → IsLoose (is_head l live) rings p → SameAt h g p)
      → Queued l live g rings
  Queued-frame g same free = record {
    all = Rings-frame same q.all;
    sorted = q.sorted;
    unlinked = λ p a out. ground (arith, q.unlinked p a out, free p a out);
  }
