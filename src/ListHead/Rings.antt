-- ===== src/ListHead/Rings.antt =====
-- All lists of a store at once: `rings hd` is what the list at `hd` stands for, for each head.
use so.Common.{
  ℕ, ◌≡◌, ◌≢◌, Bool, true, List, [], ◌∷◌, ◌++◌, arith, ◌∈◌, ◌∉◌, ◌==◌, update, erase, Bool-cases,
  inl, inr, has-append, mem_of_mem-erase, not-mem-erase_self,
}
use so.ListHead.{Links, list_add_tail, list_del}
use so.ListHead.Ring.{Ring}
use so.ListHead.Insert.{Ring-list_add_tail}
use so.ListHead.Delete.{Ring-list_del}
use so.ListHead.Apart.{SameAt, Ring-frame, Apart, Ring-list_add_tail_apart, Ring-list_del_apart}

pub record Rings (is_head : ℕ → Bool) (h : Links) (rings : ℕ → List ℕ) : Type 0 where
  pub ring : (hd : ℕ) → is_head hd ≡ true → Ring h hd (rings hd)
  pub apart :
      (hd kd : ℕ)
      → is_head hd ≡ true
      → is_head kd ≡ true
      → hd ≢ kd
      → Apart hd (rings hd) kd (rings kd)

-- A node of no list.
abbrev pub IsLoose : (ℕ → Bool) → (ℕ → List ℕ) → ℕ → Type 0
IsLoose is_head rings p = (hd : ℕ) → is_head hd ≡ true → p ∉ (hd ∷ rings hd)

module _ {is_head : ℕ → Bool} {h : Links} {rings : ℕ → List ℕ} (r : Rings is_head h rings) (hd : ℕ)
    (head : is_head hd ≡ true) where
  -- `list_add_tail` of a loose node lengthens one list and leaves the other ones.
  pub Rings-list_add_tail :
      (n : ℕ)
      → IsLoose is_head rings n
      → Rings is_head (list_add_tail n hd h) (update rings hd (rings hd ++ n ∷ []))
  Rings-list_add_tail n loose = record {
    ring = λ kd k. elim (Bool-cases (kd == hd)) [
      | inl e ↦
          let same : kd ≡ hd = ground arith in
          rw (e, same) (Ring-list_add_tail n (r.ring hd head) (loose hd head))
      | inr e ↦ rw e (
          Ring-list_add_tail_apart (r.ring hd head) (r.ring kd k)
            (r.apart hd kd head k (ground arith)) n (loose kd k))
    ];
    apart = λ a b i j ne p m.
        ground
          (arith, r.apart a b i j ne p, loose a i, loose b j, has-append p (rings hd) (n ∷ []));
  }

  -- `list_del` of an entry shortens one list and leaves the other ones.
  pub Rings-list_del :
      (e : ℕ) → e ∈ rings hd → Rings is_head (list_del e h) (update rings hd (erase e (rings hd)))
  Rings-list_del e mem = record {
    ring = λ kd k. elim (Bool-cases (kd == hd)) [
      | inl q ↦
          let same : kd ≡ hd = ground arith in rw (q, same) (Ring-list_del e (r.ring hd head) mem).0
      | inr q ↦ rw q (
          Ring-list_del_apart (r.ring hd head) (r.ring kd k) (r.apart hd kd head k (ground arith)) e
            mem)
    ];
    apart = λ a b i j ne p m. ground (arith, r.apart a b i j ne p, mem_of_mem-erase p e (rings hd));
  }

  -- The entry is loose afterwards.
  pub IsLoose-list_del :
      (e : ℕ) → e ∈ rings hd → IsLoose is_head (update rings hd (erase e (rings hd))) e
  IsLoose-list_del e mem kd k = elim (Bool-cases (kd == hd)) [
    | inl q ↦
        let same : kd ≡ hd = ground arith in
        ground
          (arith, not-mem-erase_self e (rings hd) (r.ring hd head).distinct, (r.ring hd head).apart)
    | inr q ↦ rw q (r.apart hd kd head k (ground arith) e (ground arith))
  ]

-- Rings do not see a change that spares their nodes.
pub Rings-frame :
    {is_head : ℕ → Bool} {h g : Links} {rings : ℕ → List ℕ}
    → ((p hd : ℕ) → is_head hd ≡ true → p ∈ (hd ∷ rings hd) → SameAt h g p)
    → Rings is_head h rings
    → Rings is_head g rings
Rings-frame same r = record {
  ring = λ hd k. Ring-frame (λ p i. same p hd k i) (r.ring hd k);
  apart = r.apart;
}
