-- ===== src/ListHead/Delete.antt =====
-- `list_del` of list.c on a ring.
use so.Common.{
  ℕ, ◌≡◌, List, [], ◌∷◌, arith, ◌∈◌, ◌∉◌, Distinct, erase, not-mem-erase, Distinct-erase, inl, inr,
  Bool-cases, ◌==◌,
}
use so.ListHead.{Links, null, list_del}
use so.ListHead.Ring.{Chain, Ring, Chain-frame, Chain-next}

module _ (h : Links) (e : ℕ) where
  pub Chain-prev_mem : (a : ℕ) (xs : List ℕ) (b : ℕ) → Chain h a xs b → e ∈ xs → h.prev e ∈ (a ∷ xs)
  Chain-prev_mem a [] b c i = ground arith
  Chain-prev_mem a (x ∷ xs) b c i = ground (arith, Chain-prev_mem x xs b c.2)

  pub Chain-next_mem : (a : ℕ) (xs : List ℕ) (b : ℕ) → Chain h a xs b → e ∈ xs → h.next e ∈ (b ∷ xs)
  Chain-next_mem a [] b c i = ground arith
  Chain-next_mem a (x ∷ xs) b c i =
      ground (arith, Chain-next_mem x xs b c.2, Chain-next h x xs b c.2)

  Chain-list_del_first :
      (a : ℕ) (xs : List ℕ) (b : ℕ)
      → Chain h a (e ∷ xs) b
      → Distinct (a ∷ e ∷ xs)
      → b ∉ (e ∷ xs)
      → Chain (list_del e h) a xs b
  unfolding list_del
  Chain-list_del_first a [] b c d out = (ground arith, ground arith)
  Chain-list_del_first a (x ∷ xs) b c d out = (
    ground arith,
    ground arith,
    Chain-frame h (list_del e h) x xs b (λ p i. ground arith) (λ p i. ground arith) (ground arith)
        c.2.2,
  )

  Chain-list_del :
      (a : ℕ) (xs : List ℕ) (b : ℕ)
      → Chain h a xs b
      → Distinct (a ∷ xs)
      → b ∉ xs
      → e ∈ xs
      → Chain (list_del e h) a (erase e xs) b
  unfolding erase
  Chain-list_del a [] b c d out i = ground arith
  Chain-list_del a (x ∷ xs) b c d out i = elim (Bool-cases (x == e)) [
    | inl hit ↦ rw hit (Chain-list_del_first a xs b (ground arith) (ground arith) (ground arith))
    | inr miss ↦ rw miss (
      unfold list_del in ground (arith, Chain-prev_mem x xs b c.2, Chain-next_mem x xs b c.2),
      unfold list_del in ground (arith, Chain-prev_mem x xs b c.2, Chain-next_mem x xs b c.2),
      Chain-list_del x xs b c.2 d.1 (ground arith) (ground arith),
    )
  ]

module _ {h : Links} {hd : ℕ} {xs : List ℕ} (e : ℕ) (r : Ring h hd xs) (i : e ∈ xs) where
  -- `list_del` of an entry takes it out of the ring, and leaves both of its words NULL.
  pub Ring-list_del :
      Ring (list_del e h) hd (erase e xs)
      × ((list_del e h).next e ≡ null)
      × ((list_del e h).prev e ≡ null)
  Ring-list_del = (
    record {
      chain = Chain-list_del h e hd xs hd r.chain (r.apart, r.distinct) r.apart i;
      apart = not-mem-erase hd e xs r.apart;
      distinct = Distinct-erase e xs r.distinct;
    },
    unfold list_del in ground arith,
    unfold list_del in ground arith,
  )
