-- ===== src/ListHead/Apart.antt =====
-- A list operation on one ring leaves every ring that shares no node with it as it was.
use so.Common.{ℕ, ◌≡◌, List, ◌∷◌, arith, ◌∈◌, ◌∉◌, ◌≢◌}
use so.ListHead.{Links, list_add_tail, list_del}
use so.ListHead.Ring.{Ring, Chain-frame, Chain-prev}
use so.ListHead.Delete.{Chain-prev_mem, Chain-next_mem}

-- No node of the first ring is a node of the second.
abbrev pub Apart : ℕ → List ℕ → ℕ → List ℕ → Type 0
Apart hd xs kd ys = (p : ℕ) → p ∈ (hd ∷ xs) → p ∉ (kd ∷ ys)

-- A ring survives any change that spares its nodes.
pub Ring-frame :
    {h g : Links} {hd : ℕ} {xs : List ℕ}
    → ((p : ℕ) → p ∈ (hd ∷ xs) → (g.next p ≡ h.next p) × (g.prev p ≡ h.prev p))
    → Ring h hd xs
    → Ring g hd xs
Ring-frame {h} {g} {hd} {xs} same r = record {
  chain =
      Chain-frame h g hd xs hd (λ p i. (same p i).0) (λ p i. (same p (ground arith)).1)
        (same hd (ground arith)).1 r.chain;
  apart = r.apart;
  distinct = r.distinct;
}

module _ {h : Links} {hd kd : ℕ} {xs ys : List ℕ} (r : Ring h hd xs) (s : Ring h kd ys)
    (d : Apart hd xs kd ys) where
  pub Ring-list_add_tail_apart : (n : ℕ) → n ∉ (kd ∷ ys) → Ring (list_add_tail n hd h) kd ys
  unfolding list_add_tail
  Ring-list_add_tail_apart n new =
      Ring-frame (λ p i. ground (arith, d hd, d (h.prev hd), Chain-prev h hd xs hd r.chain)) s

  pub Ring-list_del_apart : (e : ℕ) → e ∈ xs → Ring (list_del e h) kd ys
  unfolding list_del
  Ring-list_del_apart e i =
      Ring-frame
        (λ p j. ground (
          arith,
          d e,
          d (h.prev e),
          d (h.next e),
          Chain-prev_mem h e hd xs hd r.chain,
          Chain-next_mem h e hd xs hd r.chain,
        ))
        s

-- The words of a node that takes no part stay.
abbrev pub SameAt : Links → Links → ℕ → Type 0
SameAt h g p = (g.next p ≡ h.next p) × (g.prev p ≡ h.prev p)

module _ {h : Links} {hd : ℕ} {xs : List ℕ} (r : Ring h hd xs) (p : ℕ) (out : p ∉ (hd ∷ xs)) where
  pub list_add_tail-SameAt : (n : ℕ) → p ≢ n → SameAt h (list_add_tail n hd h) p
  unfolding list_add_tail
  list_add_tail-SameAt n ne = ground (arith, Chain-prev h hd xs hd r.chain)

  pub list_del-SameAt : (e : ℕ) → e ∈ xs → SameAt h (list_del e h) p
  unfolding list_del
  list_del-SameAt e i =
      ground (arith, Chain-prev_mem h e hd xs hd r.chain, Chain-next_mem h e hd xs hd r.chain)
