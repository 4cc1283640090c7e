-- ===== src/ListHead/Insert.antt =====
-- `list_add` and `list_add_tail` of list.c on a ring.
use so.Common.{ℕ, List, [], ◌∷◌, ◌++◌, arith, ◌∉◌, Distinct, has-append, Distinct-snoc}
use so.ListHead.{Links, list_add, list_add_tail, list_insert}
use so.ListHead.Ring.{Chain, Ring, Chain-frame, Chain-prev}

Chain-insert_last :
    (h : Links) (n hd a : ℕ) (xs : List ℕ)
    → Chain h a xs hd
    → Distinct (a ∷ xs)
    → hd ∉ xs
    → n ∉ (hd ∷ a ∷ xs)
    → Chain (list_insert n (h.prev hd) hd h) a (xs ++ n ∷ []) hd
unfolding list_insert
Chain-insert_last h n hd a [] c d out new =
    (ground arith, ground arith, (ground arith, ground arith))
Chain-insert_last h n hd a (x ∷ xs) c d out new = (
  ground (arith, Chain-prev h x xs hd c.2),
  ground arith,
  Chain-insert_last h n hd x xs c.2 d.1 (ground arith) (ground arith),
)

Chain-insert_first :
    (h : Links) (n hd : ℕ) (xs : List ℕ)
    → Chain h hd xs hd
    → Distinct (hd ∷ xs)
    → n ∉ (hd ∷ xs)
    → Chain (list_insert n hd (h.next hd) h) hd (n ∷ xs) hd
unfolding list_insert
Chain-insert_first h n hd [] c d new = (ground arith, ground arith, (ground arith, ground arith))
Chain-insert_first h n hd (x ∷ xs) c d new = (
  ground arith,
  ground arith,
  (
    ground arith,
    ground arith,
    Chain-frame h (list_insert n hd (h.next hd) h) x xs hd (λ p i. ground arith)
        (λ p i. ground arith) (ground arith) c.2,
  ),
)

module _ {h : Links} {hd : ℕ} {xs : List ℕ} (n : ℕ) (r : Ring h hd xs) (new : n ∉ (hd ∷ xs)) where
  -- `list_add_tail` of a node outside the ring puts it behind the last entry.
  pub Ring-list_add_tail : Ring (list_add_tail n hd h) hd (xs ++ n ∷ [])
  unfolding list_add_tail
  Ring-list_add_tail = record {
    chain = Chain-insert_last h n hd hd xs r.chain (r.apart, r.distinct) r.apart (ground arith);
    apart = rw has-append (ground (arith, r.apart));
    distinct = Distinct-snoc n xs r.distinct (ground arith);
  }

  -- `list_add` of a node outside the ring puts it before the first entry.
  pub Ring-list_add : Ring (list_add n hd h) hd (n ∷ xs)
  unfolding list_add
  Ring-list_add = record {
    chain = Chain-insert_first h n hd xs r.chain (r.apart, r.distinct) new;
    apart = ground (arith, r.apart);
    distinct = (ground arith, r.distinct);
  }
