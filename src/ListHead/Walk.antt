-- ===== src/ListHead/Walk.antt =====
-- Reading a ring: `list_for_each`, `list_first`, `list_empty`, `list_is_last`, and the empty ring.
use so.Common.{
  ℕ, zero, suc, ◌<◌, ◌≡◌, refl, ◌≢◌, true, false, List, [], ◌∷◌, arith, ◌∈◌, ◌∉◌, Distinct, length,
  ◌==◌, Bool, Bool-cases, inl, inr,
}
use so.ListHead.{Links, init_list_head, list_empty, list_first, list_is_last, list_for_each, walk}
use so.ListHead.Ring.{Chain, Ring}

-- `INIT_LIST_HEAD` makes the empty ring.
pub Ring-init_list_head : (h : Links) (hd : ℕ) → Ring (init_list_head hd h) hd []
unfolding init_list_head
Ring-init_list_head h hd = record { chain = ground arith; apart = refl; distinct = tt }

Chain-walk :
    (h : Links) (f a : ℕ) (xs : List ℕ) (hd : ℕ)
    → Chain h a xs hd
    → hd ∉ xs
    → length xs < f
    → walk f (h.next a) hd h ≡ xs
unfolding walk
Chain-walk h zero a xs hd c out fuel = absurd (omega arith)
Chain-walk h (suc f) a [] hd c out fuel = ground arith
Chain-walk h (suc f) a (x ∷ xs) hd c out fuel = ground (arith, Chain-walk h f x xs hd c.2)

-- With a round for each entry and one for the head, `list_for_each` visits the entries in order.
pub Ring-list_for_each :
    {h : Links} {hd : ℕ} {xs : List ℕ} (fuel : ℕ)
    → Ring h hd xs
    → length xs < fuel
    → list_for_each fuel hd h ≡ xs
unfolding list_for_each
Ring-list_for_each {h} {hd} {xs} fuel r enough = Chain-walk h fuel hd xs hd r.chain r.apart enough

pub Ring-list_first :
    {h : Links} {hd x : ℕ} {xs : List ℕ} → Ring h hd (x ∷ xs) → list_first hd h ≡ x
unfolding list_first
Ring-list_first r = r.chain.0

-- An entry is told linked by its words.
Chain-next_ne_null :
    (h : Links) (a : ℕ) (xs : List ℕ) (b p : ℕ)
    → Chain h a xs b
    → p ∈ (a ∷ xs)
    → 0 ∉ (b ∷ xs)
    → h.next p ≢ 0
Chain-next_ne_null h a [] b p c i out = ground arith
Chain-next_ne_null h a (x ∷ xs) b p c i out = ground (arith, Chain-next_ne_null h x xs b p c.2)

pub Ring-next_ne_null :
    {h : Links} {hd : ℕ} {xs : List ℕ} (p : ℕ)
    → Ring h hd xs
    → p ∈ xs
    → 0 ∉ (hd ∷ xs)
    → h.next p ≢ 0
Ring-next_ne_null {h} {hd} {xs} p r i out =
    Chain-next_ne_null h hd xs hd p r.chain (ground arith) out

-- Whether `p` is the last entry.
unfoldable is_end : ℕ → List ℕ → Bool
is_end p [] = false
is_end p (x ∷ []) = p == x
is_end p (x ∷ y ∷ ys) = is_end p (y ∷ ys)

unfoldable pub is_nil : List ℕ → Bool
is_nil [] = true
is_nil (x ∷ xs) = false

is_end-absent : (p : ℕ) (xs : List ℕ) → p ∉ xs → is_end p xs ≡ false
unfolding is_end
is_end-absent p [] out = refl
is_end-absent p (x ∷ []) out = ground arith
is_end-absent p (x ∷ y ∷ ys) out = is_end-absent p (y ∷ ys) (ground arith)

Chain-is_end :
    (h : Links) (hd p a : ℕ) (xs : List ℕ)
    → Chain h a xs hd
    → hd ∉ xs
    → Distinct xs
    → p ∈ xs
    → (h.next p == hd) ≡ is_end p xs
unfolding is_end
Chain-is_end h hd p a [] c out d i = absurd (ground arith)
Chain-is_end h hd p a (x ∷ []) c out d i = ground arith
Chain-is_end h hd p a (x ∷ y ∷ ys) c out d i = elim (Bool-cases (p == x)) [
  | inl hit ↦ ground (arith, is_end-absent p (y ∷ ys))
  | inr miss ↦ Chain-is_end h hd p x (y ∷ ys) c.2 (ground arith) d.1 (ground arith)
]

Chain-is_nil :
    (h : Links) (hd : ℕ) (xs : List ℕ) → Chain h hd xs hd → hd ∉ xs → (h.next hd == hd) ≡ is_nil xs
unfolding is_nil
Chain-is_nil h hd [] c out = ground arith
Chain-is_nil h hd (x ∷ xs) c out = ground arith

module _ {h : Links} {hd : ℕ} {xs : List ℕ} (r : Ring h hd xs) where
  -- `list_empty` answers whether the ring has no entry.
  pub list_empty-is_nil : list_empty hd h ≡ is_nil xs
  unfolding list_empty
  list_empty-is_nil = Chain-is_nil h hd xs r.chain r.apart

  -- For an entry of the ring, `list_is_last` answers whether it is the last one.
  list_is_last-is_end : (p : ℕ) → p ∈ xs → list_is_last p hd h ≡ is_end p xs
  unfolding list_is_last
  list_is_last-is_end p i = Chain-is_end h hd p hd xs r.chain r.apart r.distinct i
