-- ===== src/ListHead/Ring.antt =====
-- What a list of the kernel stands for, and what the operations of list.c do to it.
use so.Common.{ℕ, ◌≡◌, List, [], ◌∷◌, arith, ◌∈◌, ◌∉◌, Distinct}
use so.ListHead.{Links}

-- From `a` the `next` words lead through `xs` to `b`, and the `prev` words back.
abbrev pub Chain : Links → ℕ → List ℕ → ℕ → Type 0
Chain h a [] b = (h.next a ≡ b) × (h.prev b ≡ a)
Chain h a (x ∷ xs) b = (h.next a ≡ x) × (h.prev x ≡ a) × Chain h x xs b

-- The head `hd` and the distinct entries `xs` form a ring.
pub record Ring (h : Links) (hd : ℕ) (xs : List ℕ) : Type 0 where
  pub chain : Chain h hd xs hd
  pub apart : hd ∉ xs
  pub distinct : Distinct xs

-- A chain reads the `next` of its start and its entries, and the `prev` of its entries and its end.
pub Chain-frame :
    (h g : Links) (a : ℕ) (xs : List ℕ) (b : ℕ)
    → ((p : ℕ) → p ∈ (a ∷ xs) → g.next p ≡ h.next p)
    → ((p : ℕ) → p ∈ xs → g.prev p ≡ h.prev p)
    → g.prev b ≡ h.prev b
    → Chain h a xs b
    → Chain g a xs b
Chain-frame h g a [] b nx pv e c = (ground (arith, nx a), ground arith)
Chain-frame h g a (x ∷ xs) b nx pv e c = (
  ground (arith, nx a),
  ground (arith, pv x),
  Chain-frame h g x xs b (λ p i. nx p (ground arith)) (λ p i. pv p (ground arith)) e c.2,
)

-- The predecessor of the end is the start or an entry.
pub Chain-prev : (h : Links) (a : ℕ) (xs : List ℕ) (b : ℕ) → Chain h a xs b → h.prev b ∈ (a ∷ xs)
Chain-prev h a [] b c = ground arith
Chain-prev h a (x ∷ xs) b c = ground (arith, Chain-prev h x xs b c.2)

pub Chain-next : (h : Links) (a : ℕ) (xs : List ℕ) (b : ℕ) → Chain h a xs b → h.next a ∈ (b ∷ xs)
Chain-next h a [] b c = ground arith
Chain-next h a (x ∷ xs) b c = ground arith
