-- ===== src/Text/Reverse.antt =====
-- The loop that turns the digits of a buffer round in place.
use so.Common.{ℕ, ◌+◌, ◌-◌, ◌/◌, ◌<◌, ◌≡◌, arith, ltb, ◌||◌, if◌then◌else◌, for_range_inv}
use so.Text.{reverse_loop, swap_ends}

-- After `k` rounds the first and the last `k` of `i` bytes have changed places.
abbrev Turned : ℕ → (ℕ → ℕ) → ℕ → (ℕ → ℕ) → Type 0
Turned i b k c =
    (j : ℕ)
    → c j ≡ (if ltb j i then if ltb j k || ltb (i - j - 1) k then b (i - j - 1) else b j else b j)

swap_ends-Turned :
    (i : ℕ) (b : ℕ → ℕ) (k : ℕ) (c : ℕ → ℕ)
    → k < i / 2
    → Turned i b k c
    → Turned i b (k + 1) (swap_ends i k c)
unfolding swap_ends
swap_ends-Turned i b k c lt t j = ground (arith, t j, t k, t (i - k - 1))

-- The bytes below `i` are reversed, and the others stay.
pub reverse_loop_lem :
    (i : ℕ) (b : ℕ → ℕ) (j : ℕ) → reverse_loop i b j ≡ (if ltb j i then b (i - j - 1) else b j)
unfolding reverse_loop
reverse_loop_lem i b j = ground (arith, turned j)
  where
    turned : Turned i b (i / 2) (reverse_loop i b)
    turned =
        for_range_inv (Turned i b) (swap_ends i) (i / 2) 0 (i / 2) b (omega arith)
          (λ k c lo hi t. swap_ends-Turned i b k c hi t) (λ j. ground arith)
