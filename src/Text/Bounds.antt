-- ===== src/Text/Bounds.antt =====
-- How far `itoa` writes.
use native.Mathlib.Nat.{pow-suc}
use so.Common.{ℕ, zero, suc, ◌+◌, ◌/◌, ◌%◌, ◌^◌, ◌≤◌, ◌<◌, ◌≡◌, refl, arith, update, for_range_inv}
use so.Text.{digit_loop, reverse_loop, swap_ends, to_text, itoa, decimal_digit}

module _ (base : ℕ) (digit : ℕ → ℕ) where
  digit_loop-grows : (f a i : ℕ) (b : ℕ → ℕ) → i ≤ (digit_loop base digit f a i b).0
  unfolding digit_loop
  digit_loop-grows zero a i b = omega arith
  digit_loop-grows (suc f) a i b =
      ground (arith, digit_loop-grows f (a / base) (i + 1) (update b i (digit (a % base))))

  -- The loop leaves alone what stands behind the digits.
  digit_loop-outside :
      (f a i : ℕ) (b : ℕ → ℕ) (j : ℕ)
      → (digit_loop base digit f a i b).0 ≤ j
      → (digit_loop base digit f a i b).1 j ≡ b j
  unfolding digit_loop
  digit_loop-outside zero a i b j h = refl
  digit_loop-outside (suc f) a i b j h =
      let b' = update b i (digit (a % base)) in
      ground (
        arith,
        digit_loop-grows f (a / base) (i + 1) b',
        digit_loop-outside f (a / base) (i + 1) b' j,
      )

digit_loop-few :
    (digit : ℕ → ℕ) (n f a i : ℕ) (b : ℕ → ℕ) → a < 10 ^ n → (digit_loop 10 digit f a i b).0 ≤ i + n
unfolding digit_loop
digit_loop-few digit n zero a i b lt = omega arith
digit_loop-few digit zero (suc f) a i b lt = let none : a ≡ 0 = omega arith in ground (arith, none)
digit_loop-few digit (suc n) (suc f) a i b lt =
    let fewer : a / 10 < 10 ^ n = omega (arith, pow-suc 10 n) in
    ground (arith, digit_loop-few digit n f (a / 10) (i + 1) (update b i (digit (a % 10))) fewer)

reverse_loop-outside : (i : ℕ) (b : ℕ → ℕ) (j : ℕ) → i ≤ j → reverse_loop i b j ≡ b j
unfolding reverse_loop swap_ends
reverse_loop-outside i b j h =
    for_range_inv (λ k c. c j ≡ b j) (swap_ends i) (i / 2) 0 (i / 2) b (omega arith)
      (λ k c lo hi same. ground (arith, same)) refl

-- `itoa` of an int below 10^n, where n is at least 1, writes only into the first n + 1 bytes.
pub itoa-outside : (n a : ℕ) (b : ℕ → ℕ) (j : ℕ) → 0 < n → a < 10 ^ n → n < j → itoa a b j ≡ b j
unfolding itoa to_text
itoa-outside n a b j some lt out = ground (
  arith,
  digit_loop-few decimal_digit n 32 a 0 b lt,
  digit_loop-outside 10 decimal_digit 32 a 0 b j,
  reverse_loop-outside (digit_loop 10 decimal_digit 32 a 0 b).0
      (digit_loop 10 decimal_digit 32 a 0 b).1 j,
)
