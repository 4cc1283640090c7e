-- ===== src/Utils/Ticks.antt =====
-- utils.c: `get_ticks`, and the division of 64 bits by 32 bits that it uses.
use native.Mathlib.Nat.{
  zero-add, mul-add-div, mul_assoc, mul-add-mod_self_left, mod-lt, div-add-mod,
}
use so.Common.{
  ℕ, ◌+◌, ◌*◌, ◌/◌, ◌%◌, ◌^◌, ◌<◌, ◌≡◌, refl, true, false, Bool-cases, inl, inr, Option, none, some,
  arith, ap, sym, ◌∙◌, ◌==◌, ltb, if◌then◌else◌,
}

-- The instruction divl on edx:eax, the quotient and the remainder. It raises an exception when the
-- quotient does not fit in 32 bits, which is when edx is not smaller than the divisor.
abbrev divl : (base eax edx : ℕ) → Option (ℕ × ℕ)
divl base eax edx =
    if ltb edx base then some ((edx * 2 ^ 32 + eax) / base, (edx * 2 ^ 32 + eax) % base) else none

-- The macro on the two halves of n: the new value of n, and the value of the macro.
divided : (low high base : ℕ) → Option (ℕ × ℕ)
divided low high base =
    let upper = if high == 0 then high else high % base in
    let high' = if high == 0 then high else high / base in
    elim (divl base low upper) [ none ↦ none | some qr ↦ some (high' * 2 ^ 32 + qr.0, qr.1) ]

pub do_div : (n base : ℕ) → Option (ℕ × ℕ)
do_div n base = divided (n % 2 ^ 32) (n / 2 ^ 32) base

-- CYCLESPERTICK
abbrev pub cycles_per_tick : ℕ
cycles_per_tick = 109000

-- For the two words that rdtsc reads.
pub get_ticks : (eax edx : ℕ) → Option ℕ
unfolding do_div divided
get_ticks eax edx = elim (do_div (edx * 2 ^ 32 + eax) cycles_per_tick) [
  | none ↦ none
  | some qr ↦ some (qr.0 % 2 ^ 32)
]

module _ (n base : ℕ) (pos : 0 < base) where
  abbrev upper : ℕ
  upper = n / 2 ^ 32 % base

  split : n ≡ base * (n / 2 ^ 32 / base * 2 ^ 32) + (upper * 2 ^ 32 + n % 2 ^ 32)
  split = omega (arith, div-add-mod (n / 2 ^ 32) base, mul_assoc base (n / 2 ^ 32 / base) (2 ^ 32))

  quotient : n / 2 ^ 32 / base * 2 ^ 32 + (upper * 2 ^ 32 + n % 2 ^ 32) / base ≡ n / base
  quotient =
      sym (mul-add-div pos (n / 2 ^ 32 / base * 2 ^ 32) (upper * 2 ^ 32 + n % 2 ^ 32))
      ∙ ap (λ x. x / base) (sym split)

  remainder : (upper * 2 ^ 32 + n % 2 ^ 32) % base ≡ n % base
  remainder =
      sym (mul-add-mod_self_left base (n / 2 ^ 32 / base * 2 ^ 32) (upper * 2 ^ 32 + n % 2 ^ 32))
      ∙ ap (λ x. x % base) (sym split)

  -- When the upper half is 0 one division is enough.
  divided_low : (low : ℕ) → divided low 0 base ≡ some (low / base, low % base)
  unfolding divided
  divided_low low =
      let fits : ltb 0 base ≡ true = ground arith in
      rw (fits, divided, zero-add low, zero-add (low / base)) refl

  divided_high :
      (n / 2 ^ 32 == 0) ≡ false → divided (n % 2 ^ 32) (n / 2 ^ 32) base ≡ some (n / base, n % base)
  unfolding divided
  divided_high big =
      let fits : ltb upper base ≡ true = ground (arith, mod-lt (n / 2 ^ 32) pos) in
      ground (arith, quotient, remainder)

  -- For a divisor that is not 0 the two divisions raise no exception, and give the quotient and the
  -- remainder of the division of 64 bits.
  pub do_div-eq : do_div n base ≡ some (n / base, n % base)
  unfolding do_div
  do_div-eq = elim (Bool-cases (n / 2 ^ 32 == 0)) [
    | inl small ↦
        let none_above : n / 2 ^ 32 ≡ 0 = ground arith in
        let all : n % 2 ^ 32 ≡ n = omega (arith, none_above) in
        ap (λ h. divided (n % 2 ^ 32) h base) none_above
        ∙ divided_low (n % 2 ^ 32)
        ∙ ap (λ x. some (x / base, x % base)) all
    | inr big ↦ divided_high big
  ]

-- `get_ticks` is the lower half of the 64-bit cycle counter divided by 109000.
pub get_ticks-eq :
    (eax edx : ℕ) → get_ticks eax edx ≡ some ((edx * 2 ^ 32 + eax) / cycles_per_tick % 2 ^ 32)
unfolding get_ticks
get_ticks-eq eax edx =
    rw (do_div-eq (edx * 2 ^ 32 + eax) cycles_per_tick (omega arith), get_ticks) refl
