-- ===== src/Text/Itoa.antt =====
-- What `itoa`, `itoa_hex` and `strlen` compute.
use mathlib.Core.List.{reverse, reverse-cons}
use so.Common.{
  ℕ, zero, suc, ◌+◌, ◌-◌, ◌^◌, ◌≤◌, ◌<◌, ◌≡◌, refl, ◌≢◌, List, [], ◌∷◌, ◌++◌, arith, ltb,
  if◌then◌else◌, ◌==◌, length, length-append, map, get_or, Bool-cases, inl, inr, ap,
}
use so.Io.Print.{Holds}
use so.Text.{to_text, itoa, itoa_hex, decimal_digit, hex_digit, strlen, strlen_loop, digit_loop}
use so.Text.Digits.{
  digits, length-digits, value, Below, IsTrimmed, digits-Below, value-digits, digits-IsTrimmed,
  Stored, digit_loop-Stored,
}
use so.Text.Reverse.{reverse_loop_lem}

get_or-append :
    (xs ys : List ℕ) (k : ℕ)
    → get_or (xs ++ ys) k 0
      ≡ (if ltb k (length xs) then get_or xs k 0 else get_or ys (k - length xs) 0)
get_or-append [] ys k = let e : k - 0 ≡ k = omega arith in rw e (ground arith)
get_or-append (x ∷ xs) ys zero = ground arith
get_or-append (x ∷ xs) ys (suc k) = ground (arith, get_or-append xs ys k)

pub length-reverse : (xs : List ℕ) → length (reverse xs) ≡ length xs
length-reverse [] = refl
length-reverse (x ∷ xs) =
    rw reverse-cons (omega (arith, length-append (reverse xs) (x ∷ []), length-reverse xs))

get_or-reverse :
    (xs : List ℕ) (k : ℕ)
    → k < length xs
    → get_or (reverse xs) k 0 ≡ get_or xs (length xs - k - 1) 0
get_or-reverse [] k h = elim h [ ]
get_or-reverse (x ∷ xs) k h = elim (Bool-cases (ltb k (length xs))) [
  | inl lt ↦
      let e : suc (length xs) - k - 1 ≡ suc (length xs - k - 1) = ground arith in
      rw (
        reverse-cons,
        get_or-append (reverse xs) (x ∷ []) k,
        length-reverse xs,
        lt,
        get_or-reverse xs k (ground arith),
        e,
      )
  | inr ge ↦
      let e : suc (length xs) - k - 1 ≡ 0 = ground arith in
      let e' : k - length xs ≡ 0 = ground arith in
      rw (reverse-cons, get_or-append (reverse xs) (x ∷ []) k, length-reverse xs, ge, e, e')
]

get_or-map :
    (f : ℕ → ℕ) (xs : List ℕ) (k : ℕ) → k < length xs → get_or (map f xs) k 0 ≡ f (get_or xs k 0)
get_or-map f [] k h = elim h [ ]
get_or-map f (x ∷ xs) zero h = refl
get_or-map f (x ∷ xs) (suc k) h = get_or-map f xs k (omega arith)

pub length-map : (f : ℕ → ℕ) (xs : List ℕ) → length (map f xs) ≡ length xs
length-map f [] = refl
length-map f (x ∷ xs) = ap suc (length-map f xs)

Holds-points :
    (string : ℕ → ℕ) (i : ℕ) (xs : List ℕ)
    → ((k : ℕ) → k < length xs → (string (i + k) ≡ get_or xs k 0) × (get_or xs k 0 ≢ 0))
    → string (i + length xs) ≡ 0
    → Holds string i xs
Holds-points string i [] at end = ground arith
Holds-points string i (x ∷ xs) at end = (
  ground (arith, at 0),
  ground (arith, at 0),
  Holds-points string (i + 1) xs (λ k h. ground (arith, at (suc k))) (ground arith),
)

-- The digits of a C number, the lowest first: a zero has one.
pub numeral : ℕ → ℕ → List ℕ
numeral base a = if a == 0 then 0 ∷ [] else digits base 32 a

module _ (base : ℕ) (digit : ℕ → ℕ) (a : ℕ) (b : ℕ → ℕ) (lt : a < 2 ^ 31) (pos : a ≢ 0) where
  abbrev ds : List ℕ
  ds = digits base 32 a

  to_text_end : to_text base digit a b (length ds) ≡ 0
  unfolding to_text
  to_text_end = ground (arith, (digit_loop-Stored base digit 32 a 0 b lt).count)

  to_text_point :
      (k : ℕ) → k < length ds → to_text base digit a b k ≡ digit (get_or ds (length ds - k - 1) 0)
  unfolding to_text
  to_text_point k h =
      ground (arith, s.count, reverse_loop_lem r.0 r.1 k, s.stored (length ds - k - 1))
    where
      r : ℕ × (ℕ → ℕ)
      r = digit_loop base digit 32 a 0 b

      s : Stored base 32 a 0 digit b
      s = digit_loop-Stored base digit 32 a 0 b lt

  to_text-Holds_pos :
      ((d : ℕ) → digit d ≢ 0) → Holds (to_text base digit a b) 0 (map digit (reverse ds))
  to_text-Holds_pos visible =
      Holds-points (to_text base digit a b) 0 (map digit (reverse ds)) point
        (ground (arith, to_text_end, length-map digit (reverse ds), length-reverse ds))
    where
      point :
          (k : ℕ)
          → k < length (map digit (reverse ds))
          → (to_text base digit a b (0 + k) ≡ get_or (map digit (reverse ds)) k 0)
            × (get_or (map digit (reverse ds)) k 0 ≢ 0)
      point k h = ground (
        arith,
        length-map digit (reverse ds),
        length-reverse ds,
        get_or-map digit (reverse ds) k,
        get_or-reverse ds k,
        to_text_point k,
        visible (get_or (reverse ds) k 0),
      )

-- What a positional numeral of `a` is: digits below the base, of the value `a`, and no zero in
-- front of them but for the numeral of zero.
pub record IsNumeral (base a : ℕ) (ds : List ℕ) : Type 0 where
  pub below : Below base ds
  pub values : value base ds ≡ a
  pub trimmed : a ≢ 0 → IsTrimmed ds

pub length-numeral : (a : ℕ) → length (numeral 10 a) ≤ 32
unfolding numeral
length-numeral a = ground (arith, length-digits 10 32 a)

pub numeral-IsNumeral : (base a : ℕ) → 2 ≤ base → a < 2 ^ 31 → IsNumeral base a (numeral base a)
unfolding numeral
numeral-IsNumeral base a two lt = elim (Bool-cases (a == 0)) [
  | inl z ↦ rw z (record {
    below = ground arith;
    values = unfold value in ground arith;
    trimmed = λ n. absurd (n (ground arith));
  })
  | inr nz ↦ rw nz (record {
    below = digits-Below base 32 a two;
    values = value-digits base 32 a two (omega arith);
    trimmed = λ n. digits-IsTrimmed base 32 a two (omega arith);
  })
]

pub to_text-Holds :
    (base : ℕ) (digit : ℕ → ℕ) (a : ℕ) (b : ℕ → ℕ)
    → a < 2 ^ 31
    → digit 0 ≡ b'0'
    → ((d : ℕ) → digit d ≢ 0)
    → Holds (to_text base digit a b) 0 (map digit (reverse (numeral base a)))
unfolding numeral
to_text-Holds base digit a b lt d0 visible = elim (Bool-cases (a == 0)) [
  | inl z ↦ rw z (unfold to_text in ground arith)
  | inr nz ↦ rw nz (to_text-Holds_pos base digit a b lt (ground arith) visible)
]

-- For an int that is not negative `itoa` leaves its decimal numeral, the highest digit first, as a
-- string.
pub itoa-IsNumeral :
    (a : ℕ) (b : ℕ → ℕ)
    → a < 2 ^ 31
    → (ds : List ℕ) × IsNumeral 10 a ds × Holds (itoa a b) 0 (map decimal_digit (reverse ds))
unfolding itoa
itoa-IsNumeral a b lt = (
  numeral 10 a,
  numeral-IsNumeral 10 a (omega arith) lt,
  to_text-Holds 10 decimal_digit a b lt refl (λ d. omega arith),
)

-- For an int that is not negative `itoa_hex` leaves its hexadecimal numeral as a string.
pub itoa_hex-IsNumeral :
    (a : ℕ) (b : ℕ → ℕ)
    → a < 2 ^ 31
    → (ds : List ℕ) × IsNumeral 16 a ds × Holds (itoa_hex a b) 0 (map hex_digit (reverse ds))
unfolding itoa_hex
itoa_hex-IsNumeral a b lt = (
  numeral 16 a,
  numeral-IsNumeral 16 a (omega arith) lt,
  to_text-Holds 16 hex_digit a b lt refl (λ d. ground arith),
)

digit_loop_negative :
    (base : ℕ) (digit : ℕ → ℕ) (f a i : ℕ) (b : ℕ → ℕ)
    → 2 ^ 31 ≤ a
    → digit_loop base digit f a i b ≡ (i, b)
unfolding digit_loop
digit_loop_negative base digit zero a i b h = refl
digit_loop_negative base digit (suc f) a i b h = ground arith

-- For a negative int, as for every address from 2^31 on, `itoa_hex` leaves the empty string.
pub itoa_hex_negative : (a : ℕ) (b : ℕ → ℕ) → 2 ^ 31 ≤ a → Holds (itoa_hex a b) 0 []
unfolding itoa_hex to_text
itoa_hex_negative a b h =
    ground (arith, digit_loop_negative 16 hex_digit 32 a 0 b h, reverse_loop_lem 0 b 0)

strlen_loop-length :
    (f i : ℕ) (string : ℕ → ℕ) (xs : List ℕ)
    → Holds string i xs
    → length xs < f
    → strlen_loop f string i ≡ i + length xs
unfolding strlen_loop
strlen_loop-length zero i string xs h fuel = absurd (omega arith)
strlen_loop-length (suc f) i string [] h fuel = ground arith
strlen_loop-length (suc f) i string (x ∷ xs) h fuel =
    ground (arith, strlen_loop-length f (i + 1) string xs h.2)

-- `strlen` counts the bytes before the end of the string.
pub strlen-length :
    (fuel : ℕ) (string : ℕ → ℕ) (xs : List ℕ)
    → Holds string 0 xs
    → length xs < fuel
    → strlen fuel string ≡ length xs
unfolding strlen
strlen-length fuel string xs h enough = ground (arith, strlen_loop-length fuel 0 string xs h enough)
