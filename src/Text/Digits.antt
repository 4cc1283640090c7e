-- ===== src/Text/Digits.antt =====
-- The digits of a number, the lowest first, and the loop that stores them.
use native.Mathlib.Nat.{div-add-mod, div-lt_iff_lt-mul, div-le_self}
use so.Common.{
  ℕ, zero, suc, ◌+◌, ◌*◌, ◌/◌, ◌%◌, ◌^◌, ◌≤◌, ◌<◌, ◌≡◌, refl, ◌≢◌, List, [], ◌∷◌, arith, update,
  if◌then◌else◌, ◌==◌, length, get_or, Bool-cases, inl, inr, ap,
}
use so.Text.{digit_loop}

pub digits : ℕ → ℕ → ℕ → List ℕ
digits base zero a = []
digits base (suc f) a =
    let rest = a % base ∷ digits base f (a / base) in if a == 0 then [] else rest

unfoldable pub value : ℕ → List ℕ → ℕ
value base [] = 0
value base (d ∷ ds) = value base ds * base + d

abbrev pub Below : ℕ → List ℕ → Type 0
Below base [] = Unit {0}
Below base (d ∷ ds) = (d < base) × Below base ds

-- No zero at the top.
abbrev pub IsTrimmed : List ℕ → Type 0
IsTrimmed [] = Unit {0}
IsTrimmed (d ∷ []) = d ≢ 0
IsTrimmed (d ∷ e ∷ ds) = IsTrimmed (e ∷ ds)

div_half : (base a n : ℕ) → 2 ≤ base → a < 2 * n → a / base < n
div_half base a n two lt =
    (div-lt_iff_lt-mul (omega arith)).1 (let more : 2 * n ≤ n * base = grind arith in omega arith)

pub length-digits : (base f a : ℕ) → length (digits base f a) ≤ f
unfolding digits
length-digits base zero a = omega arith
length-digits base (suc f) a = ground (arith, length-digits base f (a / base))

pub digits-Below : (base f a : ℕ) → 2 ≤ base → Below base (digits base f a)
unfolding digits
digits-Below base zero a two = tt
digits-Below base (suc f) a two = ground (arith, digits-Below base f (a / base) two)

pub value-digits : (base f a : ℕ) → 2 ≤ base → a < 2 ^ f → value base (digits base f a) ≡ a
unfolding digits value
value-digits base zero a two lt = omega arith
value-digits base (suc f) a two lt =
    ground
      (arith, value-digits base f (a / base) two, div_half base a (2 ^ f) two, div-add-mod a base)

IsTrimmed-cons : (d : ℕ) (ds : List ℕ) → IsTrimmed ds → (ds ≡ [] → d ≢ 0) → IsTrimmed (d ∷ ds)
IsTrimmed-cons d [] t h = h refl
IsTrimmed-cons d (e ∷ ds) t h = t

pub digits-IsTrimmed : (base f a : ℕ) → 2 ≤ base → a < 2 ^ f → IsTrimmed (digits base f a)
unfolding digits value
digits-IsTrimmed base zero a two lt = tt
digits-IsTrimmed base (suc f) a two lt = elim (Bool-cases (a == 0)) [
  | inl done ↦ rw done tt
  | inr more ↦
      let small : a / base < 2 ^ f = div_half base a (2 ^ f) two (ground arith) in
      rw more (
        IsTrimmed-cons (a % base) (digits base f (a / base))
          (digits-IsTrimmed base f (a / base) two small)
          (λ e z. ground (
            arith,
            div-add-mod a base,
            value-digits base f (a / base) two small,
            ap (value base) e,
          )))
]

-- What the loop leaves: the count of digits, the digits behind one another, and the rest as it was.
pub record Stored (base f a i : ℕ) (digit b : ℕ → ℕ) : Type 0 where
  pub count : (digit_loop base digit f a i b).0 ≡ i + length (digits base f a)
  pub front : (j : ℕ) → j < i → (digit_loop base digit f a i b).1 j ≡ b j
  pub stored :
      (k : ℕ)
      → k < length (digits base f a)
      → (digit_loop base digit f a i b).1 (i + k) ≡ digit (get_or (digits base f a) k 0)

digit_loop_step :
    (base : ℕ) (digit : ℕ → ℕ) (f a i : ℕ) (b : ℕ → ℕ)
    → Stored base f (a / base) (i + 1) digit (update b i (digit (a % base)))
    → (k : ℕ) → k < suc (length (digits base f (a / base)))
    → (digit_loop base digit f (a / base) (i + 1) (update b i (digit (a % base)))).1 (i + k)
      ≡ digit (get_or (a % base ∷ digits base f (a / base)) k 0)
digit_loop_step base digit f a i b rest zero h = ground (arith, rest.front i)
digit_loop_step base digit f a i b rest (suc k) h =
    let e : i + suc k ≡ i + 1 + k = omega arith in rw e (rest.stored k (omega arith))

pub digit_loop-Stored :
    (base : ℕ) (digit : ℕ → ℕ) (f a i : ℕ) (b : ℕ → ℕ) → a < 2 ^ 31 → Stored base f a i digit b
unfolding digit_loop digits
digit_loop-Stored base digit zero a i b lt = record {
  count = omega arith;
  front = λ j h. refl;
  stored = λ k h. elim h [ ];
}
digit_loop-Stored base digit (suc f) a i b lt = elim (Bool-cases (a == 0)) [
  | inl done ↦ record {
    count = ground arith;
    front = λ j h. ground arith;
    stored = λ k h. ground arith;
  }
  | inr more ↦
      let b' = update b i (digit (a % base)) in
      let rest =
        digit_loop-Stored base digit f (a / base) (i + 1) b' (omega (arith, div-le_self a base)) in
      record {
        count = ground (arith, rest.count);
        front = λ j h. ground (arith, rest.front j);
        stored = λ k h. ground (arith, digit_loop_step base digit f a i b rest k);
      }
]
