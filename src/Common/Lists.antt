-- ===== src/Common/Lists.antt =====
-- Lists measured by native numbers, and membership in a list of numbers as a Boolean.
use Prim.Native.Nat.{ℕ, zero, suc, ◌+◌, ◌-◌, ◌≤◌}
use mathlib.Core.Path.{◌≡◌, refl, ap}
use mathlib.Core.Logic.{◌≢◌}
use mathlib.Core.Bool.{Bool, true, false, ◌||◌}
use mathlib.Core.Option.{Option, none, some}
use mathlib.Core.List.{List, [], ◌∷◌, ◌++◌}
use native.Mathlib.Omega.{arith}
use so.Common.Tests.{◌==◌, if◌then◌else◌}

module _ {ℓ} {A : Type ℓ} where
  abbrev pub length : List A → ℕ
  length [] = 0
  length (x ∷ xs) = suc (length xs)

  abbrev pub get_or : List A → ℕ → A → A
  get_or [] i d = d
  get_or (x ∷ xs) zero d = x
  get_or (x ∷ xs) (suc i) d = get_or xs i d

  abbrev pub get_elem? : List A → ℕ → Option A
  get_elem? [] i = none
  get_elem? (x ∷ xs) zero = some x
  get_elem? (x ∷ xs) (suc i) = get_elem? xs i

  abbrev pub take : ℕ → List A → List A
  take zero xs = []
  take (suc n) [] = []
  take (suc n) (x ∷ xs) = x ∷ take n xs

  abbrev pub drop : ℕ → List A → List A
  drop zero xs = xs
  drop (suc n) [] = []
  drop (suc n) (x ∷ xs) = drop n xs

  pub append-take-drop : (n : ℕ) (xs : List A) → take n xs ++ drop n xs ≡ xs
  append-take-drop zero xs = refl
  append-take-drop (suc n) [] = refl
  append-take-drop (suc n) (x ∷ xs) = ap (λ ys. x ∷ ys) (append-take-drop n xs)

  pub length-take : (n : ℕ) (xs : List A) → n ≤ length xs → length (take n xs) ≡ n
  length-take zero xs h = refl
  length-take (suc n) [] h = absurd (omega arith)
  length-take (suc n) (x ∷ xs) h = omega (arith, length-take n xs)

  pub length-drop : (n : ℕ) (xs : List A) → length (drop n xs) ≡ length xs - n
  length-drop zero xs = omega arith
  length-drop (suc n) [] = omega arith
  length-drop (suc n) (x ∷ xs) = omega (arith, length-drop n xs)

  pub nil_of_length : (xs : List A) → length xs ≡ 0 → xs ≡ []
  nil_of_length [] h = refl
  nil_of_length (x ∷ xs) h = absurd (omega arith)

  pub take_all : (n : ℕ) (xs : List A) → length xs ≤ n → take n xs ≡ xs
  take_all zero [] h = refl
  take_all zero (x ∷ xs) h = absurd (omega arith)
  take_all (suc n) [] h = refl
  take_all (suc n) (x ∷ xs) h = ap (λ ys. x ∷ ys) (take_all n xs (omega arith))

  pub length-append : (xs ys : List A) → length (xs ++ ys) ≡ length xs + length ys
  length-append [] ys = omega arith
  length-append (x ∷ xs) ys = omega (arith, length-append xs ys)

abbrev pub has : ℕ → List ℕ → Bool
has p [] = false
has p (q ∷ rest) = (p == q) || has p rest

infix 40 ◌∈◌ ◌∉◌
abbrev pub ◌∈◌ : (p : ℕ) (entries : List ℕ) → Type 0
p ∈ entries = has p entries ≡ true

abbrev pub ◌∉◌ : (p : ℕ) (entries : List ℕ) → Type 0
p ∉ entries = has p entries ≡ false

abbrev pub Distinct : List ℕ → Type 0
Distinct [] = Unit {0}
Distinct (x ∷ xs) = (x ∉ xs) × Distinct xs

pub has-append : (p : ℕ) (front back : List ℕ) → has p (front ++ back) ≡ (has p front || has p back)
has-append p [] back = refl
has-append p (q ∷ front) back = ground (arith, has-append p front back)

-- The list less the first occurrence of `a`.
unfoldable pub erase : ℕ → List ℕ → List ℕ
erase a [] = []
erase a (x ∷ xs) = let rest = x ∷ erase a xs in if x == a then xs else rest

pub mem_of_mem-erase : (p a : ℕ) (xs : List ℕ) → p ∈ erase a xs → p ∈ xs
unfolding erase
mem_of_mem-erase p a [] i = i
mem_of_mem-erase p a (x ∷ xs) i = ground (arith, mem_of_mem-erase p a xs)

pub not-mem-erase : (p a : ℕ) (xs : List ℕ) → p ∉ xs → p ∉ erase a xs
unfolding erase
not-mem-erase p a [] i = i
not-mem-erase p a (x ∷ xs) i = ground (arith, not-mem-erase p a xs)

pub not-mem-erase_self : (a : ℕ) (xs : List ℕ) → Distinct xs → a ∉ erase a xs
unfolding erase
not-mem-erase_self a [] d = refl
not-mem-erase_self a (x ∷ xs) d = ground (arith, not-mem-erase_self a xs d.1)

pub Distinct-erase : (a : ℕ) (xs : List ℕ) → Distinct xs → Distinct (erase a xs)
unfolding erase
Distinct-erase a [] d = tt
Distinct-erase a (x ∷ xs) d = ground (arith, Distinct-erase a xs d.1, not-mem-erase x a xs d.0)

pub Distinct-snoc : (n : ℕ) (xs : List ℕ) → Distinct xs → n ∉ xs → Distinct (xs ++ n ∷ [])
Distinct-snoc n [] d out = (refl, tt)
Distinct-snoc n (x ∷ xs) d out =
    (rw has-append (ground arith), Distinct-snoc n xs d.1 (ground arith))

pub mem-erase_of_ne : (p a : ℕ) (xs : List ℕ) → p ∈ xs → p ≢ a → p ∈ erase a xs
unfolding erase
mem-erase_of_ne p a [] i n = i
mem-erase_of_ne p a (x ∷ xs) i n = ground (arith, mem-erase_of_ne p a xs)

pub erase_head : (a : ℕ) (xs : List ℕ) → erase a (a ∷ xs) ≡ xs
unfolding erase
erase_head a xs = ground arith
