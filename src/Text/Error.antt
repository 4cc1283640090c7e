-- ===== src/Text/Error.antt =====
-- What `perror` writes.
use mathlib.Core.List.{reverse}
use so.Common.{ℕ, ◌^◌, ◌<◌, ◌≡◌, refl, List, arith, length, map, ap, ◌∙◌}
use so.Io.Print.{Holds}
use so.Text.{itoa, strlen, perror, decimal_digit}
use so.Text.Itoa.{
  numeral, IsNumeral, numeral-IsNumeral, to_text-Holds, length-map, length-reverse, length-numeral,
  strlen-length,
}

-- For an errno that is not negative `perror` writes to the descriptor 1 the digits of its decimal
-- numeral, the highest first, and passes their number as the size.
pub perror-IsNumeral {ℓ} :
    {R : Type ℓ}
    → (fuel errno : ℕ) (buff : ℕ → ℕ) (write : ℕ → (ℕ → ℕ) → ℕ → R) → errno < 2 ^ 31
    → 32 < fuel
    → (ds : List ℕ) × IsNumeral 10 errno ds
      × Holds (itoa errno buff) 0 (map decimal_digit (reverse ds))
      × (perror fuel errno buff write ≡ write 1 (itoa errno buff) (length ds))
unfolding perror
perror-IsNumeral fuel errno buff write lt enough =
    (ds, numeral-IsNumeral 10 errno (omega arith) lt, text, ap (write 1 (itoa errno buff)) size)
  where
    ds : List ℕ
    ds = numeral 10 errno

    text : Holds (itoa errno buff) 0 (map decimal_digit (reverse ds))
    text = unfold itoa in to_text-Holds 10 decimal_digit errno buff lt refl (λ d. omega arith)

    digits_of : List ℕ
    digits_of = map decimal_digit (reverse ds)

    same : length digits_of ≡ length ds
    same = length-map decimal_digit (reverse ds) ∙ length-reverse ds

    size : strlen fuel (itoa errno buff) ≡ length ds
    size =
        strlen-length fuel (itoa errno buff) digits_of text
          (omega (arith, same, length-numeral errno))
        ∙ same
