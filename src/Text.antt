-- ===== src/Text.antt =====
-- libc.c (`itoa`, `strlen`, `perror`) and `itoa_hex` of utils.c. A `char *` is a function from
-- offsets to bytes; an `int` is its 32-bit pattern.
pub mod Digits
pub mod Reverse
pub mod Itoa
pub mod Bounds
pub mod Error
use so.Common.{
  ℕ, zero, suc, ◌+◌, ◌-◌, ◌/◌, ◌%◌, Bool, true, false, not, ◌&&◌, update, ◌==◌, ltb, if◌then◌else◌,
  for_range, is_neg,
}

-- `a > 0` of an int.
abbrev is_pos : ℕ → Bool
is_pos a = not (is_neg a) && not (a == 0)

-- while (a>0) { b[i] = digit(a % base); a = a / base; i++; }: the final `i` and the buffer.
unfoldable pub digit_loop : ℕ → (ℕ → ℕ) → ℕ → ℕ → ℕ → (ℕ → ℕ) → ℕ × (ℕ → ℕ)
digit_loop base digit zero a i b = (i, b)
digit_loop base digit (suc f) a i b =
    let rest = digit_loop base digit f (a / base) (i + 1) (update b i (digit (a % base))) in
    if is_pos a then rest else (i, b)

-- c = b[i1]; b[i1] = b[i-i1-1]; b[i-i1-1] = c;
pub swap_ends : ℕ → ℕ → (ℕ → ℕ) → ℕ → ℕ
swap_ends i i1 b = update (update b i1 (b (i - i1 - 1))) (i - i1 - 1) (b i1)

-- for (i1=0; i1<i/2; i1++) …
unfoldable pub reverse_loop : ℕ → (ℕ → ℕ) → ℕ → ℕ
unfolding swap_ends
reverse_loop i b = for_range (i / 2) 0 (swap_ends i) b

-- The body that `itoa` and `itoa_hex` share but for the base and the digits. An int has at most 31
-- digits, so 32 rounds are enough.
unfoldable pub to_text : ℕ → (ℕ → ℕ) → ℕ → (ℕ → ℕ) → ℕ → ℕ
to_text base digit a b =
    if a == 0
    then update (update b 0 b'0') 1 0
    else let (i, b') = digit_loop base digit 32 a 0 b in update (reverse_loop i b') i 0

abbrev pub decimal_digit : ℕ → ℕ
decimal_digit d = d + b'0'

unfoldable pub itoa : ℕ → (ℕ → ℕ) → ℕ → ℕ
unfolding to_text
itoa a b = to_text 10 decimal_digit a b

-- hex[] = "0123456789ABCDEF"
abbrev pub hex_digit : ℕ → ℕ
hex_digit d = if ltb d 10 then d + b'0' else d - 10 + b'A'

unfoldable pub itoa_hex : ℕ → (ℕ → ℕ) → ℕ → ℕ
unfolding to_text
itoa_hex a b = to_text 16 hex_digit a b

-- while (a[i]!=0) i++;
pub strlen_loop : ℕ → (ℕ → ℕ) → ℕ → ℕ
strlen_loop zero a i = i
strlen_loop (suc f) a i = let rest = strlen_loop f a (i + 1) in if a i == 0 then i else rest

unfoldable pub strlen : ℕ → (ℕ → ℕ) → ℕ
unfolding strlen_loop
strlen fuel a = strlen_loop fuel a 0

-- The buffer is `buff`, and `write` is the wrapper of wrappers.S.
pub perror {ℓ} : {R : Type ℓ} → ℕ → ℕ → (ℕ → ℕ) → (ℕ → (ℕ → ℕ) → ℕ → R) → R
unfolding itoa strlen
perror fuel errno buff write = let text = itoa errno buff in write 1 text (strlen fuel text)
