-- ===== src/Common/Words.antt =====
-- 32-bit integers as their bit patterns. `wneg k` is the pattern of the C integer -k.
use Prim.Native.Nat.{ℕ, ◌+◌, ◌-◌, ◌%◌, ◌^◌}
use mathlib.Core.Bool.{Bool}
use so.Common.Tests.{leb}

abbrev pub u32_mod : ℕ
u32_mod = 2 ^ 32

abbrev pub wneg : ℕ → ℕ
wneg k = u32_mod - k

abbrev pub is_neg : ℕ → Bool
is_neg w = leb (2 ^ 31) w

abbrev pub wadd : ℕ → ℕ → ℕ
wadd a b = (a + b) % u32_mod

abbrev pub wsub : ℕ → ℕ → ℕ
wsub a b = (a + u32_mod - b) % u32_mod
