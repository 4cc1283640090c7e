-- ===== src/Build/Calls.antt =====
-- What build.c relies on in the system calls, and what its parts lead to.
use so.Common.{ℕ, ◌+◌, ◌≡◌, true, List, some, take, drop, length}
use so.Build.{Run, died, returned, and_then, Os, put_bytes}

-- Regular files that can be read to their end, and an output that takes all bytes. `file i` holds
-- the bytes of the file opened as `i`.
pub record Behaves {W : Type 0} (os : Os W) (file : ℕ → List ℕ) : Type 0 where
  -- The bytes of the open file that have not been read, the offset of the output, and its bytes.
  pub unread : W → List ℕ
  pub at : W → ℕ
  pub out : W → ℕ → ℕ
  pub open_file :
      (i : ℕ) (w : W)
      → ((os.open_file i w).0 ≡ true)
        × (unread (os.open_file i w).1 ≡ file i)
        × (at (os.open_file i w).1 ≡ at w)
        × (out (os.open_file i w).1 ≡ out w)
  pub read :
      (n : ℕ) (w : W)
      → ((os.read n w).0 ≡ some (take n (unread w)))
        × (unread (os.read n w).1 ≡ drop n (unread w))
        × (at (os.read n w).1 ≡ at w)
        × (out (os.read n w).1 ≡ out w)
  pub write :
      (xs : List ℕ) (w : W)
      → ((os.write xs w).0 ≡ some (length xs))
        × (unread (os.write xs w).1 ≡ unread w)
        × (at (os.write xs w).1 ≡ at w + length xs)
        × (out (os.write xs w).1 ≡ put_bytes (at w) xs (out w))
  pub file_size : (i : ℕ) (w : W) → os.file_size (os.open_file i w).1 ≡ some (length (file i))
  pub seek :
      (p : ℕ) (w : W)
      → ((os.seek p w).0 ≡ some p) × (at (os.seek p w).1 ≡ p) × (out (os.seek p w).1 ≡ out w)
  pub close : (w : W) → (at (os.close w) ≡ at w) × (out (os.close w) ≡ out w)

-- The part does not die, and what it returns is in the relation.
unfoldable pub Returns : {W A : Type 0} → (A → W → Type 0) → Run W A → Type 0
Returns P (died why w) = ⊥
Returns P (returned a w) = P a w

pub Returns-and_then :
    {W A B : Type 0} (P : A → W → Type 0) (Q : B → W → Type 0) (r : Run W A)
    (next : A → W → Run W B)
    → Returns P r
    → ((a : A) (w : W) → P a w → Returns Q (next a w))
    → Returns Q (and_then r next)
unfolding Returns and_then
Returns-and_then P Q (died why w) next p f = absurd p
Returns-and_then P Q (returned a w) next p f = f a w p

pub Returns-weaken :
    {W A : Type 0} (P Q : A → W → Type 0) (r : Run W A)
    → Returns P r
    → ((a : A) (w : W) → P a w → Q a w)
    → Returns Q r
unfolding Returns
Returns-weaken P Q (died why w) p f = p
Returns-weaken P Q (returned a w) p f = f a w p
