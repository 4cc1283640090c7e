-- ===== src/Build/Bytes.antt =====
-- The buffer of build.c: what is read is what is written.
use so.Common.{
  ℕ, zero, suc, ◌+◌, ◌-◌, ◌<◌, ◌≡◌, refl, List, [], ◌∷◌, ◌++◌, arith, length, get_or, update, ltb,
  leb, ◌&&◌, if◌then◌else◌, ap, ◌∙◌, Bool-cases, inl, inr,
}
use so.Build.{Buffer, put_bytes, get_bytes}

-- Byte for byte.
pub put_bytes_lem :
    (i : ℕ) (xs : List ℕ) (buf : Buffer) (a : ℕ)
    → put_bytes i xs buf a
      ≡ (if leb i a && ltb a (i + length xs) then get_or xs (a - i) 0 else buf a)
unfolding put_bytes
put_bytes_lem i [] buf a = ground arith
put_bytes_lem i (x ∷ xs) buf a = elim (Bool-cases (leb (i + 1) a)) [
  | inl above ↦
      let step : get_or (x ∷ xs) (a - i) 0 ≡ get_or xs (a - (i + 1)) 0 =
        ap (λ j. get_or (x ∷ xs) j 0) {x = a - i} {y = suc (a - (i + 1))} (ground arith) in
      put_bytes_lem (i + 1) xs (update buf i x) a ∙ ground (arith, step)
  | inr below ↦
      let step : i ≡ a → get_or (x ∷ xs) (a - i) 0 ≡ x =
        λ e. ap (λ j. get_or (x ∷ xs) j 0) {x = a - i} {y = 0} (omega arith) in
      put_bytes_lem (i + 1) xs (update buf i x) a ∙ ground (arith, step)
]

pub get_bytes-put_bytes :
    (i : ℕ) (xs : List ℕ) (buf : Buffer) → get_bytes (length xs) i (put_bytes i xs buf) ≡ xs
unfolding get_bytes put_bytes
get_bytes-put_bytes i [] buf = refl
get_bytes-put_bytes i (x ∷ xs) buf = ground (
  arith,
  put_bytes_lem (i + 1) xs (update buf i x) i,
  get_bytes-put_bytes (i + 1) xs (update buf i x),
)

pub put_bytes-append :
    (i : ℕ) (xs ys : List ℕ) (buf : Buffer)
    → put_bytes (i + length xs) ys (put_bytes i xs buf) ≡ put_bytes i (xs ++ ys) buf
unfolding put_bytes
put_bytes-append i [] ys buf = ap (λ j. put_bytes j ys buf) {x = i + 0} {y = i} (omega arith)
put_bytes-append i (x ∷ xs) ys buf =
    ap (λ j. put_bytes j ys (put_bytes (i + 1) xs (update buf i x))) {x = i + suc (length xs)}
      {y = i + 1 + length xs} (omega arith)
    ∙ put_bytes-append (i + 1) xs ys (update buf i x)

pub length-get_bytes : (n i : ℕ) (buf : Buffer) → length (get_bytes n i buf) ≡ n
unfolding get_bytes
length-get_bytes zero i buf = refl
length-get_bytes (suc n) i buf = omega (arith, length-get_bytes n (i + 1) buf)

-- What has been read stands at the start of the buffer.
pub put_bytes-get_or :
    (i : ℕ) (xs : List ℕ) (buf : Buffer) → i < length xs → put_bytes 0 xs buf i ≡ get_or xs i 0
put_bytes-get_or i xs buf lt =
    put_bytes_lem 0 xs buf i ∙ ground (arith, ap (λ j. get_or xs j 0) {x = i - 0} {y = i})
