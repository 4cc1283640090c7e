-- ===== src/Build/Contents.antt =====
-- What the output of build.c holds, place by place.
use so.Common.{
  ℕ, zero, suc, ◌+◌, ◌-◌, ◌*◌, ◌/◌, ◌^◌, ◌<◌, ◌≤◌, ◌≡◌, ◌⊎◌, inl, inr, List, arith, length, get_or,
  drop, ap, ◌∙◌, update, sym,
}
use mathlib.Core.Path.{subst}
use so.Build.{Os, Buffer, put_bytes, get_bytes, main, length_bytes, size_bytes}
use so.Build.Bytes.{put_bytes_lem}
use so.Build.Calls.{Behaves, Returns, Returns-weaken}
use so.Build.Boot.{IsBootFile, written_sector, length-written_sector}
use so.Build.Image.{
  joined, image, off_patch, on_patch, image-sys_size, image-usr_size, image-usr, main-Returns,
}

-- A number of four bytes, the lowest first.
abbrev number_at : Buffer → ℕ → ℕ
number_at at p = at p + at (p + 1) * 2 ^ 8 + at (p + 2) * 2 ^ 16 + at (p + 3) * 2 ^ 24

-- The boot sector behind its header of 32 bytes, with no root device, and the count of 16-byte
-- paragraphs, the lower byte first; the kernel with three numbers over its first bytes; the
-- program.
pub record IsImage (boot sys usr : List ℕ) (at : Buffer) : Type 0 where
  pub sector :
      (j : ℕ)
      → (j < 500) ⊎ ((502 ≤ j) × (j < 508)) ⊎ ((510 ≤ j) × (j < 512))
      → at j ≡ get_or (drop 32 boot) j 0
  pub paragraphs : at 500 + at 501 * 2 ^ 8 ≡ (length sys + length usr + 15) / 16
  pub root : (at 508 ≡ 0) × (at 509 ≡ 0)
  pub sys_size : number_at at 512 ≡ length sys
  pub usr_size : number_at at 516 ≡ length usr
  pub entry : number_at at 520 ≡ 0x7E6A
  pub kernel : (j : ℕ) → 12 ≤ j → j < length sys → at (512 + j) ≡ get_or sys j 0
  pub program : (j : ℕ) → j < length usr → at (512 + length sys + j) ≡ get_or usr j 0

get_or-get_bytes : (n i j : ℕ) (b : Buffer) → j < n → get_or (get_bytes n i b) j 0 ≡ b (i + j)
unfolding get_bytes
get_or-get_bytes zero i j b lt = absurd (omega arith)
get_or-get_bytes (suc n) i zero b lt = ap b {x = i} {y = i + 0} (omega arith)
get_or-get_bytes (suc n) i (suc j) b lt =
    get_or-get_bytes n (i + 1) j b (omega arith)
    ∙ ap b {x = i + 1 + j} {y = i + suc j} (omega arith)

module _ (boot sys usr : List ℕ) (out : Buffer) where
  joined-sector : (a : ℕ) → a < 512 → joined boot sys usr out a ≡ get_or (written_sector boot) a 0
  unfolding joined
  joined-sector a lt =
      let first = put_bytes 0 (written_sector boot) out in
      let at : get_or (written_sector boot) (a - 0) 0 ≡ get_or (written_sector boot) a 0 =
        ap (λ i. get_or (written_sector boot) i 0) {x = a - 0} {y = a} (omega arith) in
      put_bytes_lem (512 + length sys) usr (put_bytes 512 sys first) a
      ∙ ground (
        arith,
        put_bytes_lem 512 sys first a,
        put_bytes_lem 0 (written_sector boot) out a,
        length-written_sector boot,
        at,
      )

  joined-kernel : (j : ℕ) → j < length sys → joined boot sys usr out (512 + j) ≡ get_or sys j 0
  unfolding joined
  joined-kernel j lt =
      let first = put_bytes 0 (written_sector boot) out in
      put_bytes_lem (512 + length sys) usr (put_bytes 512 sys first) (512 + j)
      ∙ ground (
        arith,
        put_bytes_lem 512 sys first (512 + j),
        ap (λ i. get_or sys i 0) {x = 512 + j - 512} {y = j},
      )

  abbrev with_length : Buffer
  with_length =
      put_bytes 500 (length_bytes ((length sys + length usr + 15) / 16)) (joined boot sys usr out)

  abbrev with_sys : Buffer
  with_sys = put_bytes 512 (size_bytes (length sys)) with_length

  abbrev with_usr : Buffer
  with_usr = put_bytes 516 (size_bytes (length usr)) with_sys

  -- Off the three numbers.
  image-off : (a : ℕ) → (a < 512) ⊎ (524 ≤ a) → image boot sys usr out a ≡ with_length a
  unfolding image
  image-off a far =
      off_patch boot sys usr out 520 0x7E6A a with_usr (ground arith)
      ∙ off_patch boot sys usr out 516 (length usr) a with_sys (ground arith)
      ∙ off_patch boot sys usr out 512 (length sys) a with_length (ground arith)

  with_length-off : (a : ℕ) → (a < 500) ⊎ (502 ≤ a) → with_length a ≡ joined boot sys usr out a
  with_length-off a far =
      put_bytes_lem 500 (length_bytes ((length sys + length usr + 15) / 16))
        (joined boot sys usr out) a
      ∙ ground arith

  at_sector :
      (a : ℕ)
      → a < 512
      → get_or (written_sector boot) a 0
        ≡ update (update (λ i. get_or (drop 32 boot) i 0) 508 0) 509 0 a
  unfolding written_sector
  at_sector a lt =
      let b = update (update (λ i. get_or (drop 32 boot) i 0) 508 0) 509 0 in
      get_or-get_bytes 512 0 a b lt ∙ ap b {x = 0 + a} {y = a} (omega arith)

  sector-at :
      (a : ℕ)
      → a < 512
      → (a < 500) ⊎ (502 ≤ a)
      → image boot sys usr out a ≡ update (update (λ i. get_or (drop 32 boot) i 0) 508 0) 509 0 a
  sector-at a lt far =
      image-off a (inl lt) ∙ with_length-off a far ∙ joined-sector a lt ∙ at_sector a lt

  on_length :
      (n : ℕ) (under : Buffer)
      → n < 2 ^ 16
      → let at = put_bytes 500 (length_bytes n) under in at 500 + at 501 * 2 ^ 8 ≡ n
  unfolding put_bytes
  on_length n under small = ground arith

  image-IsImage :
      length sys + length usr + 15 < 2 ^ 20
      → 12 ≤ length sys
      → IsImage boot sys usr (image boot sys usr out)
  image-IsImage small room = record {
    sector = λ j far. sector-at j (ground arith) (ground arith) ∙ ground arith;
    paragraphs =
        rw (image-off 500 (inl (omega arith)), image-off 501 (inl (omega arith)))
          (on_length ((length sys + length usr + 15) / 16) (joined boot sys usr out) (omega arith));
    root = (
      sector-at 508 (omega arith) (inr (omega arith)),
      sector-at 509 (omega arith) (inr (omega arith)),
    );
    sys_size = image-sys_size boot sys usr out (omega arith);
    usr_size = image-usr_size boot sys usr out (omega arith);
    entry = unfold image in on_patch boot sys usr out 520 0x7E6A with_usr (omega arith);
    kernel = λ j lo lt.
        image-off (512 + j) (inr (omega arith))
        ∙ with_length-off (512 + j) (inr (omega arith))
        ∙ joined-kernel j lt;
    program = λ j lt. image-usr boot sys usr out j room lt;
  }

-- On regular files, the first of them a boot sector with its Minix header, the second of at least
-- 12 bytes, and together of less than 2^20 - 15 bytes, and an output that takes all bytes, `main`
-- does not die, and the output holds the boot sector, the count of paragraphs, the kernel with the
-- two sizes and the entry over its first bytes, and the program, each at its place.
pub main-IsImage :
    {W : Type 0} {os : Os W} {file : ℕ → List ℕ} (b : Behaves os file)
    → IsBootFile (file 1)
    → 12 ≤ length (file 2)
    → length (file 2) + length (file 3) + 15 < 2 ^ 20
    → (buf : Buffer) (w : W) → b.at w ≡ 0
    → Returns (λ c w'. IsImage (file 1) (file 2) (file 3) (b.out w')) (main os buf w)
main-IsImage {os = os} {file = file} b boot room small buf w start =
    Returns-weaken (λ c w'. b.out w' ≡ image (file 1) (file 2) (file 3) (b.out w))
      (λ c w'. IsImage (file 1) (file 2) (file 3) (b.out w')) (main os buf w)
      (main-Returns b boot (omega arith) buf w start)
      (λ c w' e.
        subst (IsImage (file 1) (file 2) (file 3)) (sym e)
          (image-IsImage (file 1) (file 2) (file 3) (b.out w) small room))
