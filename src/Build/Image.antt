-- ===== src/Build/Image.antt =====
-- The image that build.c writes, and what the kernel finds in it.
use so.Common.{
  ℕ, ◌+◌, ◌-◌, ◌*◌, ◌/◌, ◌%◌, ◌^◌, ◌<◌, ◌≤◌, ◌≡◌, refl, ◌⊎◌, List, arith, length, get_or, drop, ap,
  ◌∙◌,
}
use so.Build.{Os, Buffer, put_bytes, main, length_bytes, size_bytes}
use so.Build.Bytes.{put_bytes_lem}
use so.Build.Calls.{Behaves, Returns, Returns-and_then, Returns-weaken}
use so.Build.Boot.{IsBootFile, written_sector, Opened, minix_open-Returns, sector-Returns}
use so.Build.Files.{Copied, copy_file-Returns, patch-Returns}

-- The sector, the kernel and the user's program one behind the other.
unfoldable pub joined : List ℕ → List ℕ → List ℕ → Buffer → Buffer
joined boot sys usr out =
    put_bytes (512 + length sys) usr (put_bytes 512 sys (put_bytes 0 (written_sector boot) out))

-- With the sizes over the first bytes of the kernel.
unfoldable pub image : List ℕ → List ℕ → List ℕ → Buffer → Buffer
unfolding joined
image boot sys usr out = put_bytes 520 (size_bytes 0x7E6A) (
    put_bytes 516 (size_bytes (length usr)) (
      put_bytes 512 (size_bytes (length sys)) (
        put_bytes 500 (length_bytes ((length sys + length usr + 15) / 16))
          (joined boot sys usr out))))

module _ {W : Type 0} {os : Os W} {file : ℕ → List ℕ} (b : Behaves os file)
    (boot : IsBootFile (file 1)) (small : length (file 2) + length (file 3) + 15 < 2 ^ 32) where
  -- The three parts, written one behind the other.
  parts-joined :
      (w w₁ w₂ w₃ w₄ : W) (r s : ℕ × Buffer) (buf : Buffer)
      → b.at w ≡ 0
      → Opened b w (drop 32 (file 1)) buf w₁
      → (b.out w₂ ≡ put_bytes (b.at w₁) (written_sector (file 1)) (b.out w₁))
        × (b.at w₂ ≡ b.at w₁ + 512)
      → Copied b 2 (os.close w₂) r w₃
      → Copied b 3 w₃ s w₄
      → b.out w₄ ≡ joined (file 1) (file 2) (file 3) (b.out w)
  unfolding joined
  parts-joined w w₁ w₂ w₃ w₄ r s buf start p₁ p₂ p₃ p₄ =
      let sec = written_sector (file 1) in
      let at₁ : b.at w₁ ≡ 0 = p₁.1 ∙ start in
      let at₂ : b.at (os.close w₂) ≡ 512 = omega (arith, (b.close w₂).0, p₂.1, at₁) in
      let at₃ : b.at w₃ ≡ 512 + length (file 2) = omega (arith, p₃.2, at₂) in
      let first : b.out (os.close w₂) ≡ put_bytes 0 sec (b.out w) =
        (b.close w₂).1
        ∙ p₂.0
        ∙ ap (λ a. put_bytes a sec (b.out w₁)) at₁
        ∙ ap (put_bytes 0 sec) p₁.2 in
      let second : b.out w₃ ≡ put_bytes 512 (file 2) (put_bytes 0 sec (b.out w)) =
        p₃.1
        ∙ ap (λ a. put_bytes a (file 2) (b.out (os.close w₂))) at₂
        ∙ ap (put_bytes 512 (file 2)) first in
      p₄.1
      ∙ ap (λ a. put_bytes a (file 3) (b.out w₃)) at₃
      ∙ ap (put_bytes (512 + length (file 2)) (file 3)) second

  -- On regular files, the first of them a boot sector with its Minix header, whose sizes fit into
  -- an unsigned int, and an output that takes all bytes, `main` does not die, and the output is the
  -- image.
  pub main-Returns :
      (buf : Buffer) (w : W)
      → b.at w ≡ 0
      → Returns (λ c w'. b.out w' ≡ image (file 1) (file 2) (file 3) (b.out w)) (main os buf w)
  unfolding main image
  main-Returns buf w start =
      let done : Buffer → W → Type 0 =
        λ c w'. b.out w' ≡ image (file 1) (file 2) (file 3) (b.out w) in
      Returns-and_then (Opened b w (drop 32 (file 1))) done _ _ (minix_open-Returns b 1 buf w boot)
        λ b₁ w₁ p₁.
          Returns-and_then _ done _ _ (sector-Returns b (file 1) b₁ w₁ _ boot p₁.0 refl) λ b₂ w₂ p₂.
            Returns-and_then _ done _ _
              (copy_file-Returns b 2 b₂ (os.close w₂) (omega (arith, small)))
              λ r₃ w₃ p₃.
                Returns-and_then _ done _ _ (copy_file-Returns b 3 r₃.1 w₃ (omega (arith, small)))
                  λ r₄ w₄ p₄.
                    Returns-and_then _ done _ _
                      (patch-Returns b 500 (length_bytes ((r₃.0 + r₄.0 + 15) % 2 ^ 32 / 16)) r₄.1
                        w₄)
                      λ b₅ w₅ p₅.
                        Returns-and_then _ done _ _ (patch-Returns b 512 (size_bytes r₃.0) b₅ w₅)
                          λ b₆ w₆ p₆.
                            Returns-and_then _ done _ _
                              (patch-Returns b 516 (size_bytes r₄.0) b₆ w₆)
                              λ b₇ w₇ p₇.
                                Returns-weaken _ done _
                                  (patch-Returns b 520 (size_bytes 0x7E6A) b₇ w₇)
                                  λ b₈ w₈ p₈.
                                    p₈
                                    ∙ ap (put_bytes 520 (size_bytes 0x7E6A)) (
                                        p₇
                                        ∙ ap (λ n. put_bytes 516 (size_bytes n) (b.out w₆)) p₄.0
                                        ∙ ap (put_bytes 516 (size_bytes (length (file 3)))) (
                                            p₆
                                            ∙ ap (λ n. put_bytes 512 (size_bytes n) (b.out w₅)) p₃.0
                                            ∙ ap (put_bytes 512 (size_bytes (length (file 2)))) (
                                                p₅
                                                ∙ ap
                                                    (λ n. put_bytes 500 (length_bytes n) (b.out w₄))
                                                    {x = (r₃.0 + r₄.0 + 15) % 2 ^ 32 / 16}
                                                    {y = (length (file 2) + length (file 3) + 15)
                                                      / 16}
                                                    (omega (arith, p₃.0, p₄.0, small))
                                                ∙ ap
                                                    (put_bytes 500 (
                                                      length_bytes (
                                                        (length (file 2) + length (file 3) + 15)
                                                        / 16)))
                                                    (parts-joined w w₁ w₂ w₃ w₄ r₃ r₄ b₁ start p₁ p₂
                                                      p₃ p₄))))

module _ (boot sys usr : List ℕ) (out : Buffer) where
  -- A byte that a patch of four bytes does not touch, and the four bytes.
  pub off_patch :
      (p n a : ℕ) (under : Buffer)
      → (a < p) ⊎ (p + 4 ≤ a)
      → put_bytes p (size_bytes n) under a ≡ under a
  off_patch p n a under h = put_bytes_lem p (size_bytes n) under a ∙ ground arith

  pub on_patch :
      (p n : ℕ) (under : Buffer)
      → n < 2 ^ 24
      → let at = put_bytes p (size_bytes n) under in
        at p + at (p + 1) * 2 ^ 8 + at (p + 2) * 2 ^ 16 + at (p + 3) * 2 ^ 24 ≡ n
  unfolding put_bytes
  on_patch p n under small = ground arith

  -- A size in the image.
  pub image-sys_size :
      length sys < 2 ^ 24
      → let at = image boot sys usr out in
        at 512 + at (512 + 1) * 2 ^ 8 + at (512 + 2) * 2 ^ 16 + at (512 + 3) * 2 ^ 24 ≡ length sys
  unfolding image
  image-sys_size small =
      let k₂ =
        put_bytes 500 (length_bytes ((length sys + length usr + 15) / 16))
          (joined boot sys usr out) in
      let k₃ = put_bytes 512 (size_bytes (length sys)) k₂ in
      let k₄ = put_bytes 516 (size_bytes (length usr)) k₃ in
      let at : (a : ℕ) → a < 516 → image boot sys usr out a ≡ k₃ a = λ a lt.
        off_patch 520 0x7E6A a k₄ (omega arith) ∙ off_patch 516 (length usr) a k₃ (omega arith) in
      rw (at 512 (omega arith), at 513 (omega arith), at 514 (omega arith), at 515 (omega arith))
        (on_patch 512 (length sys) k₂ small)

  pub image-usr_size :
      length usr < 2 ^ 24
      → let at = image boot sys usr out in
        at 516 + at (516 + 1) * 2 ^ 8 + at (516 + 2) * 2 ^ 16 + at (516 + 3) * 2 ^ 24 ≡ length usr
  unfolding image
  image-usr_size small =
      let k₂ =
        put_bytes 500 (length_bytes ((length sys + length usr + 15) / 16))
          (joined boot sys usr out) in
      let k₃ = put_bytes 512 (size_bytes (length sys)) k₂ in
      let k₄ = put_bytes 516 (size_bytes (length usr)) k₃ in
      let at : (a : ℕ) → a < 520 → image boot sys usr out a ≡ k₄ a =
        λ a lt. off_patch 520 0x7E6A a k₄ (omega arith) in
      rw (at 516 (omega arith), at 517 (omega arith), at 518 (omega arith), at 519 (omega arith))
        (on_patch 516 (length usr) k₃ small)

  -- The user's program stands behind the kernel.
  pub image-usr :
      (j : ℕ)
      → 12 ≤ length sys
      → j < length usr
      → image boot sys usr out (512 + length sys + j) ≡ get_or usr j 0
  unfolding image joined
  image-usr j room lt =
      let a = 512 + length sys + j in
      let core = put_bytes 512 sys (put_bytes 0 (written_sector boot) out) in
      let there = put_bytes_lem (512 + length sys) usr core a in
      let k₁ = put_bytes (512 + length sys) usr core in
      let k₂ = put_bytes 500 (length_bytes ((length sys + length usr + 15) / 16)) k₁ in
      let k₃ = put_bytes 512 (size_bytes (length sys)) k₂ in
      let k₄ = put_bytes 516 (size_bytes (length usr)) k₃ in
      off_patch 520 0x7E6A a k₄ (omega arith)
      ∙ off_patch 516 (length usr) a k₃ (omega arith)
      ∙ off_patch 512 (length sys) a k₂ (omega arith)
      ∙ put_bytes_lem 500 (length_bytes ((length sys + length usr + 15) / 16)) k₁ a
      ∙ ground arith
      ∙ there
      ∙ ground (arith, ap (λ i. get_or usr i 0) {x = a - (512 + length sys)} {y = j})
