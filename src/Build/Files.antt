-- ===== src/Build/Files.antt =====
-- The files that build.c copies, and the sizes that it patches into the image.
use so.Common.{
  ℕ, ◌+◌, ◌%◌, ◌^◌, ◌<◌, ◌≡◌, refl, true, List, [], Option, none, some, arith, length, ◌==◌, ap,
  sym, ◌∙◌,
}
use so.Build.{
  returned, and_then, Os, Buffer, put_bytes, wrote, opened, copy_loop, sized, copy_file, patch,
  sought, write_failed,
}
use so.Build.Bytes.{get_bytes-put_bytes}
use so.Build.Calls.{Behaves, Returns, Returns-and_then, Returns-weaken}
use so.Build.Chunks.{Wrote, wrote-Returns_at, copy_loop-Returns}

module _ {W : Type 0} {os : Os W} {file : ℕ → List ℕ} (b : Behaves os file) where
  sized-Returns :
      (i : ℕ) (w : W)
      → Returns
          (λ n w'. (n ≡ length (file i)) × (w' ≡ (os.open_file i w).1))
          (sized os (os.open_file i w).1)
  unfolding Returns sized
  sized-Returns i w = rw (b.file_size i w, Returns) (refl, refl)

  -- The size of a file, and the file behind what the output holds.
  abbrev pub Copied : ℕ → W → (ℕ × Buffer) → W → Type 0
  Copied i w r w' =
      (r.0 ≡ length (file i))
      × (b.out w' ≡ put_bytes (b.at w) (file i) (b.out w))
      × (b.at w' ≡ b.at w + length (file i))

  loop-Returns :
      (i m : ℕ) (buf : Buffer) (w : W)
      → m ≡ length (file i)
      → Returns
          (Copied i w)
          (and_then (copy_loop os m m buf (os.open_file i w).1) λ b w. returned (m, b) (os.close w))
  unfolding Returns
  loop-Returns i m buf w e =
      let law = b.open_file i w in
      let w₁ = (os.open_file i w).1 in
      Returns-and_then (Wrote b w₁ (b.unread w₁) []) (Copied i w) (copy_loop os m m buf w₁)
        (λ b w. returned (m, b) (os.close w))
        (copy_loop-Returns b m m buf w₁ (ap length law.1 ∙ sym e) (omega arith))
        (λ c w' q. (
          e,
          (b.close w').1
              ∙ q.0
              ∙ ap (λ a. put_bytes a (b.unread w₁) (b.out w₁)) law.2
              ∙ ap (λ xs. put_bytes (b.at w) xs (b.out w₁)) law.1
              ∙ ap (put_bytes (b.at w) (file i)) law.3,
          (b.close w').0 ∙ omega (arith, q.1, law.2, ap length law.1),
        ))

  -- A file shorter than 2 ^ 32 bytes reaches the output as it is.
  pub copy_file-Returns :
      (i : ℕ) (buf : Buffer) (w : W)
      → length (file i) < 2 ^ 32
      → Returns (Copied i w) (copy_file os i buf w)
  unfolding copy_file opened
  copy_file-Returns i buf w small =
      let law = b.open_file i w in
      let w₁ = (os.open_file i w).1 in
      rw law.0 (
        Returns-and_then (λ m w'. (m ≡ length (file i)) × (w' ≡ w₁)) (Copied i w) (sized os w₁)
          (λ m w.
            and_then (copy_loop os (m % 2 ^ 32) (m % 2 ^ 32) buf w)
              λ b w. returned (m % 2 ^ 32, b) (os.close w))
          (sized-Returns i w)
          (λ m w' p.
            let at : m % 2 ^ 32 ≡ length (file i) = omega (arith, p.0) in
            rw p.1 (loop-Returns i (m % 2 ^ 32) buf w at)))

  sought-Returns :
      (p : ℕ) (xs : List ℕ) (buf : Buffer) (w : W) (r : Option ℕ × W)
      → r ≡ os.seek p w
      → Returns
          (λ c w'. b.out w' ≡ put_bytes p xs (b.out w))
          (sought os p (length xs) (put_bytes 0 xs buf) r)
  unfolding sought
  sought-Returns p xs buf w (none, w') e = absurd (ground (arith, ap (λ r. r.0) e, (b.seek p w).0))
  sought-Returns p xs buf w (some q, w') e =
      let law = b.seek p w in
      let same : (q == p) ≡ true = ground (arith, ap (λ r. r.0) e, law.0) in
      let to : w' ≡ (os.seek p w).1 = ap (λ r. r.1) e in
      rw (same, get_bytes-put_bytes 0 xs buf)
        (Returns-weaken (Wrote b w' xs (b.unread w')) (λ c w'. b.out w' ≡ put_bytes p xs (b.out w))
          (wrote write_failed (put_bytes 0 xs buf) (length xs) (os.write xs w'))
          (wrote-Returns_at b write_failed (length xs) xs (put_bytes 0 xs buf) w' refl)
          (λ c w'' h.
            h.0
            ∙ ap (λ a. put_bytes a xs (b.out w')) (ap b.at to ∙ law.1)
            ∙ ap (put_bytes p xs) (ap b.out to ∙ law.2)))

  -- A patch puts its bytes at its place of the output.
  pub patch-Returns :
      (p : ℕ) (xs : List ℕ) (buf : Buffer) (w : W)
      → Returns (λ c w'. b.out w' ≡ put_bytes p xs (b.out w)) (patch os p xs buf w)
  unfolding patch
  patch-Returns p xs buf w = sought-Returns p xs buf w (os.seek p w) refl
