-- ===== src/Build/Chunks.antt =====
-- What is read and written by the loops of build.c.
use mathlib.Core.Path.{subst}
use so.Common.{
  ℕ, zero, suc, ◌+◌, ◌-◌, ◌≤◌, ◌≡◌, refl, true, false, not, List, [], Option, none, some, arith,
  length, take, drop, append-take-drop, length-take, length-drop, nil_of_length, ltb, ◌==◌,
  if◌then◌else◌, ap, sym, ◌∙◌, Bool-cases, inl, inr,
}
use so.Build.{
  Os, Buffer, put_bytes, get_bytes, buf_size, wrote, chunk, copy_loop, Failure, write_failed,
}
use so.Build.Bytes.{get_bytes-put_bytes, put_bytes-append}
use so.Build.Calls.{Behaves, Returns, Returns-and_then, Returns-weaken}

module _ {W : Type 0} {os : Os W} {file : ℕ → List ℕ} (b : Behaves os file) where
  -- The output has got the bytes at its offset, and `rest` is left to be read.
  abbrev pub Wrote : W → List ℕ → List ℕ → Buffer → W → Type 0
  Wrote w xs rest buf w' =
      (b.out w' ≡ put_bytes (b.at w) xs (b.out w))
      × (b.at w' ≡ b.at w + length xs)
      × (b.unread w' ≡ rest)

  wrote-Returns :
      (why : Failure) (xs : List ℕ) (buf : Buffer) (w : W) (r : Option ℕ × W)
      → r ≡ os.write xs w
      → Returns (Wrote w xs (b.unread w)) (wrote why buf (length xs) r)
  unfolding Returns wrote
  wrote-Returns why xs buf w (none, w') e =
      absurd (ground (arith, ap (λ r. r.0) e, (b.write xs w).0))
  wrote-Returns why xs buf w (some m, w') e =
      let law = b.write xs w in
      let same : (m == length xs) ≡ true = ground (arith, ap (λ r. r.0) e, law.0) in
      let to : w' ≡ (os.write xs w).1 = ap (λ r. r.1) e in
      rw same (ap b.out to ∙ law.3, ap b.at to ∙ law.2, ap b.unread to ∙ law.1)

  pub wrote-Returns_at :
      (why : Failure) (n : ℕ) (xs : List ℕ) (buf : Buffer) (w : W)
      → length xs ≡ n
      → Returns (Wrote w xs (b.unread w)) (wrote why buf n (os.write xs w))
  wrote-Returns_at why n xs buf w e =
      subst (λ n. Returns (Wrote w xs (b.unread w)) (wrote why buf n (os.write xs w))) e
        (wrote-Returns why xs buf w (os.write xs w) refl)

  chunk-Returns :
      (n : ℕ) (buf : Buffer) (w : W) (r : Option (List ℕ) × W)
      → n ≤ length (b.unread w)
      → r ≡ os.read n w
      → Returns (Wrote w (take n (b.unread w)) (drop n (b.unread w))) (chunk os n buf r)
  unfolding Returns chunk
  chunk-Returns n buf w (none, w') h e = absurd (ground (arith, ap (λ r. r.0) e, (b.read n w).0))
  chunk-Returns n buf w (some xs, w') h e =
      let law = b.read n w in
      let ys : xs ≡ take n (b.unread w) = ground (arith, ap (λ r. r.0) e, law.0) in
      let full : length xs ≡ n = ap length ys ∙ length-take n (b.unread w) h in
      let ok : not (length xs == n) ≡ false = ground (arith, full) in
      let to : w' ≡ (os.read n w).1 = ap (λ r. r.1) e in
      let back : get_bytes n 0 (put_bytes 0 xs buf) ≡ xs =
        ap (λ n. get_bytes n 0 (put_bytes 0 xs buf)) (sym full) ∙ get_bytes-put_bytes 0 xs buf in
      let at : b.at w' ≡ b.at w = ap b.at to ∙ law.2 in
      let out : b.out w' ≡ b.out w = ap b.out to ∙ law.3 in
      let rest : b.unread w' ≡ drop n (b.unread w) = ap b.unread to ∙ law.1 in
      rw (ok, back)
        (Returns-weaken (Wrote w' xs (b.unread w'))
          (Wrote w (take n (b.unread w)) (drop n (b.unread w)))
          (wrote write_failed (put_bytes 0 xs buf) n (os.write xs w'))
          (wrote-Returns_at write_failed n xs (put_bytes 0 xs buf) w' full)
          (λ a w'' p. rw (← ys, ← at, ← out, ← rest) p))

  nothing-Wrote : (buf : Buffer) (w : W) → length (b.unread w) ≡ 0 → Wrote w (b.unread w) [] buf w
  unfolding put_bytes
  nothing-Wrote buf w h =
      let e = nil_of_length (b.unread w) h in
      (ap (λ xs. put_bytes (b.at w) xs (b.out w)) (sym e), omega (arith, h), e)

  -- What is written in two parts.
  Wrote-Wrote :
      (n : ℕ) (a c : Buffer) (w w' w'' : W)
      → n ≤ length (b.unread w)
      → Wrote w (take n (b.unread w)) (drop n (b.unread w)) a w'
      → Wrote w' (b.unread w') [] c w''
      → Wrote w (b.unread w) [] c w''
  Wrote-Wrote n a c w w' w'' small p q = (
    q.0
        ∙ rw (p.0, p.1, p.2)
            (put_bytes-append (b.at w) (take n (b.unread w)) (drop n (b.unread w)) (b.out w)
              ∙ ap (λ xs. put_bytes (b.at w) xs (b.out w)) (append-take-drop n (b.unread w))),
    omega (
      arith,
      q.1,
      p.1,
      ap length p.2,
      length-drop n (b.unread w),
      length-take n (b.unread w) small,
    ),
    q.2,
  )

  pub copy_loop-Returns :
      (f sz : ℕ) (buf : Buffer) (w : W)
      → length (b.unread w) ≡ sz
      → sz ≤ f
      → Returns (Wrote w (b.unread w) []) (copy_loop os f sz buf w)
  unfolding copy_loop
  copy_loop-Returns zero sz buf w h k = unfold Returns in nothing-Wrote buf w (omega arith)
  copy_loop-Returns (suc f) sz buf w h k = elim (Bool-cases (sz == 0)) [
    | inl e ↦ rw e (unfold Returns in nothing-Wrote buf w (ground (arith, h)))
    | inr more ↦
        let n = if ltb buf_size sz then buf_size else sz in
        let small : n ≤ length (b.unread w) = ground (arith, h) in
        rw more (
          Returns-and_then (Wrote w (take n (b.unread w)) (drop n (b.unread w)))
            (Wrote w (b.unread w) []) (chunk os n buf (os.read n w))
            (λ b w. copy_loop os f (sz - n) b w) (chunk-Returns n buf w (os.read n w) small refl)
            (λ a w' p.
              Returns-weaken (Wrote w' (b.unread w') []) (Wrote w (b.unread w) [])
                (copy_loop os f (sz - n) a w')
                (copy_loop-Returns f (sz - n) a w'
                  (ap length p.2 ∙ length-drop n (b.unread w) ∙ ap (λ m. m - n) h) (ground arith))
                (λ c w'' q. Wrote-Wrote n a c w w' w'' small p q)))
  ]
