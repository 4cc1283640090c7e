-- ===== src/Build/Boot.antt =====
-- The boot sector that build.c reads and writes.
use mathlib.Core.Path.{subst}
use so.Common.{
  ℕ, zero, suc, ◌+◌, ◌*◌, ◌<◌, ◌≤◌, ◌≡◌, refl, true, false, not, ◌||◌, List, Option, none, some,
  arith, length, get_or, take, drop, length-take, length-drop, take_all, update, ◌==◌, ap, sym, ◌∙◌,
}
use so.Build.{
  Os, Buffer, put_bytes, get_bytes, buf_size, wrote, opened, header, minix_open, sector, is_hdr, lb,
  write_failed,
}
use so.Build.Bytes.{put_bytes-get_or, length-get_bytes}
use so.Build.Calls.{Behaves, Returns, Returns-and_then, Returns-weaken}
use so.Build.Chunks.{Wrote, wrote-Returns_at}

abbrev pub at_or : List ℕ → Buffer
at_or xs i = get_or xs i 0

-- A Minix header of 32 bytes, and a boot sector of 512 bytes with its flag.
pub record IsBootFile (xs : List ℕ) : Type 0 where
  pub length_544 : length xs ≡ 544
  pub magic : is_hdr (at_or (take 32 xs)) ≡ true
  pub no_data : lb 3 (at_or (take 32 xs)) ≡ 0
  pub no_bss : lb 4 (at_or (take 32 xs)) ≡ 0
  pub no_entry : lb 5 (at_or (take 32 xs)) ≡ 0
  pub no_symbols : lb 7 (at_or (take 32 xs)) ≡ 0
  pub flag : (get_or (drop 32 xs) 510 0 ≡ 0x55) × (get_or (drop 32 xs) 511 0 ≡ 0xAA)

is_hdr-ext : (b c : Buffer) → ((i : ℕ) → i < 32 → b i ≡ c i) → is_hdr b ≡ is_hdr c
is_hdr-ext b c h =
    rw
      (
        h 0 (omega arith),
        h 1 (omega arith),
        h 2 (omega arith),
        h 3 (omega arith),
        h 4 (omega arith),
        h 5 (omega arith),
        h 6 (omega arith),
        h 7 (omega arith),
      )
      refl

lb-ext : (i : ℕ) (b c : Buffer) → i < 8 → ((i : ℕ) → i < 32 → b i ≡ c i) → lb i b ≡ lb i c
lb-ext i b c lt h =
    rw
      (
        h (4 * i) (omega arith),
        h (4 * i + 1) (omega arith),
        h (4 * i + 2) (omega arith),
        h (4 * i + 3) (omega arith),
      )
      refl

get_bytes-ext :
    (n i : ℕ) (b c : Buffer)
    → ((j : ℕ) → i ≤ j → j < i + n → b j ≡ c j)
    → get_bytes n i b ≡ get_bytes n i c
unfolding get_bytes
get_bytes-ext zero i b c h = refl
get_bytes-ext (suc n) i b c h =
    ground (arith, h i, get_bytes-ext n (i + 1) b c (λ j lo hi. h j (omega arith) (omega arith)))

-- The boot sector as it is written.
unfoldable pub written_sector : List ℕ → List ℕ
unfolding get_bytes
written_sector xs = get_bytes 512 0 (update (update (at_or (drop 32 xs)) 508 0) 509 0)

flag_ok : (x y : ℕ) → x ≡ 0x55 → y ≡ 0xAA → (not (x == 0x55) || not (y == 0xAA)) ≡ false
flag_ok x y e f = ground arith

no_root-ext :
    (b c : Buffer) (j : ℕ)
    → b j ≡ c j
    → update (update b 508 0) 509 0 j ≡ update (update c 508 0) 509 0 j
no_root-ext b c j e = ground arith

pub length-written_sector : (xs : List ℕ) → length (written_sector xs) ≡ 512
unfolding written_sector
length-written_sector xs = length-get_bytes 512 0 (update (update (at_or (drop 32 xs)) 508 0) 509 0)

written_sector-eq :
    (xs : List ℕ) (b : Buffer)
    → ((i : ℕ) → i < 512 → b i ≡ at_or (drop 32 xs) i)
    → get_bytes 512 0 (update (update b 508 0) 509 0) ≡ written_sector xs
unfolding written_sector
written_sector-eq xs b same =
    get_bytes-ext 512 0 (update (update b 508 0) 509 0)
      (update (update (at_or (drop 32 xs)) 508 0) 509 0)
      λ j lo hi. no_root-ext b (at_or (drop 32 xs)) j (same j (omega arith))

module _ {W : Type 0} {os : Os W} {file : ℕ → List ℕ} (b : Behaves os file) where
  -- A file has been opened, and the output is as it was.
  abbrev pub Opened : W → List ℕ → Buffer → W → Type 0
  Opened w xs buf w' = (b.unread w' ≡ xs) × (b.at w' ≡ b.at w) × (b.out w' ≡ b.out w)

  opened-Returns : (i : ℕ) (buf : Buffer) (w : W) → Returns (Opened w (file i)) (opened os i buf w)
  unfolding Returns opened
  opened-Returns i buf w = let law = b.open_file i w in rw law.0 (law.1, law.2, law.3)

  header-Returns :
      (buf : Buffer) (w : W) (r : Option (List ℕ) × W)
      → IsBootFile (b.unread w)
      → r ≡ os.read 32 w
      → Returns (Opened w (drop 32 (b.unread w))) (header os buf r)
  unfolding Returns header
  header-Returns buf w (none, w') h e = absurd (ground (arith, ap (λ r. r.0) e, (b.read 32 w).0))
  header-Returns buf w (some xs, w') h e =
      let law = b.read 32 w in
      let ys : xs ≡ take 32 (b.unread w) = ground (arith, ap (λ r. r.0) e, law.0) in
      let full : length xs ≡ 32 =
        ap length ys ∙ length-take 32 (b.unread w) (omega (arith, h.length_544)) in
      let same : (i : ℕ) → i < 32 → put_bytes 0 xs buf i ≡ at_or (take 32 (b.unread w)) i =
        λ i lt. put_bytes-get_or i xs buf (omega (arith, full)) ∙ ap (λ xs. get_or xs i 0) ys in
      let ok : not (length xs == 32) ≡ false = ground (arith, full) in
      let magic = is_hdr-ext (put_bytes 0 xs buf) (at_or (take 32 (b.unread w))) same ∙ h.magic in
      let zeroed : (i : ℕ)
          → i < 8
          → lb i (at_or (take 32 (b.unread w))) ≡ 0
          → (lb i (put_bytes 0 xs buf) == 0) ≡ true =
        λ i lt z.
          ground (arith, lb-ext i (put_bytes 0 xs buf) (at_or (take 32 (b.unread w))) lt same, z) in
      let to : w' ≡ (os.read 32 w).1 = ap (λ r. r.1) e in
      rw
        (
          ok,
          magic,
          zeroed 5 (omega arith) h.no_entry,
          zeroed 3 (omega arith) h.no_data,
          zeroed 4 (omega arith) h.no_bss,
          zeroed 7 (omega arith) h.no_symbols,
        )
        (ap b.unread to ∙ law.1, ap b.at to ∙ law.2, ap b.out to ∙ law.3)

  pub minix_open-Returns :
      (i : ℕ) (buf : Buffer) (w : W)
      → IsBootFile (file i)
      → Returns (Opened w (drop 32 (file i))) (minix_open os i buf w)
  unfolding minix_open
  minix_open-Returns i buf w h =
      Returns-and_then (Opened w (file i)) (Opened w (drop 32 (file i))) (opened os i buf w)
        (λ b w. header os b (os.read 32 w)) (opened-Returns i buf w)
        λ c w' p.
          Returns-weaken (Opened w' (drop 32 (b.unread w'))) (Opened w (drop 32 (file i)))
            (header os c (os.read 32 w'))
            (header-Returns c w' (os.read 32 w') (subst IsBootFile (sym p.0) h) refl)
            (λ d w'' q. (q.0 ∙ ap (drop 32) p.0, q.1 ∙ p.1, q.2 ∙ p.2))

  pub sector-Returns :
      (xs : List ℕ) (buf : Buffer) (w : W) (r : Option (List ℕ) × W)
      → IsBootFile xs
      → b.unread w ≡ drop 32 xs
      → r ≡ os.read buf_size w
      → Returns
          (λ c w'.
            (b.out w' ≡ put_bytes (b.at w) (written_sector xs) (b.out w))
            × (b.at w' ≡ b.at w + 512))
          (sector os buf r)
  unfolding sector
  sector-Returns xs buf w (none, w') h u e =
      absurd (ground (arith, ap (λ r. r.0) e, (b.read buf_size w).0))
  sector-Returns xs buf w (some ys, w') h u e =
      let law = b.read buf_size w in
      let len : length (drop 32 xs) ≡ 512 = omega (arith, length-drop 32 xs, h.length_544) in
      let is : ys ≡ drop 32 xs =
        ground (arith, ap (λ r. r.0) e, law.0)
        ∙ take_all buf_size (b.unread w) (omega (arith, ap length u, len))
        ∙ u in
      let full : length ys ≡ 512 = ap length is ∙ len in
      let same : (i : ℕ) → i < 512 → put_bytes 0 ys buf i ≡ at_or (drop 32 xs) i =
        λ i lt. put_bytes-get_or i ys buf (omega (arith, full)) ∙ ap (λ xs. get_or xs i 0) is in
      let ok : not (length ys == 512) ≡ false = ground (arith, full) in
      let flag : (not (put_bytes 0 ys buf 510 == 0x55) || not (put_bytes 0 ys buf 511 == 0xAA))
          ≡ false =
        flag_ok _ _ (same 510 (omega arith) ∙ h.flag.0) (same 511 (omega arith) ∙ h.flag.1) in
      let to : w' ≡ (os.read buf_size w).1 = ap (λ r. r.1) e in
      let c = update (update (put_bytes 0 ys buf) 508 0) 509 0 in
      let bytes : get_bytes 512 0 c ≡ written_sector xs =
        written_sector-eq xs (put_bytes 0 ys buf) same in
      rw (ok, flag, bytes)
        (Returns-weaken (Wrote b w' (written_sector xs) (b.unread w'))
          (λ c w'.
            (b.out w' ≡ put_bytes (b.at w) (written_sector xs) (b.out w))
            × (b.at w' ≡ b.at w + 512))
          (wrote write_failed c 512 (os.write (written_sector xs) w'))
          (wrote-Returns_at b write_failed 512 (written_sector xs) c w' (length-written_sector xs))
          (λ d w'' p. (
            p.0
                ∙ ap (λ a. put_bytes a (written_sector xs) (b.out w')) (ap b.at to ∙ law.2)
                ∙ ap (put_bytes (b.at w) (written_sector xs)) (ap b.out to ∙ law.3),
            p.1
                ∙ ap (λ n. b.at w' + n) (length-written_sector xs)
                ∙ ap (λ a. a + 512) (ap b.at to ∙ law.2),
          )))
