-- ===== src/Build.antt =====
-- build.c: the tool that puts the boot sector, the kernel and the user's program into one image.
-- The calls of the operating system are arguments; the messages on stderr are not modelled.
pub mod Calls
pub mod Bytes
pub mod Chunks
pub mod Boot
pub mod Files
pub mod Image
pub mod Contents
use so.Common.{
  ℕ, zero, suc, ◌+◌, ◌-◌, ◌*◌, ◌/◌, ◌%◌, ◌^◌, Bool, true, false, not, ◌&&◌, ◌||◌, List, [], ◌∷◌,
  Option, none, some, length, update, ◌==◌, ltb, if◌then◌else◌,
}

-- Why the tool dies.
pub data Failure : Type 0 where
  unable_to_open unable_to_read_header non_minix illegal_data illegal_bss illegal_symbols : Failure
  bad_length no_boot_flag write_failed unable_to_stat read_error unexpected_eof seek_failed :
      Failure

-- What a part of the tool leads to, with the state `W` of the operating system.
pub data Run (W : Type 0) (A : Type 0) : Type 0 where
  died : Failure → W → Run W A
  returned : A → W → Run W A

-- The system calls, for the three files of the command line and for stdout; `none` is a negative
-- result.
pub record Os (W : Type 0) : Type 0 where
  pub open_file : ℕ → W → Bool × W
  pub read : ℕ → W → Option (List ℕ) × W
  pub write : List ℕ → W → Option ℕ × W
  pub file_size : W → Option ℕ
  pub seek : ℕ → W → Option ℕ × W
  pub close : W → W

-- `buf`, a store of 1024 bytes.
abbrev pub Buffer : Type 0
Buffer = ℕ → ℕ

-- The bytes of a read, from the start of the buffer on.
unfoldable pub put_bytes : ℕ → List ℕ → Buffer → Buffer
put_bytes i [] buf = buf
put_bytes i (x ∷ xs) buf = put_bytes (i + 1) xs (update buf i x)

-- The `n` bytes from `i` on.
unfoldable pub get_bytes : ℕ → ℕ → Buffer → List ℕ
get_bytes zero i buf = []
get_bytes (suc n) i buf = buf i ∷ get_bytes n (i + 1) buf

-- lb[i]
abbrev pub lb : ℕ → Buffer → ℕ
lb i buf =
    buf (4 * i) + buf (4 * i + 1) * 2 ^ 8 + buf (4 * i + 2) * 2 ^ 16 + buf (4 * i + 3) * 2 ^ 24

-- memcmp(buf, hdr, sizeof(hdr)), as a test.
abbrev pub is_hdr : Buffer → Bool
is_hdr buf =
    (buf 0 == 0x01)
    && ((buf 1 == 0x03)
        && ((buf 2 == 0x10)
            && ((buf 3 == 0x04)
                && ((buf 4 == 0x20) && ((buf 5 == 0) && ((buf 6 == 0) && (buf 7 == 0)))))))

-- The loops have `sz` rounds at most.
abbrev pub buf_size : ℕ
buf_size = 1024

-- Three bytes of a size, and a zero.
abbrev pub size_bytes : ℕ → List ℕ
size_bytes n = n % 2 ^ 8 ∷ n / 2 ^ 8 % 2 ^ 8 ∷ n / 2 ^ 16 % 2 ^ 8 ∷ 0 ∷ []

abbrev pub length_bytes : ℕ → List ℕ
length_bytes n = n % 2 ^ 8 ∷ n / 2 ^ 8 % 2 ^ 8 ∷ []

module _ {W : Type 0} where
  unfoldable pub and_then : {A B : Type 0} → Run W A → (A → W → Run W B) → Run W B
  and_then (died why w) next = died why w
  and_then (returned a w) next = next a w

  -- A result of write that is not the length asked for.
  unfoldable pub wrote : Failure → Buffer → ℕ → Option ℕ × W → Run W Buffer
  wrote why buf n (none, w) = died why w
  wrote why buf n (some m, w) = if m == n then returned buf w else died why w

module _ {W : Type 0} (os : Os W) where
  unfoldable pub opened : ℕ → Buffer → W → Run W Buffer
  opened i buf w =
      let r = os.open_file i w in if r.0 then returned buf r.1 else died unable_to_open r.1

  -- A header of 32 bytes.
  unfoldable pub header : Buffer → Option (List ℕ) × W → Run W Buffer
  unfolding put_bytes
  header buf (none, w) = died unable_to_read_header w
  header buf (some xs, w) =
      let b = put_bytes 0 xs buf in
      if not (length xs == 32)
      then died unable_to_read_header w
      else if not (is_hdr b) || not (lb 5 b == 0)
      then died non_minix w
      else if not (lb 3 b == 0)
      then died illegal_data w
      else if not (lb 4 b == 0)
      then died illegal_bss w
      else if not (lb 7 b == 0)
      then died illegal_symbols w
      else returned b w

  unfoldable pub minix_open : ℕ → Buffer → W → Run W Buffer
  unfolding opened header
  minix_open i buf w = and_then (opened i buf w) λ b w. header b (os.read 32 w)

  -- The boot sector, with no root device.
  unfoldable pub sector : Buffer → Option (List ℕ) × W → Run W Buffer
  unfolding put_bytes wrote get_bytes
  sector buf (none, w) = died bad_length w
  sector buf (some xs, w) =
      let b = put_bytes 0 xs buf in
      let b' = update (update b 508 0) 509 0 in
      if not (length xs == 512)
      then died bad_length w
      else if not (b 510 == 0x55) || not (b 511 == 0xAA)
      then died no_boot_flag w
      else wrote write_failed b' 512 (os.write (get_bytes 512 0 b') w)

  -- One round of the loop on a file: what has been read is written.
  unfoldable pub chunk : ℕ → Buffer → Option (List ℕ) × W → Run W Buffer
  unfolding put_bytes wrote get_bytes
  chunk n buf (none, w) = died read_error w
  chunk n buf (some xs, w) =
      let b = put_bytes 0 xs buf in
      if not (length xs == n)
      then died unexpected_eof w
      else wrote write_failed b n (os.write (get_bytes n 0 b) w)

  unfoldable pub copy_loop : ℕ → ℕ → Buffer → W → Run W Buffer
  unfolding chunk and_then
  copy_loop zero sz buf w = returned buf w
  copy_loop (suc f) sz buf w =
      let n = if ltb buf_size sz then buf_size else sz in
      if sz == 0
      then returned buf w
      else and_then (chunk n buf (os.read n w)) λ b w. copy_loop f (sz - n) b w

  -- st_size
  unfoldable pub sized : W → Run W ℕ
  sized w = elim (os.file_size w) [ none ↦ died unable_to_stat w | some n ↦ returned n w ]

  -- A file of the image, and its size, an unsigned int.
  unfoldable pub copy_file : ℕ → Buffer → W → Run W (ℕ × Buffer)
  unfolding opened sized copy_loop and_then
  copy_file i buf w = and_then (opened i buf w) λ b w. and_then (sized w) λ n w.
      let sz = n % 2 ^ 32 in and_then (copy_loop sz sz b w) λ b w. returned (sz, b) (os.close w)

  -- The first `n` bytes of the buffer, once the output stands at the place.
  unfoldable pub sought : ℕ → ℕ → Buffer → Option ℕ × W → Run W Buffer
  unfolding get_bytes wrote
  sought at n buf (none, w) = died seek_failed w
  sought at n buf (some p, w) =
      if p == at
      then wrote write_failed buf n (os.write (get_bytes n 0 buf) w)
      else died seek_failed w

  -- Some bytes at a place of the image.
  unfoldable pub patch : ℕ → List ℕ → Buffer → W → Run W Buffer
  unfolding put_bytes sought
  patch at xs buf w = sought at (length xs) (put_bytes 0 xs buf) (os.seek at w)

  -- `main`, with all three arguments; the files are opened as 1, 2 and 3.
  unfoldable pub main : Buffer → W → Run W Buffer
  unfolding minix_open sector copy_file patch and_then
  main buf w = and_then (minix_open 1 buf w) λ b w. and_then (sector b (os.read buf_size w)) λ b w.
      and_then (copy_file 2 b (os.close w)) λ r w.
        let sys_size = r.0 in
        and_then (copy_file 3 r.1 w) λ r w.
          let usr_size = r.0 in
          let im_size = (sys_size + usr_size + 15) % 2 ^ 32 / 16 in
          and_then (patch 500 (length_bytes im_size) r.1 w) λ b w.
            and_then (patch 512 (size_bytes sys_size) b w) λ b w.
              and_then (patch 516 (size_bytes usr_size) b w)
                λ b w. patch 520 (size_bytes 0x7E6A) b w
