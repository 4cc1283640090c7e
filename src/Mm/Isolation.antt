-- ===== src/Mm/Isolation.antt =====
-- Whose frames are whose: what the tables of all tasks promise together.
pub mod Pages
pub mod First
pub mod Blank
pub mod Back
use so.Common.{
  ℕ, ◌+◌, ◌*◌, ◌/◌, ◌%◌, ◌^◌, ◌<◌, ◌≤◌, ◌≡◌, ◌≢◌, ◌⊎◌, inl, inr, arith, ltb, ◌==◌, ◌&&◌, ◌||◌, ap,
  sym, ◌-◌, if◌then◌else◌, Bool, Bool-cases, leb, true, false,
}
use so.Mm.Frames.{num_pag_kernel, total_pages, free_mark}
use so.Mm.Frames.Alloc.{IsCandidate}
use so.Mm.Paging.{
  Memory, nr_tasks, num_pag_code, num_pag_data, pag_log_init_code, pag_log_init_data, get_pt,
  pbase_addr, data_frame,
}
use so.Mm.Paging.Entry.{user_rw, kernel_word}

-- The word of a page that the user may only read.
abbrev pub user_ro : ℕ → ℕ
user_ro frame = frame % 2 ^ 20 * 2 ^ 12 + 5

-- The frame of page `j` of the code of the table.
abbrev pub code_frame : ℕ → Memory → ℕ → ℕ
code_frame pt m j = pbase_addr (m.entries pt (pag_log_init_code + j))

-- Neither a page of code nor one of data.
abbrev pub is_fixed : ℕ → Bool
is_fixed q = ltb q pag_log_init_data || leb (pag_log_init_code + num_pag_code) q

-- No page, or a page in a frame that `alloc_frame` may have found.
abbrev pub IsAbsentOr : (ℕ → ℕ) → ℕ → Type 0
IsAbsentOr word e = (e ≡ 0) ⊎ (IsCandidate (pbase_addr e) × (e ≡ word (pbase_addr e)))

-- The array of tables starts at `tables`. No page is in a frame that is free; pages of data are
-- writable, each in a frame of its own, or absent; pages of code are read-only or absent; all other
-- pages are the kernel's, in the frames of their own numbers.
pub record IsIsolated (tables : ℕ) (m : Memory) : Type 0 where
  pub kernel : (p : ℕ) → p < num_pag_kernel → m.frames p ≢ free_mark
  pub data_busy :
      (i j : ℕ)
      → i < nr_tasks
      → j < num_pag_data
      → m.frames (data_frame (tables + 4096 * i) m j) ≢ free_mark
  pub code_busy :
      (i j : ℕ)
      → i < nr_tasks
      → j < num_pag_code
      → m.frames (code_frame (tables + 4096 * i) m j) ≢ free_mark
  pub data_word :
      (i j : ℕ)
      → i < nr_tasks
      → j < num_pag_data
      → IsAbsentOr user_rw (m.entries (tables + 4096 * i) (pag_log_init_data + j))
  pub code_word :
      (i j : ℕ)
      → i < nr_tasks
      → j < num_pag_code
      → IsAbsentOr user_ro (m.entries (tables + 4096 * i) (pag_log_init_code + j))
  pub fixed :
      (i q : ℕ)
      → i < nr_tasks
      → q < total_pages
      → is_fixed q ≡ true
      → m.entries (tables + 4096 * i) q ≡ kernel_word q
  pub apart :
      (i j i' j' : ℕ)
      → i < nr_tasks
      → j < num_pag_data
      → i' < nr_tasks
      → j' < num_pag_data
      → num_pag_kernel ≤ data_frame (tables + 4096 * i) m j
      → data_frame (tables + 4096 * i) m j ≡ data_frame (tables + 4096 * i') m j'
      → (i ≡ i') × (j ≡ j')
  pub code_apart :
      (i j i' j' : ℕ)
      → i < nr_tasks
      → j < num_pag_code
      → i' < nr_tasks
      → j' < num_pag_data
      → num_pag_kernel ≤ code_frame (tables + 4096 * i) m j
      → code_frame (tables + 4096 * i) m j ≢ data_frame (tables + 4096 * i') m j'

-- The bits present and user, and present, user and rw.
abbrev pub can_read : ℕ → Bool
can_read e = (e % 2 == 1) && (e / 4 % 2 == 1)

abbrev pub can_write : ℕ → Bool
can_write e = can_read e && (e / 2 % 2 == 1)

-- A page that the user can reach is a page of code or of data.
data Reached (tables : ℕ) (m : Memory) (i q : ℕ) : Type 0 where
  in_data :
      (j : ℕ)
      → j < num_pag_data
      → q ≡ pag_log_init_data + j
      → num_pag_kernel ≤ data_frame (tables + 4096 * i) m j
      → Reached tables m i q
  in_code :
      (j : ℕ)
      → j < num_pag_code
      → q ≡ pag_log_init_code + j
      → num_pag_kernel ≤ code_frame (tables + 4096 * i) m j
      → can_write (m.entries (tables + 4096 * i) q) ≡ false
      → Reached tables m i q

can_read-IsCandidate :
    (word : ℕ → ℕ) {e : ℕ} → IsAbsentOr word e → can_read e ≡ true → IsCandidate (pbase_addr e)
can_read-IsCandidate word (inl none) r = absurd (ground arith)
can_read-IsCandidate word (inr some) r = some.0

word-read_only : {e : ℕ} → IsAbsentOr user_ro e → can_write e ≡ false
word-read_only (inl none) = ground arith
word-read_only (inr some) = ground (arith, some.1)

module _ {tables : ℕ} {m : Memory} (s : IsIsolated tables m) where
  can_read-Reached :
      (i q : ℕ)
      → i < nr_tasks
      → q < total_pages
      → can_read (m.entries (tables + 4096 * i) q) ≡ true
      → Reached tables m i q
  can_read-Reached i q lt small r = elim (Bool-cases (is_fixed q)) [
    | inl f ↦ absurd (ground (arith, s.fixed i q lt small f))
    | inr u ↦ elim (Bool-cases (ltb q pag_log_init_code)) [
      | inl d ↦
          let j = q - pag_log_init_data in
          let e : q ≡ pag_log_init_data + j = ground arith in
          in_data j (ground arith) e (
            IsCandidate.user (
              can_read-IsCandidate user_rw (s.data_word i j lt (ground arith))
                (rw (← ap (m.entries (tables + 4096 * i)) e) r)))
      | inr c ↦
          let j = q - pag_log_init_code in
          let e : q ≡ pag_log_init_code + j = ground arith in
          let same = ap (m.entries (tables + 4096 * i)) e in
          in_code j (ground arith) e
            (IsCandidate.user
              (can_read-IsCandidate user_ro (s.code_word i j lt (ground arith)) (rw (← same) r)))
            (rw same (word-read_only (s.code_word i j lt (ground arith))))
    ]
  ]

  -- In tables that are isolated, the user reaches only frames above the kernel's that are in use,
  -- and no task can read what another task can write.
  pub can_write-apart :
      (i q i' q' : ℕ)
      → i < nr_tasks
      → q < total_pages
      → i' < nr_tasks
      → q' < total_pages
      → i ≢ i'
      → can_write (m.entries (tables + 4096 * i) q) ≡ true
      → can_read (m.entries (tables + 4096 * i') q') ≡ true
      → pbase_addr (m.entries (tables + 4096 * i) q)
        ≢ pbase_addr (m.entries (tables + 4096 * i') q')
  can_write-apart i q i' q' lt small lt' small' ne w r =
      elim (can_read-Reached i q lt small (ground arith)) [
        | in_data j d e above ↦ elim (can_read-Reached i' q' lt' small' r) [
          | in_data j' d' e' above' ↦
              rw (e, e') (λ same. ne (s.apart i j i' j' lt d lt' d' above same).0)
          | in_code j' d' e' above' ro ↦
              rw (e, e') (λ same. s.code_apart i' j' i j lt' d' lt d above' (sym same))
        ]
        | in_code j d e above ro ↦ absurd (ground arith)
      ]

  -- What a task can reach is in use, and above the kernel.
  pub can_read-above :
      (i q : ℕ)
      → i < nr_tasks
      → q < total_pages
      → can_read (m.entries (tables + 4096 * i) q) ≡ true
      → let frame = pbase_addr (m.entries (tables + 4096 * i) q) in
        (num_pag_kernel ≤ frame) × (m.frames frame ≢ free_mark)
  can_read-above i q lt small r = elim (can_read-Reached i q lt small r) [
    | in_data j d e above ↦ rw e (above, s.data_busy i j lt d)
    | in_code j d e above ro ↦ rw e (above, s.code_busy i j lt d)
  ]
