-- ===== src/Mm/Paging/Entry.antt =====
-- The words that the functions of mm.c leave in the tables.
use so.Common.{
  ℕ, ◌+◌, ◌-◌, ◌*◌, ◌%◌, ◌^◌, ◌≤◌, ◌<◌, ◌≡◌, ◌≢◌, refl, arith, ltb, ◌==◌, ◌&&◌, if◌then◌else◌,
  for_range, for_range_inv,
}
use so.Mm.Frames.{total_pages, num_pag_kernel}
use so.Mm.Paging.{
  Entries, nr_tasks, set_ss_pag, del_ss_pag, get_frame, get_pt, poke, pbase_addr, clear,
  init_dir_pages, dir_entry, init_table_pages, table_pages, kernel_entry,
}

-- The word of a page that the user may write: the frame above the bits present, rw and user.
abbrev pub user_rw : ℕ → ℕ
user_rw frame = frame % 2 ^ 20 * 2 ^ 12 + 7

-- `set_ss_pag` maps one page, for the user to read and write, and changes no other entry.
pub set_ss_pag_lem :
    (pt page frame : ℕ) (es : Entries) (t q : ℕ)
    → set_ss_pag pt page frame es t q ≡ (if (t == pt) && (q == page) then user_rw frame else es t q)
unfolding set_ss_pag
set_ss_pag_lem pt page frame es t q = ground arith

-- The frame that has been mapped is the frame that is found, for a frame number of 20 bits, and
-- `del_ss_pag` undoes the mapping.
pub get_frame-set_ss_pag :
    (pt page frame : ℕ) (es : Entries) (t q : ℕ)
    → frame < 2 ^ 20
    → (get_frame pt page (set_ss_pag pt page frame es) ≡ frame)
      × (del_ss_pag pt page (set_ss_pag pt page frame es) t q ≡ del_ss_pag pt page es t q)
unfolding get_frame del_ss_pag
get_frame-set_ss_pag pt page frame es t q h = (
  ground (arith, set_ss_pag_lem pt page frame es pt page),
  ground (arith, set_ss_pag_lem pt page frame es t q),
)

-- After `init_dir_pages` the directory of each task leads to the table of that task.
pub get_pt-init_dir_pages :
    (dir_pages pagusr_table i : ℕ) (es : Entries)
    → pagusr_table % 4096 ≡ 0
    → pagusr_table + 4096 * nr_tasks ≤ 2 ^ 32
    → i < nr_tasks
    → get_pt (dir_pages + 4096 * i) (init_dir_pages dir_pages pagusr_table es)
      ≡ pagusr_table + 4096 * i
unfolding init_dir_pages get_pt
get_pt-init_dir_pages dir_pages pagusr_table i es aligned fits lt =
    for_range_inv
      (λ j c.
        (i : ℕ)
        → i < j
        → pbase_addr (c (dir_pages + 4096 * i) 0) * 2 ^ 12 ≡ pagusr_table + 4096 * i)
      (dir_entry dir_pages pagusr_table) nr_tasks 0 nr_tasks es (omega arith)
      (λ k c lo hi h i less. ground (arith, h i)) (λ i h. absurd (omega arith)) i lt

-- What a table holds at first: page `q` of the kernel is mapped to the frame of its own number, for
-- the kernel to read and write, and page 0 and all other pages are not present.
abbrev pub kernel_word : ℕ → ℕ
kernel_word q = if ltb 0 q && ltb q num_pag_kernel then q * 2 ^ 12 + 3 else 0

clear_lem :
    (table n : ℕ) (es : Entries) (t q : ℕ)
    → for_range n 0 (λ i. poke table i clear) es t q
      ≡ (if (t == table) && ltb q n then 0 else es t q)
clear_lem table n es t q =
    for_range_inv (λ j c. (q : ℕ) → c t q ≡ (if (t == table) && ltb q j then 0 else es t q))
      (λ i. poke table i clear) n 0 n es (omega arith) (λ k c lo hi h q. ground (arith, h q))
      (λ q. ground arith) q

table_pages_lem :
    (table : ℕ) (es : Entries) (t q : ℕ)
    → table_pages table es t q
      ≡ (if (t == table) && ltb q total_pages then kernel_word q else es t q)
unfolding table_pages
table_pages_lem table es t q = ground (
  arith,
  for_range_inv
      (λ j c.
        (q : ℕ)
        → c t q ≡ (if (t == table) && (ltb 0 q && ltb q j) then q * 2 ^ 12 + 3 else cleared t q))
      (kernel_entry table) (num_pag_kernel - 1) 1 num_pag_kernel cleared (omega arith)
      (λ k c lo hi h q. ground (arith, h q, clear_lem table total_pages es t q)) (λ q. ground arith)
      q,
  clear_lem table total_pages es t q,
)
  where
    cleared : Entries
    cleared = for_range total_pages 0 (λ i. poke table i clear) es

-- After `init_table_pages` every task has the kernel's pages and no other ones.
pub init_table_pages_lem :
    (pagusr_table : ℕ) (es : Entries) (i q : ℕ)
    → i < nr_tasks
    → q < total_pages
    → init_table_pages pagusr_table es (pagusr_table + 4096 * i) q ≡ kernel_word q
unfolding init_table_pages
init_table_pages_lem pagusr_table es i q lt small =
    for_range_inv (λ j c. (i : ℕ) → i < j → c (pagusr_table + 4096 * i) q ≡ kernel_word q)
      (λ j. table_pages (pagusr_table + 4096 * j)) nr_tasks 0 nr_tasks es (omega arith)
      (λ k c lo hi h i less.
        ground
          (arith, h i, table_pages_lem (pagusr_table + 4096 * k) c (pagusr_table + 4096 * i) q))
      (λ i h. absurd (omega arith)) i lt

-- `init_dir_pages` changes directories only.
pub init_dir_pages-other :
    (dir_pages pagusr_table t q : ℕ) (es : Entries)
    → ((i : ℕ) → i < nr_tasks → t ≢ dir_pages + 4096 * i)
    → init_dir_pages dir_pages pagusr_table es t q ≡ es t q
unfolding init_dir_pages
init_dir_pages-other dir_pages pagusr_table t q es out =
    for_range_inv (λ j c. c t q ≡ es t q) (dir_entry dir_pages pagusr_table) nr_tasks 0 nr_tasks es
      (omega arith) (λ k c lo hi h. ground (arith, h, out k hi)) refl
