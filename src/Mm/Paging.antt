-- ===== src/Mm/Paging.antt =====
-- The page tables of mm.c. A `page_table_entry` is its 32-bit word, and a table is named by its
-- address: `entries table page` is the word of entry `page` of the table at `table`.
pub mod Entry
pub mod User
use so.Common.{ℕ, ◌+◌, ◌-◌, ◌*◌, ◌/◌, ◌%◌, ◌^◌, update, for_range, ◌==◌, ◌&&◌, if◌then◌else◌}
use so.Mm.Frames.{Frames, total_pages, num_pag_kernel, alloc_frame, free_frame}

abbrev pub Entries : Type 0
Entries = ℕ → ℕ → ℕ

-- Physical memory: which frames are in use, the tables, and the bytes of each frame.
pub record Memory : Type 0 where
  pub frames : Frames
  pub entries : Entries
  pub pages : ℕ → ℕ → ℕ

abbrev pub nr_tasks : ℕ
nr_tasks = 10

abbrev pub num_pag_code : ℕ
num_pag_code = 8

abbrev pub num_pag_data : ℕ
num_pag_data = 20

abbrev pub pag_log_init_data : ℕ
pag_log_init_data = 0x100000 / 2 ^ 12

abbrev pub pag_log_init_code : ℕ
pag_log_init_code = pag_log_init_data + num_pag_data

-- The bit fields: present is bit 0, rw bit 1, user bit 2, pbase_addr the bits from 12 on.
abbrev pub pbase_addr : ℕ → ℕ
pbase_addr e = e / 2 ^ 12 % 2 ^ 20

abbrev set_pbase_addr : ℕ → ℕ → ℕ
set_pbase_addr v e = v % 2 ^ 20 * 2 ^ 12 + e % 2 ^ 12

abbrev set_present : ℕ → ℕ
set_present e = e / 2 * 2 + 1

abbrev set_rw : ℕ → ℕ
set_rw e = e / 4 * 4 + 2 + e % 2

abbrev set_user : ℕ → ℕ
set_user e = e / 8 * 8 + 4 + e % 4

-- `table[page]` is changed by `f`.
abbrev pub poke : ℕ → ℕ → (ℕ → ℕ) → Entries → Entries
poke table page f es t q = if (t == table) && (q == page) then f (es t q) else es t q

-- entry = 0
abbrev pub clear : ℕ → ℕ
clear e = 0

unfoldable pub set_ss_pag : ℕ → ℕ → ℕ → Entries → Entries
set_ss_pag pt page frame es = poke pt page set_present (
    poke pt page set_rw
      (poke pt page set_user (poke pt page (set_pbase_addr frame) (poke pt page clear es))))

unfoldable pub del_ss_pag : ℕ → ℕ → Entries → Entries
del_ss_pag pt logical_page es = poke pt logical_page clear es

unfoldable pub get_frame : ℕ → ℕ → Entries → ℕ
get_frame pt logical_page es = pbase_addr (es pt logical_page)

-- `get_PT`: the table that the first entry of a directory leads to.
unfoldable pub get_pt : ℕ → Entries → ℕ
get_pt dir es = pbase_addr (es dir 0) * 2 ^ 12

-- `dir_pages` and `pagusr_table` are the addresses of the arrays, a table takes 4096 bytes.
dir_entry : ℕ → ℕ → ℕ → Entries → Entries
dir_entry dir_pages pagusr_table i es =
    let d = dir_pages + 4096 * i in
    poke d 0 set_present (
      poke d 0 set_rw (
        poke d 0 set_user
          (poke d 0 (set_pbase_addr ((pagusr_table + 4096 * i) / 2 ^ 12)) (poke d 0 clear es))))

unfoldable pub init_dir_pages : ℕ → ℕ → Entries → Entries
unfolding dir_entry
init_dir_pages dir_pages pagusr_table es =
    for_range nr_tasks 0 (dir_entry dir_pages pagusr_table) es

kernel_entry : ℕ → ℕ → Entries → Entries
kernel_entry table i es =
    poke table i set_present (poke table i set_rw (poke table i (set_pbase_addr i) es))

table_pages : ℕ → Entries → Entries
unfolding kernel_entry
table_pages table es =
    for_range (num_pag_kernel - 1) 1 (kernel_entry table)
      (for_range total_pages 0 (λ i. poke table i clear) es)

unfoldable pub init_table_pages : ℕ → Entries → Entries
unfolding table_pages
init_table_pages pagusr_table es =
    for_range nr_tasks 0 (λ j. table_pages (pagusr_table + 4096 * j)) es

-- A page of code of the first process: it can be read by the user.
unfoldable pub code_page : ℕ → ℕ → Memory → Memory
code_page pt pag m =
    let (frame, frames) = alloc_frame m.frames in
    let page = pag_log_init_code + pag in
    record m {
      frames = frames;
      entries = poke pt page set_present (
          poke pt page set_user
            (poke pt page (set_pbase_addr frame) (poke pt page clear m.entries)));
    }

-- A page of data: it can be written too.
unfoldable pub data_page : ℕ → ℕ → Memory → Memory
data_page pt pag m =
    let (frame, frames) = alloc_frame m.frames in
    record m { frames = frames; entries = set_ss_pag pt (pag_log_init_data + pag) frame m.entries }

-- The argument is the directory of the task.
unfoldable pub set_user_pages : ℕ → Memory → Memory
unfolding code_page data_page
set_user_pages dir m =
    let pt = get_pt dir m.entries in
    for_range num_pag_data 0 (data_page pt) (for_range num_pag_code 0 (code_page pt) m)

pub free_data_page : ℕ → ℕ → Memory → Memory
free_data_page pt pag m = record m {
  frames = free_frame (get_frame pt (pag_log_init_data + pag) m.entries) m.frames;
  entries = del_ss_pag pt (pag_log_init_data + pag) m.entries;
}

unfoldable pub free_user_pages : ℕ → Memory → Memory
free_user_pages dir m =
    let pt = get_pt dir m.entries in for_range num_pag_data 0 (free_data_page pt) m

-- The frame of page `j` of the data of the table.
abbrev pub data_frame : ℕ → Memory → ℕ → ℕ
data_frame pt m j = pbase_addr (m.entries pt (pag_log_init_data + j))
