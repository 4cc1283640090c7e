-- ===== src/Mm/Frames.antt =====
-- The map of physical frames of mm.c: `phys_mem` is a function from frames to bytes.
pub mod Alloc
pub mod Count
use so.Common.{ℕ, zero, suc, ◌+◌, Bool, ◌&&◌, update, ◌==◌, ltb, if◌then◌else◌, for_range, wneg}

abbrev pub total_pages : ℕ
total_pages = 1024

abbrev pub num_pag_kernel : ℕ
num_pag_kernel = 256

abbrev pub free_mark : ℕ
free_mark = 0

abbrev pub used_mark : ℕ
used_mark = 1

abbrev pub Frames : Type 0
Frames = ℕ → ℕ

unfoldable pub init_frames : Frames → Frames
init_frames m =
    let m' = for_range total_pages 0 (λ i m. update m i free_mark) m in
    for_range num_pag_kernel 0 (λ i m. update m i used_mark) m'

-- for (i = NUM_PAG_KERNEL; i < TOTAL_PAGES; i += 2) …: the result and the map.
unfoldable pub alloc_loop : ℕ → ℕ → Frames → ℕ × Frames
alloc_loop zero i m = (wneg 1, m)
alloc_loop (suc f) i m =
    let rest = alloc_loop f (i + 2) m in
    if ltb i total_pages
    then (if m i == free_mark then (i, update m i used_mark) else rest)
    else (wneg 1, m)

-- The counter takes 384 values below TOTAL_PAGES.
unfoldable pub alloc_frame : Frames → ℕ × Frames
alloc_frame m = alloc_loop 385 num_pag_kernel m

unfoldable pub free_frame : ℕ → Frames → Frames
free_frame frame m =
    if ltb num_pag_kernel frame && ltb frame total_pages then update m frame free_mark else m
