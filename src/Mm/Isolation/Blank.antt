-- ===== src/Mm/Isolation/Blank.antt =====
-- The tables before there is a process.
use so.Common.{◌⊎◌, ℕ, ◌+◌, ◌*◌, ◌≤◌, ◌<◌, ◌≡◌, inl, arith, ◌∙◌}
use so.Mm.Frames.{init_frames, total_pages}
use so.Mm.Frames.Count.{init_frames_lem}
use so.Mm.Paging.{
  Memory, nr_tasks, init_dir_pages, init_table_pages, pag_log_init_data, pag_log_init_code,
}
use so.Mm.Paging.Entry.{init_dir_pages-other, init_table_pages_lem, kernel_word}
use so.Mm.Isolation.{IsIsolated}

module _ (dirs tables : ℕ)
    (apart : (dirs + 4096 * nr_tasks ≤ tables) ⊎ (tables + 4096 * nr_tasks ≤ dirs))
    (m : Memory) where
  -- Memory after the three loops of `init_mm`.
  abbrev pub blank : Memory
  blank = record m {
    frames = init_frames m.frames;
    entries = init_dir_pages dirs tables (init_table_pages tables m.entries);
  }

  blank-word :
      (i q : ℕ)
      → i < nr_tasks
      → q < total_pages
      → blank.entries (tables + 4096 * i) q ≡ kernel_word q
  blank-word i q lt small =
      init_dir_pages-other dirs tables (tables + 4096 * i) q (init_table_pages tables m.entries)
        (λ k lo. ground arith)
      ∙ init_table_pages_lem tables m.entries i q lt small

  -- The loops of `init_mm` leave the tables isolated and 384 frames free.
  pub blank-IsIsolated : IsIsolated tables blank
  blank-IsIsolated = record {
    kernel = λ p lo. ground (arith, init_frames_lem m.frames p);
    data_busy = λ i j li lj.
        ground (arith, init_frames_lem m.frames 0, blank-word i (pag_log_init_data + j) li);
    code_busy = λ i j li lj.
        ground (arith, init_frames_lem m.frames 0, blank-word i (pag_log_init_code + j) li);
    data_word = λ i j li lj. inl (ground (arith, blank-word i (pag_log_init_data + j) li));
    code_word = λ i j li lj. inl (ground (arith, blank-word i (pag_log_init_code + j) li));
    fixed = λ i q li lq f. blank-word i q li lq;
    apart = λ i j i' j' li lj li' lj' above same.
        absurd (ground (arith, blank-word i (pag_log_init_data + j) li));
    code_apart = λ i j i' j' li lj li' lj' above.
        absurd (ground (arith, blank-word i (pag_log_init_code + j) li));
  }
