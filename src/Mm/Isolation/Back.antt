-- ===== src/Mm/Isolation/Back.antt =====
-- `free_user_pages` of mm.c: the pages of data of a process are given back.
use so.Common.{
  ℕ, ◌+◌, ◌*◌, ◌≤◌, ◌<◌, ◌≡◌, ◌≢◌, inl, inr, arith, sym, false, Bool-cases, ◌==◌, if◌then◌else◌,
}
use so.Mm.Frames.{num_pag_kernel, free_mark}
use so.Mm.Paging.{
  Memory, nr_tasks, num_pag_data, num_pag_code, pag_log_init_data, pag_log_init_code, data_frame,
}
use so.Mm.Paging.User.{Freed, maps, maps_cases}
use so.Mm.Isolation.{IsIsolated, code_frame}

module _ {tables i : ℕ} {m m' : Memory} (lt : i < nr_tasks) (s : IsIsolated tables m)
    (f : Freed (tables + 4096 * i) num_pag_data m m') where
  -- Frames in use that the process does not own stay in use.
  still :
      (p : ℕ)
      → m.frames p ≢ free_mark
      → ((j : ℕ) → j < num_pag_data → num_pag_kernel ≤ p → data_frame (tables + 4096 * i) m j ≢ p)
      → m'.frames p ≢ free_mark
  still p b out = elim (Bool-cases (maps (tables + 4096 * i) num_pag_data m.entries p)) [
    | inl e ↦
        let (j, lj, hit) = maps_cases (tables + 4096 * i) num_pag_data m.entries p e in
        ground (arith, f.frames p, out j lj)
    | inr o ↦ ground (arith, f.frames p)
  ]

  code_entry :
      (i' j' : ℕ)
      → j' < num_pag_code
      → m'.entries (tables + 4096 * i') (pag_log_init_code + j')
        ≡ m.entries (tables + 4096 * i') (pag_log_init_code + j')
  code_entry i' j' lj = ground (arith, f.entries (tables + 4096 * i') (pag_log_init_code + j'))

  data_entry :
      (i' j' : ℕ)
      → (i' == i) ≡ false
      → m'.entries (tables + 4096 * i') (pag_log_init_data + j')
        ≡ m.entries (tables + 4096 * i') (pag_log_init_data + j')
  data_entry i' j' o = ground (arith, f.entries (tables + 4096 * i') (pag_log_init_data + j'))

  data_at :
      (i' j' : ℕ)
      → j' < num_pag_data
      → data_frame (tables + 4096 * i') m' j'
        ≡ (if i' == i then 0 else data_frame (tables + 4096 * i') m j')
  data_at i' j' lj = ground (arith, f.entries (tables + 4096 * i') (pag_log_init_data + j'))

  still_data :
      (i' j' : ℕ)
      → i' < nr_tasks
      → j' < num_pag_data
      → (i' == i) ≡ false
      → m'.frames (data_frame (tables + 4096 * i') m j') ≢ free_mark
  still_data i' j' li lj o =
      still (data_frame (tables + 4096 * i') m j') (s.data_busy i' j' li lj)
        (λ j lj' above e. ground (arith, s.apart i' j' i j li lj lt lj' above (sym e)))

  -- Giving back the pages of data of one task leaves all tables isolated.
  pub Freed-IsIsolated : IsIsolated tables m'
  Freed-IsIsolated = record {
    kernel = λ p lo. still p (s.kernel p lo) (λ j lj above. absurd (omega arith));
    data_busy = λ i' j' li lj. ground (
      arith,
      data_at i' j' lj,
      still 0 (s.kernel 0 (omega arith)) (λ j lj above. absurd (omega arith)),
      still_data i' j' li lj,
    );
    code_busy = λ i' j' li lj. rw (code_entry i' j' lj) (
        still (code_frame (tables + 4096 * i') m j') (s.code_busy i' j' li lj)
          (λ j lj' above e. s.code_apart i' j' i j li lj lt lj' above (sym e)));
    data_word = λ i' j' li lj. elim (Bool-cases (i' == i)) [
      | inl e ↦ inl (ground (arith, f.entries (tables + 4096 * i') (pag_log_init_data + j')))
      | inr o ↦ rw (data_entry i' j' o) (s.data_word i' j' li lj)
    ];
    code_word = λ i' j' li lj. rw (code_entry i' j' lj) (s.code_word i' j' li lj);
    fixed = λ i' q li lq o. ground (arith, f.entries (tables + 4096 * i') q, s.fixed i' q li lq o);
    apart = λ i₁ j₁ i₂ j₂ a b c d above same. ground (
      arith,
      f.entries (tables + 4096 * i₁) (pag_log_init_data + j₁),
      f.entries (tables + 4096 * i₂) (pag_log_init_data + j₂),
      s.apart i₁ j₁ i₂ j₂ a b c d,
    );
    code_apart = λ i₁ j₁ i₂ j₂ a b c d above. ground (
      arith,
      f.entries (tables + 4096 * i₁) (pag_log_init_code + j₁),
      f.entries (tables + 4096 * i₂) (pag_log_init_data + j₂),
      s.code_apart i₁ j₁ i₂ j₂ a b c d,
    );
  }
