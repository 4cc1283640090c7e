-- ===== src/Sys/Reverted.antt =====
-- Tables on which the loop of `sys_fork` on the pages of data was undone for want of frames.
use so.Common.{
  ℕ, ◌+◌, ◌*◌, ◌<◌, ◌≡◌, ◌≢◌, inl, inr, arith, Bool-cases, ltb, ◌==◌, ◌&&◌, ◌⊎◌, refl, ◌∙◌,
}
use so.Mm.Frames.{free_mark}
use so.Mm.Paging.{
  Memory, nr_tasks, num_pag_data, num_pag_code, pag_log_init_data, pag_log_init_code, data_frame,
}
use so.Mm.Isolation.{IsIsolated, code_frame}
use so.Sys.Fork.{Undone}
use so.Sys.{temp_pag}

module _ {tables c p : ℕ} (child : c < nr_tasks) (parent : p < nr_tasks) (other : c ≢ p)
    {m : Memory} (s : IsIsolated tables m) where
  module _ {pag : ℕ} {m' : Memory} (some : pag < num_pag_data)
      (a : Undone (tables + 4096 * c) (tables + 4096 * p) pag m m') where
    Undone-busy : (f : ℕ) → m.frames f ≢ free_mark → m'.frames f ≢ free_mark
    Undone-busy f b = ground (arith, a.frames f)

    -- A page of data is gone, or is as it was.
    Undone-data :
        (i j : ℕ)
        → j < num_pag_data
        → let e = m'.entries (tables + 4096 * i) (pag_log_init_data + j) in
          (e ≡ 0) ⊎ (e ≡ m.entries (tables + 4096 * i) (pag_log_init_data + j))
    Undone-data i j lj = elim (Bool-cases ((i == c) && ltb j pag)) [
      | inl e ↦
          let here : i ≡ c = ground arith in
          inl (rw here (a.unmapped (pag_log_init_data + j) (ground arith)))
      | inr o ↦
          inr (a.entries (tables + 4096 * i) (pag_log_init_data + j) (ground arith) (ground arith))
    ]

    Undone-code :
        (i j : ℕ)
        → j < num_pag_code
        → m'.entries (tables + 4096 * i) (pag_log_init_code + j)
          ≡ m.entries (tables + 4096 * i) (pag_log_init_code + j)
    Undone-code i j lj =
        a.entries (tables + 4096 * i) (pag_log_init_code + j) (ground arith) (ground arith)

    pub Undone-IsIsolated : IsIsolated tables m'
    Undone-IsIsolated = record {
      kernel = λ f lo. Undone-busy f (s.kernel f lo);
      data_busy = λ i j li lj. elim (Undone-data i j lj) [
        | inl none ↦ rw none (Undone-busy 0 (s.kernel 0 (omega arith)))
        | inr same ↦
            rw same (Undone-busy (data_frame (tables + 4096 * i) m j) (s.data_busy i j li lj))
      ];
      code_busy = λ i j li lj.
          rw (Undone-code i j lj)
            (Undone-busy (code_frame (tables + 4096 * i) m j) (s.code_busy i j li lj));
      data_word = λ i j li lj. elim (Undone-data i j lj) [
        | inl none ↦ inl none
        | inr same ↦ rw same (s.data_word i j li lj)
      ];
      code_word = λ i j li lj. rw (Undone-code i j lj) (s.code_word i j li lj);
      fixed = λ i q li lq o. elim (Bool-cases ((i == p) && (q == temp_pag))) [
        | inl e ↦
            let here : i ≡ p = ground arith in
            let page : q ≡ temp_pag = ground arith in
            rw (here, page) (a.temp (s.fixed p temp_pag parent (omega arith) refl))
        | inr n ↦
            a.entries (tables + 4096 * i) q (ground arith) (ground arith) ∙ s.fixed i q li lq o
      ];
      apart = λ i j i' j' li lj li' lj' above same.
          ground
            (arith, Undone-data i j lj, Undone-data i' j' lj', s.apart i j i' j' li lj li' lj');
      code_apart = λ i j i' j' li lj li' lj' above.
          ground (
            arith,
            Undone-code i j lj,
            Undone-data i' j' lj',
            s.code_apart i j i' j' li lj li' lj',
          );
    }
