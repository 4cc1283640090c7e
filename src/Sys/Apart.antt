-- ===== src/Sys/Apart.antt =====
-- Tables on which the loop of `sys_fork` on the pages of data has come to its end.
use so.Common.{
  ℕ, ◌+◌, ◌*◌, ◌≤◌, ◌<◌, ◌≡◌, ◌≢◌, inl, inr, arith, sym, true, false, Bool-cases, ◌==◌, ◌&&◌, refl,
  ap, ◌∙◌,
}
use mathlib.Core.Path.{subst}
use so.Mm.Frames.{num_pag_kernel, free_mark}
use so.Mm.Paging.{
  Memory, nr_tasks, num_pag_data, num_pag_code, pag_log_init_data, pag_log_init_code, data_frame,
  pbase_addr,
}
use so.Mm.Paging.User.{maps_of}
use so.Mm.Isolation.{IsIsolated, code_frame}
use so.Sys.Copied.{Copied}
use so.Sys.{temp_pag}

module _ {tables c p : ℕ} (child : c < nr_tasks) (parent : p < nr_tasks) (other : c ≢ p)
    {m : Memory} (s : IsIsolated tables m) where
  module _ {m' : Memory}
      (a : Copied (tables + 4096 * c) (tables + 4096 * p) num_pag_data m m') where
    Copied-busy : (f : ℕ) → m.frames f ≢ free_mark → m'.frames f ≢ free_mark
    Copied-busy f b = ground (arith, a.frames f)

    Copied-marked :
        (j : ℕ) → j < num_pag_data → m'.frames (data_frame (tables + 4096 * c) m' j) ≢ free_mark
    Copied-marked j lj = ground (
      arith,
      a.frames (data_frame (tables + 4096 * c) m' j),
      maps_of (tables + 4096 * c) num_pag_data m'.entries j lj,
    )

    Copied-data :
        (i j : ℕ)
        → (i == c) ≡ false
        → j < num_pag_data
        → m'.entries (tables + 4096 * i) (pag_log_init_data + j)
          ≡ m.entries (tables + 4096 * i) (pag_log_init_data + j)
    Copied-data i j o lj =
        a.entries (tables + 4096 * i) (pag_log_init_data + j) (ground arith) (ground arith)

    Copied-code :
        (i j : ℕ)
        → j < num_pag_code
        → m'.entries (tables + 4096 * i) (pag_log_init_code + j)
          ≡ m.entries (tables + 4096 * i) (pag_log_init_code + j)
    Copied-code i j lj =
        a.entries (tables + 4096 * i) (pag_log_init_code + j) (ground arith) (ground arith)

    -- No page of the child is in a frame that was in use.
    Copied-new :
        (j f : ℕ)
        → j < num_pag_data
        → m.frames f ≢ free_mark
        → data_frame (tables + 4096 * c) m' j ≢ f
    Copied-new j f lj b e = b (subst (λ f. m.frames f ≡ free_mark) e (a.was_free j lj))

    Copied-old :
        (i j : ℕ)
        → (i == c) ≡ false
        → j < num_pag_data
        → data_frame (tables + 4096 * i) m' j ≡ data_frame (tables + 4096 * i) m j
    Copied-old i j o lj = ap pbase_addr (Copied-data i j o lj)

    -- A frame of the child is no frame of another task.
    Copied-other :
        (i j i' j' : ℕ)
        → (i == c) ≡ true
        → (i' == c) ≡ false
        → i' < nr_tasks
        → j < num_pag_data
        → j' < num_pag_data
        → data_frame (tables + 4096 * i) m' j ≢ data_frame (tables + 4096 * i') m' j'
    Copied-other i j i' j' e o li' lj lj' same =
        let here : i ≡ c = ground arith in
        Copied-new j (data_frame (tables + 4096 * i') m j') lj (s.data_busy i' j' li' lj') (
          subst (λ x. data_frame (tables + 4096 * x) m' j ≡ data_frame (tables + 4096 * i') m' j')
            here same
          ∙ Copied-old i' j' o lj')

    Copied-apart :
        (i j i' j' : ℕ)
        → i < nr_tasks
        → j < num_pag_data
        → i' < nr_tasks
        → j' < num_pag_data
        → num_pag_kernel ≤ data_frame (tables + 4096 * i) m' j
        → data_frame (tables + 4096 * i) m' j ≡ data_frame (tables + 4096 * i') m' j'
        → (i ≡ i') × (j ≡ j')
    Copied-apart i j i' j' li lj li' lj' above same = elim (Bool-cases (i == c)) [
      | inl e ↦ elim (Bool-cases (i' == c)) [
        | inl e' ↦
            let here : i ≡ c = ground arith in
            let here' : i' ≡ c = ground arith in
            (
              here ∙ sym here',
              a.own j j' lj lj' (
                  ap (λ x. data_frame (tables + 4096 * x) m' j) (sym here)
                  ∙ same
                  ∙ ap (λ x. data_frame (tables + 4096 * x) m' j') here'),
            )
        | inr o' ↦ absurd (Copied-other i j i' j' e o' li' lj lj' same)
      ]
      | inr o ↦ elim (Bool-cases (i' == c)) [
        | inl e' ↦ absurd (Copied-other i' j' i j e' o li lj' lj (sym same))
        | inr o' ↦
            s.apart i j i' j' li lj li' lj' (rw (← Copied-old i j o lj) above)
              (sym (Copied-old i j o lj) ∙ same ∙ Copied-old i' j' o' lj')
      ]
    ]

    pub Copied-IsIsolated : IsIsolated tables m'
    Copied-IsIsolated = record {
      kernel = λ f lo. Copied-busy f (s.kernel f lo);
      data_busy = λ i j li lj. elim (Bool-cases (i == c)) [
        | inl e ↦ let here : i ≡ c = ground arith in rw here (Copied-marked j lj)
        | inr o ↦
            rw (Copied-data i j o lj)
              (Copied-busy (data_frame (tables + 4096 * i) m j) (s.data_busy i j li lj))
      ];
      code_busy = λ i j li lj.
          rw (Copied-code i j lj)
            (Copied-busy (code_frame (tables + 4096 * i) m j) (s.code_busy i j li lj));
      data_word = λ i j li lj. elim (Bool-cases (i == c)) [
        | inl e ↦
            let here : i ≡ c = ground arith in inr (rw here (a.candidate j lj, a.writable j lj))
        | inr o ↦ rw (Copied-data i j o lj) (s.data_word i j li lj)
      ];
      code_word = λ i j li lj. rw (Copied-code i j lj) (s.code_word i j li lj);
      fixed = λ i q li lq o. elim (Bool-cases ((i == p) && (q == temp_pag))) [
        | inl e ↦
            let here : i ≡ p = ground arith in
            let page : q ≡ temp_pag = ground arith in
            rw (here, page) (a.temp (s.fixed p temp_pag parent (omega arith) refl))
        | inr n ↦
            a.entries (tables + 4096 * i) q (ground arith) (ground arith) ∙ s.fixed i q li lq o
      ];
      apart = Copied-apart;
      code_apart = λ i j i' j' li lj li' lj' above. elim (Bool-cases (i' == c)) [
        | inl e ↦
            let here : i' ≡ c = ground arith in
            rw (here, Copied-code i j lj)
              (λ same.
                Copied-new j' (code_frame (tables + 4096 * i) m j) lj' (s.code_busy i j li lj)
                  (sym same))
        | inr o ↦
            rw (Copied-code i j lj, Copied-data i' j' o lj')
              (s.code_apart i j i' j' li lj li' lj' (rw (← Copied-code i j lj) above))
      ];
    }
