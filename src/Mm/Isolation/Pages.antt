-- ===== src/Mm/Isolation/Pages.antt =====
-- A page is mapped to a frame that was free.
use so.Common.{
  ℕ, ◌+◌, ◌*◌, ◌/◌, ◌%◌, ◌^◌, refl, ◌<◌, ◌≡◌, ◌≢◌, inl, inr, ap, Bool, true, false, arith,
  if◌then◌else◌, Bool-cases,
}
use so.Mm.Frames.{free_mark}
use so.Mm.Frames.Alloc.{Found}
use so.Mm.Paging.{
  Memory, nr_tasks, num_pag_code, num_pag_data, pag_log_init_code, pag_log_init_data, data_frame,
}
use so.Mm.Paging.Entry.{user_rw}
use so.Mm.Isolation.{IsIsolated, IsAbsentOr, user_ro, code_frame, is_fixed}

-- One page of data or one of code is mapped to a frame that was free.
pub record Mapped (tables : ℕ) (new_data new_code : ℕ → ℕ → Bool) (frame : ℕ) (m m' : Memory)
    : Type 0 where
  pub found : Found m.frames frame m'.frames
  pub data_entry :
      (i j : ℕ)
      → j < num_pag_data
      → m'.entries (tables + 4096 * i) (pag_log_init_data + j) ≡ (
          if new_data i j
          then user_rw frame
          else m.entries (tables + 4096 * i) (pag_log_init_data + j))
  pub code_entry :
      (i j : ℕ)
      → j < num_pag_code
      → m'.entries (tables + 4096 * i) (pag_log_init_code + j) ≡ (
          if new_code i j
          then user_ro frame
          else m.entries (tables + 4096 * i) (pag_log_init_code + j))
  pub fixed :
      (i q : ℕ)
      → is_fixed q ≡ true
      → m'.entries (tables + 4096 * i) q ≡ m.entries (tables + 4096 * i) q
  pub one : (i j i' j' : ℕ) → new_data i j ≡ true → new_data i' j' ≡ true → (i ≡ i') × (j ≡ j')
  pub either : (i j i' j' : ℕ) → new_data i j ≡ true → new_code i' j' ≡ false

module _ {tables : ℕ} {new_data new_code : ℕ → ℕ → Bool} {frame : ℕ} {m m' : Memory}
    (c : Mapped tables new_data new_code frame m m') (s : IsIsolated tables m) where
  busy : (p : ℕ) → m.frames p ≢ free_mark → m'.frames p ≢ free_mark
  busy p b = ground (arith, ap (λ f. f p) c.found.marked)

  marked : m'.frames frame ≢ free_mark
  marked = ground (arith, ap (λ f. f frame) c.found.marked)

  data_at :
      (i j : ℕ)
      → j < num_pag_data
      → data_frame (tables + 4096 * i) m' j
        ≡ (if new_data i j then frame else data_frame (tables + 4096 * i) m j)
  data_at i j lt = ground (arith, c.data_entry i j lt, c.found.candidate.present)

  code_at :
      (i j : ℕ)
      → j < num_pag_code
      → code_frame (tables + 4096 * i) m' j
        ≡ (if new_code i j then frame else code_frame (tables + 4096 * i) m j)
  code_at i j lt = ground (arith, c.code_entry i j lt, c.found.candidate.present)

  data_other :
      (i j : ℕ) → i < nr_tasks → j < num_pag_data → data_frame (tables + 4096 * i) m j ≢ frame
  data_other i j li lj e = s.data_busy i j li lj (rw e c.found.was_free)

  code_other :
      (i j : ℕ) → i < nr_tasks → j < num_pag_code → code_frame (tables + 4096 * i) m j ≢ frame
  code_other i j li lj e = s.code_busy i j li lj (rw e c.found.was_free)

  new_word : IsAbsentOr user_rw (user_rw frame) × IsAbsentOr user_ro (user_ro frame)
  new_word =
      let at : user_rw frame / 2 ^ 12 % 2 ^ 20 ≡ frame =
        ground (arith, c.found.candidate.present) in
      let at' : user_ro frame / 2 ^ 12 % 2 ^ 20 ≡ frame =
        ground (arith, c.found.candidate.present) in
      (inr (rw at (c.found.candidate, refl)), inr (rw at' (c.found.candidate, refl)))

  pub Mapped-IsIsolated : IsIsolated tables m'
  Mapped-IsIsolated = record {
    kernel = λ p lo. busy p (s.kernel p lo);
    data_busy = λ i j li lj. ground (
      arith,
      data_at i j lj,
      marked,
      busy (data_frame (tables + 4096 * i) m j),
      s.data_busy i j li lj,
    );
    code_busy = λ i j li lj. ground (
      arith,
      code_at i j lj,
      marked,
      busy (code_frame (tables + 4096 * i) m j),
      s.code_busy i j li lj,
    );
    data_word = λ i j li lj. elim (Bool-cases (new_data i j)) [
      | inl e ↦ rw (c.data_entry i j lj, e) new_word.0
      | inr o ↦ rw (c.data_entry i j lj, o) (s.data_word i j li lj)
    ];
    code_word = λ i j li lj. elim (Bool-cases (new_code i j)) [
      | inl e ↦ rw (c.code_entry i j lj, e) new_word.1
      | inr o ↦ rw (c.code_entry i j lj, o) (s.code_word i j li lj)
    ];
    fixed = λ i q li lq f. ground (arith, c.fixed i q f, s.fixed i q li lq f);
    apart = λ i j i' j' li lj li' lj' above same. ground (
      arith,
      data_at i j lj,
      data_at i' j' lj',
      c.one i j i' j',
      data_other i j li lj,
      data_other i' j' li' lj',
      s.apart i j i' j' li lj li' lj',
    );
    code_apart = λ i j i' j' li lj li' lj' above. ground (
      arith,
      code_at i j lj,
      data_at i' j' lj',
      c.either i' j' i j,
      code_other i j li lj,
      data_other i' j' li' lj',
      s.code_apart i j i' j' li lj li' lj',
    );
  }
