-- ===== src/Sys/Sharing.antt =====
-- The loop of `sys_fork` on the pages of code, on tables that are isolated.
use so.Common.{
  ℕ, ◌+◌, ◌*◌, ◌<◌, ◌≡◌, ◌≢◌, arith, true, ltb, ◌==◌, ◌&&◌, ◌||◌, leb, if◌then◌else◌, for_range,
  for_range_inv, refl, ap, ◌∙◌,
}
use so.Mm.Paging.{
  Memory, nr_tasks, num_pag_data, num_pag_code, pag_log_init_data, pag_log_init_code, data_frame,
  poke,
}
use so.Mm.Isolation.{IsIsolated, code_frame}
use so.Sys.{share_code}

pub share_code-entries :
    (ptn ptc : ℕ) (m : Memory) (t q : ℕ)
    → ptn ≢ ptc
    → (share_code ptn ptc m).entries t q ≡ (
        if (t == ptn) && (leb pag_log_init_code q && ltb q (pag_log_init_code + num_pag_code))
        then m.entries ptc q
        else m.entries t q)
unfolding share_code
share_code-entries ptn ptc m t q other =
    for_range_inv
      (λ k c.
        (t q : ℕ)
        → c.entries t q ≡ (
            if (t == ptn) && (leb pag_log_init_code q && ltb q (pag_log_init_code + k))
            then m.entries ptc q
            else m.entries t q))
      (λ pag m. record m {
        entries =
            poke ptn (pag_log_init_code + pag) (λ e. m.entries ptc (pag_log_init_code + pag))
              m.entries;
      })
      num_pag_code 0 num_pag_code m (omega arith)
      (λ k c lo hi h t q. ground (arith, h t q, h ptc (pag_log_init_code + k)))
      (λ t q. ground arith) t q

share_code-frames : (ptn ptc : ℕ) (m : Memory) → (share_code ptn ptc m).frames ≡ m.frames
unfolding share_code for_range
share_code-frames ptn ptc m = refl

module _ {tables c p : ℕ} (child : c < nr_tasks) (parent : p < nr_tasks) (other : c ≢ p)
    {m : Memory} (s : IsIsolated tables m) where
  abbrev pub shared : Memory
  shared = share_code (tables + 4096 * c) (tables + 4096 * p) m

  -- The task whose code a task has.
  abbrev source : ℕ → ℕ
  source i = if i == c then p else i

  shared-code :
      (i j : ℕ)
      → j < num_pag_code
      → shared.entries (tables + 4096 * i) (pag_log_init_code + j)
        ≡ m.entries (tables + 4096 * source i) (pag_log_init_code + j)
  shared-code i j lj = ground (
    arith,
    share_code-entries (tables + 4096 * c) (tables + 4096 * p) m (tables + 4096 * i)
        (pag_log_init_code + j),
  )

  shared-other :
      (i q : ℕ)
      → ltb q pag_log_init_code || leb (pag_log_init_code + num_pag_code) q ≡ true
      → shared.entries (tables + 4096 * i) q ≡ m.entries (tables + 4096 * i) q
  shared-other i q o =
      ground
        (arith, share_code-entries (tables + 4096 * c) (tables + 4096 * p) m (tables + 4096 * i) q)

  source-lt : (i : ℕ) → i < nr_tasks → source i < nr_tasks
  source-lt i li = ground arith

  shared-data :
      (i j : ℕ)
      → j < num_pag_data
      → shared.entries (tables + 4096 * i) (pag_log_init_data + j)
        ≡ m.entries (tables + 4096 * i) (pag_log_init_data + j)
  shared-data i j lj = shared-other i (pag_log_init_data + j) (ground arith)

  shared-frames : (f : ℕ) → shared.frames f ≡ m.frames f
  shared-frames f = ap (λ g. g f) (share_code-frames (tables + 4096 * c) (tables + 4096 * p) m)

  pub shared-IsIsolated : IsIsolated tables shared
  shared-IsIsolated = record {
    kernel = λ f lo. rw (shared-frames f) (s.kernel f lo);
    data_busy = λ i j li lj.
        rw (shared-data i j lj, shared-frames (data_frame (tables + 4096 * i) m j))
          (s.data_busy i j li lj);
    code_busy = λ i j li lj.
        rw (shared-code i j lj, shared-frames (code_frame (tables + 4096 * source i) m j))
          (s.code_busy (source i) j (source-lt i li) lj);
    data_word = λ i j li lj. rw (shared-data i j lj) (s.data_word i j li lj);
    code_word = λ i j li lj. rw (shared-code i j lj) (s.code_word (source i) j (source-lt i li) lj);
    fixed = λ i q li lq o. shared-other i q (ground arith) ∙ s.fixed i q li lq o;
    apart = λ i j i' j' li lj li' lj'.
        rw (shared-data i j lj, shared-data i' j' lj') (s.apart i j i' j' li lj li' lj');
    code_apart = λ i j i' j' li lj li' lj'.
        rw (shared-code i j lj, shared-data i' j' lj')
          (s.code_apart (source i) j i' j' (source-lt i li) lj li' lj');
  }
