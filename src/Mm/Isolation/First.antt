-- ===== src/Mm/Isolation/First.antt =====
-- `set_user_pages` of mm.c: the first process gets its pages.
use so.Common.{
  ℕ, ◌+◌, ◌*◌, refl, ◌≤◌, ◌<◌, ◌≡◌, inl, inr, Bool, true, false, arith, ◌==◌, ◌&&◌, if◌then◌else◌,
  for_range_inv,
}
use so.Mm.Frames.{alloc_frame}
use so.Mm.Frames.Alloc.{Found, alloc_frame_cases}
use so.Mm.Frames.Count.{free_count, Found-free_count, Exhausted-free_count}
use so.Mm.Paging.{
  Memory, nr_tasks, num_pag_code, num_pag_data, pag_log_init_code, pag_log_init_data, code_page,
  data_page, get_pt, set_user_pages,
}
use so.Mm.Paging.Entry.{user_rw, set_ss_pag_lem}
use so.Mm.Isolation.{can_read, can_write, IsIsolated, user_ro}
use so.Mm.Isolation.Pages.{Mapped, Mapped-IsIsolated}

abbrev is_at : ℕ → ℕ → ℕ → ℕ → Bool
is_at i j i' j' = (i' == i) && (j' == j)

abbrev nowhere : ℕ → ℕ → Bool
nowhere i j = false

-- While a frame is free `alloc_frame` finds one.
some_frame :
    (m : Memory)
    → 0 < free_count m.frames
    → Found m.frames (alloc_frame m.frames).0 (alloc_frame m.frames).1
some_frame m more = elim (alloc_frame_cases m.frames) [
  | inl found ↦ found
  | inr ex ↦ absurd (ground (arith, Exhausted-free_count m.frames ex))
]

module _ (tables i : ℕ) where
  code_page-entries :
      (j : ℕ) (m : Memory) (t q : ℕ)
      → (code_page (tables + 4096 * i) j m).entries t q ≡ (
          if (t == tables + 4096 * i) && (q == pag_log_init_code + j)
          then user_ro (alloc_frame m.frames).0
          else m.entries t q)
  unfolding code_page
  code_page-entries j m t q = ground arith

  data_page-entries :
      (j : ℕ) (m : Memory) (t q : ℕ)
      → (data_page (tables + 4096 * i) j m).entries t q ≡ (
          if (t == tables + 4096 * i) && (q == pag_log_init_data + j)
          then user_rw (alloc_frame m.frames).0
          else m.entries t q)
  unfolding data_page
  data_page-entries j m t q =
      set_ss_pag_lem (tables + 4096 * i) (pag_log_init_data + j) (alloc_frame m.frames).0 m.entries
        t q

  code_page-Mapped :
      (j : ℕ) (m : Memory)
      → j < num_pag_code
      → 0 < free_count m.frames
      → Mapped tables nowhere
          (is_at i j)
          (alloc_frame m.frames).0
          m
          (code_page (tables + 4096 * i) j m)
  code_page-Mapped j m lt more = record {
    found = unfold code_page in some_frame m more;
    data_entry = λ i' j' lj.
        ground (arith, code_page-entries j m (tables + 4096 * i') (pag_log_init_data + j'));
    code_entry = λ i' j' lj.
        ground (arith, code_page-entries j m (tables + 4096 * i') (pag_log_init_code + j'));
    fixed = λ i' q f. ground (arith, code_page-entries j m (tables + 4096 * i') q);
    one = λ i₁ j₁ i₂ j₂ a b. ground arith;
    either = λ i₁ j₁ i₂ j₂ a. ground arith;
  }

  data_page-Mapped :
      (j : ℕ) (m : Memory)
      → j < num_pag_data
      → 0 < free_count m.frames
      → Mapped tables
          (is_at i j)
          nowhere
          (alloc_frame m.frames).0
          m
          (data_page (tables + 4096 * i) j m)
  data_page-Mapped j m lt more = record {
    found = unfold data_page in some_frame m more;
    data_entry = λ i' j' lj.
        ground (arith, data_page-entries j m (tables + 4096 * i') (pag_log_init_data + j'));
    code_entry = λ i' j' lj.
        ground (arith, data_page-entries j m (tables + 4096 * i') (pag_log_init_code + j'));
    fixed = λ i' q f. ground (arith, data_page-entries j m (tables + 4096 * i') q);
    one = λ i₁ j₁ i₂ j₂ a b. ground arith;
    either = λ i₁ j₁ i₂ j₂ a. ground arith;
  }

  code_page-free_count :
      (j : ℕ) (m : Memory)
      → 0 < free_count m.frames
      → free_count m.frames ≡ free_count (code_page (tables + 4096 * i) j m).frames + 1
  unfolding code_page
  code_page-free_count j m more = Found-free_count m.frames (some_frame m more)

  data_page-free_count :
      (j : ℕ) (m : Memory)
      → 0 < free_count m.frames
      → free_count m.frames ≡ free_count (data_page (tables + 4096 * i) j m).frames + 1
  unfolding data_page
  data_page-free_count j m more = Found-free_count m.frames (some_frame m more)

-- `cs` pages of code and `ds` pages of data have been mapped.
pub record Given (tables i cs ds : ℕ) (m m' : Memory) : Type 0 where
  pub isolated : IsIsolated tables m'
  pub count : free_count m'.frames + cs + ds ≡ free_count m.frames
  pub code_pages :
      (j : ℕ) → j < cs → can_read (m'.entries (tables + 4096 * i) (pag_log_init_code + j)) ≡ true
  pub data_pages :
      (j : ℕ) → j < ds → can_write (m'.entries (tables + 4096 * i) (pag_log_init_data + j)) ≡ true
  pub directories : (t : ℕ) → m'.entries t 0 ≡ m.entries t 0

module _ (tables i : ℕ) (lt : i < nr_tasks) {m : Memory} where
  code_page-Given :
      (cs : ℕ) (m' : Memory)
      → cs < num_pag_code
      → cs < free_count m.frames
      → Given tables i cs 0 m m'
      → Given tables i (cs + 1) 0 m (code_page (tables + 4096 * i) cs m')
  code_page-Given cs m' small more g =
      let c = code_page-Mapped tables i cs m' small (omega (arith, g.count)) in
      record {
        isolated = Mapped-IsIsolated c g.isolated;
        count =
            omega (arith, g.count, code_page-free_count tables i cs m' (omega (arith, g.count)));
        code_pages = λ j lj. ground (
          arith,
          code_page-entries tables i cs m' (tables + 4096 * i) (pag_log_init_code + j),
          g.code_pages j,
        );
        data_pages = λ j h. elim h [ ];
        directories = λ t. ground (arith, code_page-entries tables i cs m' t 0, g.directories t);
      }

  data_page-Given :
      (ds : ℕ) (m' : Memory)
      → ds < num_pag_data
      → ds + num_pag_code < free_count m.frames
      → Given tables i num_pag_code ds m m'
      → Given tables i num_pag_code (ds + 1) m (data_page (tables + 4096 * i) ds m')
  data_page-Given ds m' small more g =
      let c = data_page-Mapped tables i ds m' small (omega (arith, g.count)) in
      record {
        isolated = Mapped-IsIsolated c g.isolated;
        count =
            omega (arith, g.count, data_page-free_count tables i ds m' (omega (arith, g.count)));
        code_pages = λ j lj. ground (
          arith,
          data_page-entries tables i ds m' (tables + 4096 * i) (pag_log_init_code + j),
          g.code_pages j,
        );
        data_pages = λ j lj. ground (
          arith,
          data_page-entries tables i ds m' (tables + 4096 * i) (pag_log_init_data + j),
          g.data_pages j,
        );
        directories = λ t. ground (arith, data_page-entries tables i ds m' t 0, g.directories t);
      }

  -- In tables that are isolated, with 28 free frames, `set_user_pages` gives a task 8 pages of code
  -- that it can read and 20 pages of data that it can write, each in a frame of its own, takes 28
  -- frames, and leaves the tables isolated and all directories alone.
  pub set_user_pages-Given :
      (dir : ℕ)
      → get_pt dir m.entries ≡ tables + 4096 * i
      → IsIsolated tables m
      → num_pag_code + num_pag_data ≤ free_count m.frames
      → Given tables i num_pag_code num_pag_data m (set_user_pages dir m)
  unfolding set_user_pages
  set_user_pages-Given dir leads s more = rw leads (
      for_range_inv (λ ds. Given tables i num_pag_code ds m) (data_page (tables + 4096 * i))
        num_pag_data 0 num_pag_data _ (omega arith)
        (λ ds m' lo hi. data_page-Given ds m' hi (omega arith))
        (for_range_inv (λ cs. Given tables i cs 0 m) (code_page (tables + 4096 * i)) num_pag_code 0
          num_pag_code m (omega arith) (λ cs m' lo hi. code_page-Given cs m' hi (omega arith))
          (record {
            isolated = s;
            count = omega arith;
            code_pages = λ j h. elim h [ ];
            data_pages = λ j h. elim h [ ];
            directories = λ t. refl;
          })))
