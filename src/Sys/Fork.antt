-- ===== src/Sys/Fork.antt =====
-- The memory of a child: the loop of `sys_fork` on the pages of data.
use so.Common.{
  ℕ, zero, suc, ◌+◌, ◌≤◌, ◌<◌, ◌≡◌, refl, ◌≢◌, ◌⊎◌, inl, inr, true, false, ◌&&◌, Bool-cases, arith,
  ◌==◌, wneg, for_range, ap, sym,
}
use mathlib.Core.Path.{subst}
use so.Mm.Frames.{num_pag_kernel, free_mark, used_mark, alloc_frame}
use so.Mm.Frames.Alloc.{alloc_frame_cases}
use so.Mm.Frames.Count.{free_count, Found-free_count, Exhausted-free_count}
use so.Mm.Paging.{Memory, num_pag_data, free_data_page, data_frame}
use so.Mm.Paging.User.{maps, maps_cases, Freed, free_data_pages-Freed}
use so.Sys.Copied.{Copied, is_data, fork_page-Copied}
use so.Sys.{fork_page, fork_data, temp_pag, Forked, copied, no_frame}

-- What is left when the frames run out: no page of data, every frame as it was but for the first
-- one above the kernel's, which may stay marked, and the bytes of all frames that were in use.
pub record Undone (ptn ptc pag : ℕ) (m m' : Memory) : Type 0 where
  pub unmapped : (q : ℕ) → is_data pag q ≡ true → m'.entries ptn q ≡ 0
  pub frames :
      (p : ℕ) → (m'.frames p ≡ m.frames p) ⊎ ((p ≡ num_pag_kernel) × (m'.frames p ≡ used_mark))
  pub kept : (p : ℕ) → m.frames p ≢ free_mark → m'.pages p ≡ m.pages p
  pub entries :
      (t q : ℕ)
      → ((t == ptn) && is_data pag q) ≡ false
      → ((t == ptc) && (q == temp_pag)) ≡ false
      → m'.entries t q ≡ m.entries t q
  pub temp : m.entries ptc temp_pag ≡ 0 → m'.entries ptc temp_pag ≡ 0

undo-Undone :
    (ptn ptc pag : ℕ) (m m' m'' : Memory)
    → Copied ptn ptc pag m m'
    → Freed ptn pag m' m''
    → Undone ptn ptc pag m m''
undo-Undone ptn ptc pag m m' m'' c f = record {
  unmapped = λ q i. ground (arith, f.entries ptn q);
  frames = λ p. elim (Bool-cases (maps ptn pag m'.entries p)) [
    | inl i ↦
        let (j, lt, e) = maps_cases ptn pag m'.entries p i in
        ground (
          arith,
          f.frames p,
          c.frames p,
          (c.candidate j lt).user,
          (c.candidate j lt).present,
          c.was_free j lt,
        )
    | inr o ↦ ground (arith, f.frames p, c.frames p)
  ];
  kept = λ p h. ground (arith, f.pages, c.kept p h);
  entries = λ t q a b. ground (arith, f.entries t q, c.entries t q);
  temp = λ h. ground (arith, f.entries ptc temp_pag, c.temp h);
}

-- The two ends of the loop.
pub data Ends (ptn ptc : ℕ) (m : Memory) : Forked → Type 0 where
  all_copied :
      (m' : Memory)
      → num_pag_data ≤ free_count m.frames
      → Copied ptn ptc num_pag_data m m'
      → Ends ptn ptc m (copied m')
  out_of_frames :
      (pag : ℕ) (m' : Memory)
      → free_count m.frames < num_pag_data
      → pag < num_pag_data
      → Undone ptn ptc pag m m'
      → Ends ptn ptc m (no_frame pag m')

module _ (ptn ptc : ℕ) (other : ptn ≢ ptc) (m : Memory)
    (busy : (j : ℕ) → j < num_pag_data → m.frames (data_frame ptc m j) ≢ free_mark) where
  fork_data-Ends_from :
      (n pag : ℕ) (m' : Memory)
      → n + pag ≡ num_pag_data
      → Copied ptn ptc pag m m'
      → Ends ptn ptc m (fork_data ptn ptc n pag m')
  unfolding fork_data
  fork_data-Ends_from zero pag m' e c =
      let full : pag ≡ num_pag_data = omega arith in
      all_copied m' (omega (arith, c.count)) (subst (λ x. Copied ptn ptc x m m') full c)
  fork_data-Ends_from (suc n) pag m' e c = elim (alloc_frame_cases m'.frames) [
    | inl found ↦
        let ok : ((alloc_frame m'.frames).0 == wneg 1) ≡ false =
          ground (arith, found.candidate.present) in
        rw ok (
          fork_data-Ends_from n (pag + 1)
            (fork_page ptn ptc pag (alloc_frame m'.frames).0
              (record m' { frames = (alloc_frame m'.frames).1 }))
            (omega arith)
            (fork_page-Copied ptn ptc other (omega arith) c busy (alloc_frame m'.frames).0
              (alloc_frame m'.frames).1 found (Found-free_count m'.frames found)))
    | inr ex ↦
        let failed : ((alloc_frame m'.frames).0 == wneg 1) ≡ true = ground (arith, ex.minus_one) in
        let m₁ = record m' { frames = (alloc_frame m'.frames).1 } in
        let same : m₁ ≡ m' = ap (λ f. record m' { frames = f }) ex.unchanged in
        rw failed (
          out_of_frames pag (for_range pag 0 (free_data_page ptn) m₁)
            (omega (arith, c.count, Exhausted-free_count m'.frames ex)) (omega arith)
            (undo-Undone ptn ptc pag m m₁ _ (subst (Copied ptn ptc pag m) (sym same) c)
              (free_data_pages-Freed ptn pag m₁)))
  ]

  Copied-zero : Copied ptn ptc 0 m m
  Copied-zero = record {
    candidate = λ j h. elim h [ ];
    was_free = λ j h. elim h [ ];
    writable = λ j h. elim h [ ];
    bytes = λ j h. elim h [ ];
    own = λ i j h. elim h [ ];
    frames = λ p. unfold maps in refl;
    kept = λ p h. refl;
    entries = λ t q a b. refl;
    temp = λ h. h;
    count = omega arith;
  }

  -- The loop of `sys_fork` on the pages of data, for two different tables and a parent whose pages
  -- stand in frames that are in use. If there are 20 free frames, each page of the child gets one
  -- of its own, with the bytes of the parent's page, and no frame in use changes its bytes. If
  -- there are fewer, the loop fails and all is undone, but that the first frame above the kernel's
  -- may stay marked.
  pub fork_data-Ends : Ends ptn ptc m (fork_data ptn ptc num_pag_data 0 m)
  fork_data-Ends = fork_data-Ends_from num_pag_data 0 m refl Copied-zero
