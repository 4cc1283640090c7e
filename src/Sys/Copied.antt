-- ===== src/Sys/Copied.antt =====
-- The pages of data of a child: one round of the loop of `sys_fork`.
use so.Common.{
  ℕ, ◌+◌, ◌<◌, ◌≡◌, refl, ◌≢◌, inl, inr, Bool, false, ◌&&◌, ◌||◌, Bool-cases, arith, update, ltb,
  leb, ◌==◌, if◌then◌else◌, ap, ◌∙◌,
}
use so.Mm.Frames.{Frames, total_pages, free_mark, used_mark}
use so.Mm.Frames.Alloc.{IsCandidate, Found}
use so.Mm.Frames.Count.{free_count}
use so.Mm.Paging.{
  Memory, get_frame, pbase_addr, num_pag_data, pag_log_init_data, del_ss_pag, set_ss_pag,
  data_frame,
}
use so.Mm.Paging.Entry.{user_rw, set_ss_pag_lem}
use so.Mm.Paging.User.{maps, maps_suc, maps_of, maps_ext}
use so.Sys.{fork_page, temp_pag}

-- Whether page `q` is one of the first `pag` pages of data.
abbrev pub is_data : ℕ → ℕ → Bool
is_data pag q = leb pag_log_init_data q && ltb q (pag_log_init_data + pag)

-- The child at `ptn` has a page of its own for each of the first `pag` pages of data of its parent
-- at `ptc`, with the same bytes, in a frame that was free; all other frames keep their bytes.
pub record Copied (ptn ptc pag : ℕ) (m m' : Memory) : Type 0 where
  pub candidate : (j : ℕ) → j < pag → IsCandidate (data_frame ptn m' j)
  pub was_free : (j : ℕ) → j < pag → m.frames (data_frame ptn m' j) ≡ free_mark
  pub writable :
      (j : ℕ) → j < pag → m'.entries ptn (pag_log_init_data + j) ≡ user_rw (data_frame ptn m' j)
  pub bytes : (j : ℕ) → j < pag → m'.pages (data_frame ptn m' j) ≡ m.pages (data_frame ptc m j)
  pub own : (i j : ℕ) → i < pag → j < pag → data_frame ptn m' i ≡ data_frame ptn m' j → i ≡ j
  pub frames : (p : ℕ) → m'.frames p ≡ (if maps ptn pag m'.entries p then used_mark else m.frames p)
  pub kept : (p : ℕ) → m.frames p ≢ free_mark → m'.pages p ≡ m.pages p
  pub entries :
      (t q : ℕ)
      → ((t == ptn) && is_data pag q) ≡ false
      → ((t == ptc) && (q == temp_pag)) ≡ false
      → m'.entries t q ≡ m.entries t q
  pub temp : m.entries ptc temp_pag ≡ 0 → m'.entries ptc temp_pag ≡ 0
  pub count : free_count m.frames ≡ free_count m'.frames + pag

module _ (ptn ptc : ℕ) (other : ptn ≢ ptc) where
  fork_page-entries :
      (pag frame : ℕ) (m : Memory) (t q : ℕ)
      → (fork_page ptn ptc pag frame m).entries t q ≡ (
          if (t == ptc) && (q == temp_pag)
          then 0
          else if (t == ptn) && (q == pag_log_init_data + pag)
          then user_rw frame
          else m.entries t q)
  unfolding fork_page del_ss_pag
  fork_page-entries pag frame m t q =
      let es = set_ss_pag ptn (pag_log_init_data + pag) frame m.entries in
      ground (
        arith,
        set_ss_pag_lem ptc temp_pag frame es t q,
        set_ss_pag_lem ptn (pag_log_init_data + pag) frame m.entries t q,
      )

  fork_page-pages :
      (pag frame : ℕ) (m : Memory) (p : ℕ)
      → pag < num_pag_data
      → frame < total_pages
      → (fork_page ptn ptc pag frame m).pages p
        ≡ (if p == frame then m.pages (data_frame ptc m pag) else m.pages p)
  unfolding fork_page get_frame
  fork_page-pages pag frame m p small lt =
      let es = set_ss_pag ptn (pag_log_init_data + pag) frame m.entries in
      ground (
        arith,
        set_ss_pag_lem ptc temp_pag frame es ptc temp_pag,
        set_ss_pag_lem ptc temp_pag frame es ptc (pag_log_init_data + pag),
        set_ss_pag_lem ptn (pag_log_init_data + pag) frame m.entries ptc (pag_log_init_data + pag),
      )

  fork_page-frames :
      (pag frame : ℕ) (m : Memory) → (fork_page ptn ptc pag frame m).frames ≡ m.frames
  unfolding fork_page
  fork_page-frames pag frame m = refl

module _ (ptn ptc : ℕ) (other : ptn ≢ ptc) {pag : ℕ} (small : pag < num_pag_data) {m m' : Memory}
    (c : Copied ptn ptc pag m m')
    (busy : (j : ℕ) → j < num_pag_data → m.frames (data_frame ptc m j) ≢ free_mark) (frame : ℕ)
    (frames : Frames) (found : Found m'.frames frame frames)
    (spent : free_count m'.frames ≡ free_count frames + 1) where
  abbrev forked : Memory
  forked = fork_page ptn ptc pag frame (record m' { frames = frames })

  fresh : (maps ptn pag m'.entries frame ≡ false) × (m.frames frame ≡ free_mark)
  fresh = ground (arith, c.frames frame, found.was_free)

  -- The pages that were there, and the new one.
  new_entry : forked.entries ptn (pag_log_init_data + pag) ≡ user_rw frame
  new_entry = ground (
    arith,
    fork_page-entries ptn ptc other pag frame (record m' { frames = frames }) ptn
        (pag_log_init_data + pag),
  )

  old_entry :
      (j : ℕ)
      → j < pag
      → forked.entries ptn (pag_log_init_data + j) ≡ m'.entries ptn (pag_log_init_data + j)
  old_entry j lt = ground (
    arith,
    fork_page-entries ptn ptc other pag frame (record m' { frames = frames }) ptn
        (pag_log_init_data + j),
  )

  new_frame : data_frame ptn forked pag ≡ frame
  new_frame = ground (arith, new_entry, found.candidate.present)

  old_frame : (j : ℕ) → j < pag → data_frame ptn forked j ≡ data_frame ptn m' j
  old_frame j lt = ap pbase_addr (old_entry j lt)

  old-ne_new : (j : ℕ) → j < pag → data_frame ptn m' j ≢ frame
  old-ne_new j lt e = ground (arith, maps_of ptn pag m'.entries j lt, fresh)

  forked-maps :
      (p : ℕ) → maps ptn (pag + 1) forked.entries p ≡ ((frame == p) || maps ptn pag m'.entries p)
  forked-maps p = ground (
    arith,
    maps_suc ptn pag forked.entries p,
    maps_ext ptn pag m'.entries forked.entries p old_entry,
    new_frame,
  )

  parent_entry :
      (j : ℕ)
      → j < num_pag_data
      → m'.entries ptc (pag_log_init_data + j) ≡ m.entries ptc (pag_log_init_data + j)
  parent_entry j lt = c.entries ptc (pag_log_init_data + j) (ground arith) (ground arith)

  parent_bytes : m'.pages (data_frame ptc m' pag) ≡ m.pages (data_frame ptc m pag)
  parent_bytes = rw (parent_entry pag small) (c.kept (data_frame ptc m pag) (busy pag small))

  forked-pages :
      (p : ℕ) → forked.pages p ≡ (if p == frame then m.pages (data_frame ptc m pag) else m'.pages p)
  forked-pages p = ground (
    arith,
    fork_page-pages ptn ptc other pag frame (record m' { frames = frames }) p small
        found.candidate.present,
    parent_bytes,
  )

  forked-frames : (p : ℕ) → forked.frames p ≡ update m'.frames frame used_mark p
  forked-frames p = ground (
    arith,
    ap (λ f. f p) (fork_page-frames ptn ptc other pag frame (record m' { frames = frames })),
    ap (λ f. f p) found.marked,
  )

  -- At each page, the new one and the older ones.
  each {ℓ} : (P : ℕ → Type ℓ) → P pag → ((j : ℕ) → j < pag → P j) → (j : ℕ) → j < pag + 1 → P j
  each P new old j lt = elim (Bool-cases (j == pag)) [
    | inl e ↦ let same : j ≡ pag = ground arith in rw same new
    | inr ne ↦ old j (ground arith)
  ]

  pub fork_page-Copied : Copied ptn ptc (pag + 1) m forked
  fork_page-Copied = record {
    candidate =
        each (λ j. IsCandidate (data_frame ptn forked j)) (rw new_frame found.candidate)
          (λ j lt. rw (old_frame j lt) (c.candidate j lt));
    was_free =
        each (λ j. m.frames (data_frame ptn forked j) ≡ free_mark) (rw new_frame fresh.1)
          (λ j lt. rw (old_frame j lt) (c.was_free j lt));
    writable =
        each (λ j. forked.entries ptn (pag_log_init_data + j) ≡ user_rw (data_frame ptn forked j))
          (rw new_frame new_entry) (λ j lt. rw (old_frame j lt) (old_entry j lt ∙ c.writable j lt));
    bytes =
        each (λ j. forked.pages (data_frame ptn forked j) ≡ m.pages (data_frame ptc m j))
          (rw new_frame (ground (arith, forked-pages frame)))
          (λ j lt.
            rw (old_frame j lt)
              (ground (arith, forked-pages (data_frame ptn m' j), old-ne_new j lt, c.bytes j lt)));
    own = λ i j hi hj e.
        ground (arith, new_frame, old_frame i, old_frame j, old-ne_new i, old-ne_new j, c.own i j);
    frames = λ p. ground (arith, forked-frames p, forked-maps p, c.frames p);
    kept = λ p h. ground (arith, forked-pages p, c.kept p h, fresh);
    entries = λ t q a b. ground (
      arith,
      fork_page-entries ptn ptc other pag frame (record m' { frames = frames }) t q,
      c.entries t q,
    );
    temp = λ h. ground (
      arith,
      fork_page-entries ptn ptc other pag frame (record m' { frames = frames }) ptc temp_pag,
    );
    count =
        rw (fork_page-frames ptn ptc other pag frame (record m' { frames = frames }))
          (omega (arith, c.count));
  }
