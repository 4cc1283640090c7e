-- ===== src/Mm/Paging/User.antt =====
-- `free_user_pages` of mm.c.
use native.Mathlib.Numerals.{towards_suc}
use so.Common.{
  ℕ, zero, suc, ◌+◌, ◌<◌, ◌≡◌, refl, Bool, true, false, Bool-cases, inl, inr, ◌||◌, arith, ltb, leb,
  ◌==◌, ◌&&◌, if◌then◌else◌, for_range, for_range_inv,
}
use so.Mm.Frames.{total_pages, num_pag_kernel, free_mark, free_frame}
use so.Mm.Paging.{
  Entries, Memory, get_frame, get_pt, num_pag_data, pag_log_init_data, free_user_pages,
  free_data_page, pbase_addr, del_ss_pag,
}

-- Whether one of the first `n` pages of data is mapped to the frame.
unfoldable pub maps : ℕ → ℕ → Entries → ℕ → Bool
maps pt zero es frame = false
maps pt (suc n) es frame =
    (pbase_addr (es pt (pag_log_init_data + n)) == frame) || maps pt n es frame

-- Whether `free_frame` takes the frame.
abbrev is_freeable : ℕ → Bool
is_freeable frame = ltb num_pag_kernel frame && ltb frame total_pages

-- The first `k` pages of data have been given back.
pub record Freed (pt k : ℕ) (m m' : Memory) : Type 0 where
  pub frames :
      (p : ℕ)
      → m'.frames p ≡ (if is_freeable p && maps pt k m.entries p then free_mark else m.frames p)
  pub entries :
      (t q : ℕ)
      → m'.entries t q ≡ (
          if (t == pt) && (leb pag_log_init_data q && ltb q (pag_log_init_data + k))
          then 0
          else m.entries t q)
  pub pages : m'.pages ≡ m.pages

pub maps_suc :
    (pt k : ℕ) (es : Entries) (p : ℕ)
    → maps pt (k + 1) es p ≡ ((pbase_addr (es pt (pag_log_init_data + k)) == p) || maps pt k es p)
unfolding maps
maps_suc pt k es p = simp towards_suc

free_data_page-Freed :
    (pt k : ℕ) (m m' : Memory) → Freed pt k m m' → Freed pt (k + 1) m (free_data_page pt k m')
unfolding free_data_page free_frame get_frame del_ss_pag
free_data_page-Freed pt k m m' h = record {
  frames = λ p.
      ground (arith, h.frames p, h.entries pt (pag_log_init_data + k), maps_suc pt k m.entries p);
  entries = λ t q. ground (arith, h.entries t q);
  pages = ground (arith, h.pages);
}

pub free_data_pages-Freed :
    (pt n : ℕ) (m : Memory) → Freed pt n m (for_range n 0 (free_data_page pt) m)
free_data_pages-Freed pt n m =
    for_range_inv (λ k. Freed pt k m) (free_data_page pt) n 0 n m (omega arith)
      (λ k c lo hi. free_data_page-Freed pt k m c)
      (record {
        frames = λ p. unfold maps in ground arith;
        entries = λ t q. ground arith;
        pages = refl;
      })

pub maps_cases :
    (pt n : ℕ) (es : Entries) (p : ℕ)
    → maps pt n es p ≡ true
    → (j : ℕ) × (j < n) × (pbase_addr (es pt (pag_log_init_data + j)) ≡ p)
unfolding maps
maps_cases pt zero es p h = cc
maps_cases pt (suc n) es p h = elim (Bool-cases (pbase_addr (es pt (pag_log_init_data + n)) == p)) [
  | inl hit ↦ (n, omega arith, ground arith)
  | inr miss ↦ let (j, lt, e) = maps_cases pt n es p (ground arith) in (j, omega arith, e)
]

-- `free_user_pages` frees the frames of the pages of data, but for the first frame above the
-- kernel's, unmaps those pages, and changes nothing else.
pub free_user_pages-Freed :
    (dir : ℕ) (m : Memory) → Freed (get_pt dir m.entries) num_pag_data m (free_user_pages dir m)
unfolding free_user_pages
free_user_pages-Freed dir m = free_data_pages-Freed (get_pt dir m.entries) num_pag_data m

pub maps_of :
    (pt n : ℕ) (es : Entries) (j : ℕ)
    → j < n
    → maps pt n es (pbase_addr (es pt (pag_log_init_data + j))) ≡ true
unfolding maps
maps_of pt zero es j h = elim h [ ]
maps_of pt (suc n) es j h = elim (Bool-cases (j == n)) [
  | inl e ↦ let same : j ≡ n = ground arith in rw same (ground arith)
  | inr ne ↦ ground (arith, maps_of pt n es j)
]

pub maps_ext :
    (pt n : ℕ) (es es' : Entries) (p : ℕ)
    → ((j : ℕ) → j < n → es' pt (pag_log_init_data + j) ≡ es pt (pag_log_init_data + j))
    → maps pt n es' p ≡ maps pt n es p
unfolding maps
maps_ext pt zero es es' p h = refl
maps_ext pt (suc n) es es' p h =
    ground (arith, h n, maps_ext pt n es es' p (λ j lt. h j (omega arith)))
