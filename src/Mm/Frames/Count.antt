-- ===== src/Mm/Frames/Count.antt =====
-- How many frames there are to allocate.
use so.Common.{
  ℕ, zero, suc, ◌+◌, ◌*◌, ◌%◌, ◌≤◌, ◌<◌, ◌≡◌, refl, ◌≢◌, ◌⊎◌, inl, inr, arith, update, ltb, ◌==◌,
  if◌then◌else◌, wneg, for_range, for_range_inv,
}
use so.Mm.Frames.{
  Frames, total_pages, num_pag_kernel, free_mark, used_mark, init_frames, alloc_frame,
}
use so.Mm.Frames.Alloc.{IsCandidate, Found, Exhausted, alloc_frame_cases}

count_from : ℕ → ℕ → Frames → ℕ
count_from zero i m = 0
count_from (suc n) i m = count_from n (i + 2) m + (if m i == free_mark then 1 else 0)

-- How many of the frames that `alloc_frame` looks at are free.
pub free_count : Frames → ℕ
free_count m = count_from 384 num_pag_kernel m

count_from-update_out :
    (n i p v : ℕ) (m : Frames) → p < i → count_from n i (update m p v) ≡ count_from n i m
unfolding count_from
count_from-update_out zero i p v m h = refl
count_from-update_out (suc n) i p v m h = ground (arith, count_from-update_out n (i + 2) p v m)

count_from-used :
    (n i p : ℕ) (m : Frames)
    → i ≤ p
    → p < i + 2 * n
    → p % 2 ≡ i % 2
    → m p ≡ free_mark
    → count_from n i m ≡ count_from n i (update m p used_mark) + 1
unfolding count_from
count_from-used zero i p m lo hi ev free = absurd (omega arith)
count_from-used (suc n) i p m lo hi ev free =
    ground (arith, count_from-used n (i + 2) p m, count_from-update_out n (i + 2) p used_mark m)

count_from-zero :
    (n i : ℕ) (m : Frames)
    → i % 2 ≡ 0
    → num_pag_kernel ≤ i
    → i + 2 * n ≤ total_pages
    → ((g : ℕ) → IsCandidate g → m g ≢ free_mark)
    → count_from n i m ≡ 0
unfolding count_from
count_from-zero zero i m ev lo hi h = refl
count_from-zero (suc n) i m ev lo hi h = ground (
  arith,
  h i (omega arith),
  count_from-zero n (i + 2) m (omega arith) (omega arith) (omega arith) h,
)

-- While a frame is free `alloc_frame` succeeds and there is one free frame less; otherwise it
-- returns -1.
pub alloc_frame-free_count :
    (m : Frames)
    → (((alloc_frame m).0 ≢ wneg 1) × (free_count m ≡ free_count (alloc_frame m).1 + 1))
      ⊎ (((alloc_frame m).0 ≡ wneg 1) × (free_count m ≡ 0) × ((alloc_frame m).1 ≡ m))
unfolding free_count
alloc_frame-free_count m = elim (alloc_frame_cases m) [
  | inl found ↦ inl (
    ground (arith, found.candidate.present),
    rw found.marked (
        count_from-used 384 num_pag_kernel (alloc_frame m).0 m found.candidate.user
          (ground (arith, found.candidate.present)) (ground (arith, found.candidate.even))
          found.was_free),
  )
  | inr ex ↦ inr (
    ex.minus_one,
    count_from-zero 384 num_pag_kernel m refl (omega arith) (omega arith) ex.none_free,
    ex.unchanged,
  )
]

-- A loop that writes one value at each counter.
fill_lem :
    (n v : ℕ) (m : Frames) (p : ℕ)
    → for_range n 0 (λ i c. update c i v) m p ≡ (if ltb p n then v else m p)
fill_lem n v m p =
    for_range_inv (λ j c. (p : ℕ) → c p ≡ (if ltb p j then v else m p)) (λ i c. update c i v) n 0 n
      m (omega arith) (λ k c lo hi h p. ground (arith, h p)) (λ p. ground arith) p

-- `init_frames` marks the kernel's frames used and the other ones free.
pub init_frames_lem :
    (m : Frames) (p : ℕ)
    → init_frames m p
      ≡ (if ltb p num_pag_kernel then used_mark else if ltb p total_pages then free_mark else m p)
unfolding init_frames
init_frames_lem m p = ground (
  arith,
  fill_lem num_pag_kernel used_mark (for_range total_pages 0 (λ i c. update c i free_mark) m) p,
  fill_lem total_pages free_mark m p,
)

count_from-all :
    (n i : ℕ) (m : Frames)
    → num_pag_kernel ≤ i
    → i + 2 * n ≤ total_pages
    → count_from n i (init_frames m) ≡ n
unfolding count_from
count_from-all zero i m lo hi = refl
count_from-all (suc n) i m lo hi = ground (arith, count_from-all n (i + 2) m, init_frames_lem m i)

-- After `init_frames` there are 384 frames to allocate.
pub free_count-init_frames : (m : Frames) → free_count (init_frames m) ≡ 384
unfolding free_count
free_count-init_frames m = count_from-all 384 num_pag_kernel m (omega arith) (omega arith)

pub Found-free_count :
    (m : Frames)
    → Found m (alloc_frame m).0 (alloc_frame m).1
    → free_count m ≡ free_count (alloc_frame m).1 + 1
Found-free_count m found = ground (arith, alloc_frame-free_count m, found.candidate.present)

pub Exhausted-free_count :
    (m : Frames) → Exhausted m (alloc_frame m).0 (alloc_frame m).1 → free_count m ≡ 0
Exhausted-free_count m ex = ground (arith, alloc_frame-free_count m, ex.minus_one)
