-- ===== src/Mm/Frames/Alloc.antt =====
-- What `alloc_frame` and `free_frame` do.
use so.Common.{
  ℕ, zero, suc, ◌+◌, ◌*◌, ◌%◌, ◌≤◌, ◌<◌, ◌≡◌, refl, ◌≢◌, ◌⊎◌, inl, inr, Bool-cases, arith, update,
  ltb, ◌==◌, if◌then◌else◌, wneg, ◌&&◌,
}
use so.Mm.Frames.{
  Frames, total_pages, num_pag_kernel, free_mark, used_mark, alloc_loop, alloc_frame, free_frame,
}

-- The frames that the search looks at: every second one above the kernel's.
pub record IsCandidate (frame : ℕ) : Type 0 where
  pub user : num_pag_kernel ≤ frame
  pub present : frame < total_pages
  pub even : frame % 2 ≡ 0

-- The lowest free candidate has been found and marked.
pub record Found (m : Frames) (frame : ℕ) (m' : Frames) : Type 0 where
  pub candidate : IsCandidate frame
  pub was_free : m frame ≡ free_mark
  pub lowest : (g : ℕ) → IsCandidate g → g < frame → m g ≢ free_mark
  pub marked : m' ≡ update m frame used_mark

-- No candidate is free, and nothing has changed.
pub record Exhausted (m : Frames) (frame : ℕ) (m' : Frames) : Type 0 where
  pub minus_one : frame ≡ wneg 1
  pub none_free : (g : ℕ) → IsCandidate g → m g ≢ free_mark
  pub unchanged : m' ≡ m

alloc_loop_cases :
    (f i : ℕ) (m : Frames)
    → num_pag_kernel ≤ i
    → i % 2 ≡ 0
    → total_pages < 2 * f + i
    → ((g : ℕ) → IsCandidate g → g < i → m g ≢ free_mark)
    → let r = alloc_loop f i m in Found m r.0 r.1 ⊎ Exhausted m r.0 r.1
unfolding alloc_loop
alloc_loop_cases zero i m lo ev fuel below = inr (record {
  minus_one = refl;
  none_free = λ g c. below g c (ground (arith, c.present));
  unchanged = refl;
})
alloc_loop_cases (suc f) i m lo ev fuel below = elim (Bool-cases (ltb i total_pages)) [
  | inr out ↦ rw out (
      inr (record {
        minus_one = refl;
        none_free = λ g c. below g c (ground (arith, c.present));
        unchanged = refl;
      }))
  | inl room ↦ elim (Bool-cases (m i == free_mark)) [
    | inl free ↦
        rw (room, free)
          (inl (record {
            candidate = ground arith;
            was_free = ground arith;
            lowest = below;
            marked = refl;
          }))
    | inr used ↦
        rw (room, used)
          (alloc_loop_cases f (i + 2) m (omega arith) (omega arith) (omega arith) (λ g c lt.
            elim (Bool-cases (ltb g i)) [
              | inl less ↦ below g c (ground arith)
              | inr more ↦ ground (arith, c.even)
            ]))
  ]
]

-- `alloc_frame` finds the lowest free frame with an even number above the kernel's and marks it, or
-- there is none, the result is -1, and nothing changes.
pub alloc_frame_cases :
    (m : Frames)
    → Found m (alloc_frame m).0 (alloc_frame m).1 ⊎ Exhausted m (alloc_frame m).0 (alloc_frame m).1
unfolding alloc_frame
alloc_frame_cases m =
    alloc_loop_cases 385 num_pag_kernel m (omega arith) refl (omega arith)
      (λ g c lt. absurd (ground (arith, c.user)))

-- A frame that has been allocated and is given back is free again and the map is what it was,
-- except for the first frame above the kernel's, which stays used.
pub free_frame-alloc_frame :
    (m : Frames) (p : ℕ)
    → (alloc_frame m).0 ≢ wneg 1
    → free_frame (alloc_frame m).0 (alloc_frame m).1 p
      ≡ (if ((alloc_frame m).0 == num_pag_kernel) && (p == num_pag_kernel) then used_mark else m p)
unfolding free_frame
free_frame-alloc_frame m p h = elim (alloc_frame_cases m) [
  | inl found ↦
      ground (arith, found.candidate.user, found.candidate.present, found.was_free, found.marked)
  | inr ex ↦ absurd (h ex.minus_one)
]
