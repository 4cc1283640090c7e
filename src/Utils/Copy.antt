-- ===== src/Utils/Copy.antt =====
-- What the copies of utils.c do.
use so.Common.{
  ℕ, zero, suc, ◌+◌, ◌-◌, ◌≤◌, ◌<◌, ◌^◌, ◌≡◌, ◌⊎◌, ◌&&◌, arith, update, leb, ltb, if◌then◌else◌,
  Bool-cases, inl, inr, ◌∙◌,
}
use so.Utils.{copy_word, copy_bytes, copy_words, copy_data}

-- `size` bytes from `start` stand at `dest`, and all else is as it was.
abbrev pub copied : ℕ → ℕ → ℕ → (ℕ → ℕ) → ℕ → ℕ
copied start dest size mem a =
    if leb dest a && ltb a (dest + size) then mem (start + (a - dest)) else mem a

-- The two blocks share no byte.
abbrev pub IsApart : ℕ → ℕ → ℕ → Type 0
IsApart start dest size = (start + size ≤ dest) ⊎ (dest + size ≤ start)

copy_bytes_lem :
    (f p q size : ℕ) (mem : ℕ → ℕ) (a : ℕ)
    → IsApart p q size
    → size < f
    → copy_bytes f p q size mem a ≡ copied p q size mem a
unfolding copy_bytes
copy_bytes_lem zero p q size mem a h k = absurd (omega arith)
copy_bytes_lem (suc f) p q size mem a h k =
    ground (arith, copy_bytes_lem f (p + 1) (q + 1) (size - 1) (update mem q (mem p)) a)

copy_word_lem :
    (p q size : ℕ) (mem : ℕ → ℕ) (a : ℕ)
    → IsApart p q size
    → 4 < size
    → copied (p + 4) (q + 4) (size - 4) (copy_word p q mem) a ≡ copied p q size mem a
unfolding copy_word
copy_word_lem p q size mem a h k = elim (Bool-cases (ltb a (q + 4))) [
  | inl near ↦ ground arith
  | inr beyond ↦ ground arith
]

copy_words_lem :
    (f p q size : ℕ) (mem : ℕ → ℕ) (a : ℕ)
    → IsApart p q size
    → size ≤ f
    → copy_words f p q size mem a ≡ copied p q size mem a
unfolding copy_words
copy_words_lem zero p q size mem a h k = copy_bytes_lem 5 p q size mem a h (omega arith)
copy_words_lem (suc f) p q size mem a h k = elim (Bool-cases (ltb 4 size)) [
  | inl more ↦ rw more (
      copy_words_lem f (p + 4) (q + 4) (size - 4) (copy_word p q mem) a (ground arith)
        (ground arith)
      ∙ copy_word_lem p q size mem a h (ground arith))
  | inr few ↦ rw few (copy_bytes_lem 5 p q size mem a h (ground arith))
]

module _ (start dest size : ℕ) (mem : ℕ → ℕ) (apart : IsApart start dest size)
    (small : size < 2 ^ 31) where
  -- `copy_data` of two blocks that share no byte copies the one to the other, byte by byte, and
  -- writes nowhere else.
  pub copy_data-copied : (a : ℕ) → copy_data start dest size mem a ≡ copied start dest size mem a
  unfolding copy_data
  copy_data-copied a = ground (arith, copy_words_lem size start dest size mem a apart)

-- A negative size copies nothing.
copy_data_negative :
    (start dest size : ℕ) (mem : ℕ → ℕ) → 2 ^ 31 ≤ size → copy_data start dest size mem ≡ mem
unfolding copy_data
copy_data_negative start dest size mem h = ground arith
