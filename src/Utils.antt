-- ===== src/Utils.antt =====
-- utils.c: copies between memory areas and the check of user pointers. Memory is a function from
-- addresses to bytes.
pub mod Copy
pub mod Access
pub mod Ticks
use so.Common.{
  ℕ, zero, suc, ◌+◌, ◌-◌, ◌/◌, ◌%◌, ◌^◌, Bool, true, false, not, ◌&&◌, update, ◌==◌, ltb, leb,
  if◌then◌else◌, is_neg, u32_mod,
}
use so.Mm.Paging.{num_pag_data, num_pag_code}

-- *q++ = *p++ of two DWord pointers: four bytes are read, and then written.
pub copy_word : ℕ → ℕ → (ℕ → ℕ) → ℕ → ℕ
copy_word p q mem =
    update (update (update (update mem q (mem p)) (q + 1) (mem (p + 1))) (q + 2) (mem (p + 2)))
      (q + 3) (mem (p + 3))

-- while(size > 0) { *q1++ = *p1++; size--; }
pub copy_bytes : ℕ → ℕ → ℕ → ℕ → (ℕ → ℕ) → ℕ → ℕ
copy_bytes zero p q size mem = mem
copy_bytes (suc f) p q size mem =
    let rest = copy_bytes f (p + 1) (q + 1) (size - 1) (update mem q (mem p)) in
    if ltb 0 size then rest else mem

-- while(size > 4) { *q++ = *p++; size -= 4; }, and the loop on bytes behind it.
pub copy_words : ℕ → ℕ → ℕ → ℕ → (ℕ → ℕ) → ℕ → ℕ
unfolding copy_word
copy_words zero p q size mem = copy_bytes 5 p q size mem
copy_words (suc f) p q size mem =
    let rest = copy_words f (p + 4) (q + 4) (size - 4) (copy_word p q mem) in
    if ltb 4 size then rest else copy_bytes 5 p q size mem

-- The size is an int: neither loop runs for a negative one. `size` rounds are enough.
unfoldable pub copy_data : ℕ → ℕ → ℕ → (ℕ → ℕ) → ℕ → ℕ
unfolding copy_words copy_bytes
copy_data start dest size mem =
    let copied = copy_words size start dest size mem in if is_neg size then mem else copied

unfoldable pub copy_from_user : ℕ → ℕ → ℕ → (ℕ → ℕ) → ℕ × (ℕ → ℕ)
unfolding copy_data
copy_from_user start dest size mem = (0, copy_data start dest size mem)

unfoldable copy_to_user : ℕ → ℕ → ℕ → (ℕ → ℕ) → ℕ × (ℕ → ℕ)
unfolding copy_data
copy_to_user start dest size mem = (0, copy_data start dest size mem)

pub data AccessType : Type 0 where
  verify_read verify_write : AccessType

abbrev pub user_first_page : ℕ
user_first_page = 0x100000 / 2 ^ 12

-- The case `default` of the switch.
in_user_pages : ℕ → ℕ → Bool
in_user_pages addr_ini addr_fin =
    leb user_first_page addr_ini && leb addr_fin (user_first_page + num_pag_code + num_pag_data)

-- The switch: the case VERIFY_WRITE falls through to the default.
access_switch : AccessType → ℕ → ℕ → Bool
unfolding in_user_pages
access_switch verify_write addr_ini addr_fin =
    if leb user_first_page addr_ini && leb addr_fin (user_first_page + num_pag_data)
    then true
    else in_user_pages addr_ini addr_fin
access_switch verify_read addr_ini addr_fin = in_user_pages addr_ini addr_fin

unfoldable pub access_ok : AccessType → ℕ → ℕ → Bool
unfolding access_switch
access_ok type addr size =
    let addr_ini = addr / 2 ^ 12 in
    let addr_fin = ((addr + size) % u32_mod) / 2 ^ 12 in
    if ltb addr_fin addr_ini then false else access_switch type addr_ini addr_fin
