-- ===== src/Examples/Data.antt =====
-- Frames, tables, copies, numerals and the screen at concrete inputs.
use mathlib.Core.List.{reverse}
use so.Common.{
  ℕ, ◌%◌, inr, ◌+◌, ◌*◌, ◌^◌, ◌<◌, ◌≤◌, ◌≡◌, refl, true, ◌&&◌, List, [], ◌∷◌, ◌==◌, ◌⊎◌, inl, ◌↔◌,
  arith, update, if◌then◌else◌, map, some, ◌/◌,
}
use so.Mm.Frames.{alloc_loop, Frames, num_pag_kernel, used_mark, free_mark, alloc_frame, free_frame}
use so.Mm.Frames.Alloc.{Found, Exhausted, alloc_frame_cases, free_frame-alloc_frame}
use so.Mm.Paging.{num_pag_code, Memory, num_pag_data, get_pt, free_user_pages}
use so.Mm.Paging.Entry.{user_rw}
use so.Mm.Paging.User.{Freed, free_user_pages-Freed}
use so.Utils.{verify_write, access_ok, user_first_page, copy_data}
use so.Utils.Copy.{copy_data-copied}
use so.Utils.Access.{access_ok_iff}
use so.Text.{itoa, decimal_digit}
use so.Text.Bounds.{itoa-outside}
use so.Utils.Ticks.{do_div, cycles_per_tick, do_div-eq}
use so.Text.Itoa.{IsNumeral, itoa-IsNumeral}
use so.Io.{glyph, printc}
use so.Io.Cursor.{IsOnScreen, cursor, printc-cursor}
use so.Io.Print.{Holds, print_all}
use so.Sys.{sys_write}
use so.Kernel.{current}
use so.Sys.Write.{sys_write-print_all}
use so.Examples.State.{kernel, screen, memory}

-- Every frame is free: the first one above the kernel's is found, and cannot be given back.
abbrev all_free : Frames
all_free p = free_mark

alloc_frame_cases_example :
    Found all_free (alloc_frame all_free).0 (alloc_frame all_free).1
    ⊎ Exhausted all_free (alloc_frame all_free).0 (alloc_frame all_free).1
alloc_frame_cases_example = alloc_frame_cases all_free

free_frame-alloc_frame_example :
    free_frame (alloc_frame all_free).0 (alloc_frame all_free).1 256
    ≡ (if ((alloc_frame all_free).0 == num_pag_kernel) && true then used_mark else free_mark)
free_frame-alloc_frame_example =
    free_frame-alloc_frame all_free 256 (unfold alloc_frame alloc_loop in omega arith)

-- All pages of data stand in frame 400.
abbrev user_memory : Memory
user_memory = record memory { entries = λ t q. user_rw 400; frames = λ p. used_mark }

free_user_pages-Freed_example :
    Freed
      (get_pt 0x30000 user_memory.entries)
      num_pag_data
      user_memory
      (free_user_pages 0x30000 user_memory)
free_user_pages-Freed_example = free_user_pages-Freed 0x30000 user_memory

copy_data-copied_example : copy_data 10 30 7 (λ a. a * 3) 36 ≡ 48
copy_data-copied_example =
    copy_data-copied 10 30 7 (λ a. a * 3) (inl (omega arith)) (omega arith) 36

access_ok_iff_example : (access_ok verify_write 0x11c100 16 ≡ true) ↔ (
    (user_first_page * 2 ^ 12 ≤ 0x11c100)
    × (0x11c100 + 16 < (user_first_page + num_pag_code + 20 + 1) * 2 ^ 12))
access_ok_iff_example = access_ok_iff verify_write 0x11c100 16 (omega arith) (omega arith)

itoa-IsNumeral_example :
    (ds : List ℕ) × IsNumeral 10 1234 ds
    × Holds (itoa 1234 (λ i. 0)) 0 (map decimal_digit (reverse ds))
itoa-IsNumeral_example = itoa-IsNumeral 1234 (λ i. 0) (omega arith)

-- A buffer of three bytes holds two digits.
itoa-outside_example : itoa 57 (λ i. 7) 3 ≡ 7
itoa-outside_example = itoa-outside 2 57 (λ i. 7) 3 (omega arith) (omega arith) (omega arith)

do_div-eq_example :
    do_div (2 ^ 33 + 7) cycles_per_tick
    ≡ some ((2 ^ 33 + 7) / cycles_per_tick, (2 ^ 33 + 7) % cycles_per_tick)
do_div-eq_example = do_div-eq (2 ^ 33 + 7) cycles_per_tick (omega arith)

-- The cursor stands in the last cell.
screen-IsOnScreen : IsOnScreen screen
screen-IsOnScreen = record { column = omega arith; row = omega arith }

printc-cursor_example :
    ((printc 65 screen).cells ≡ update screen.cells 1999 (glyph 65))
    × (cursor (printc 65 screen) ≡ 0)
printc-cursor_example = printc-cursor 65 screen-IsOnScreen (omega arith)

-- Two bytes of the first user page are written; the array stands at 0x21D00.
sys_write-print_all_example :
    sys_write 1 0x100010 2 0x21D00 0x21C00 (λ a. a % 200 + 1) kernel
    ≡ some (2, record kernel { screen = print_all (193 ∷ 194 ∷ []) screen })
sys_write-print_all_example =
    sys_write-print_all 0x100010 0x21D00 0x21C00 (λ a. a % 200 + 1) (193 ∷ 194 ∷ []) kernel
      (omega arith) (omega arith, omega arith) (inr (omega arith))
      (unfold current in (omega arith, omega arith, omega arith)) (refl, (refl, tt))
