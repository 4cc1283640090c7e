-- ===== src/System/Loaded.antt =====
-- From the files of the image to the memory of task 1.
use so.Common.{◌⊎◌, ℕ, ◌+◌, ◌<◌, ◌≤◌, ◌≡◌, List, length}
use so.Build.{Buffer}
use so.Build.Image.{image}
use so.System.{System, kernel_start}

-- When `main` copies the program, the memory from KERNEL_START on holds, of what follows the boot
-- sector of the image, the two sizes and the program. The rest of the kernel's file, which holds
-- the tasks and the tables that `main` has written by then, may have changed.
abbrev pub IsLoaded : (boot sys usr : List ℕ) → Buffer → (ℕ → ℕ) → Type 0
IsLoaded boot sys usr out mem =
    (j : ℕ)
    → (j < 8) ⊎ (length sys ≤ j)
    → j < length sys + length usr
    → mem (kernel_start + j) ≡ image boot sys usr out (512 + j)
