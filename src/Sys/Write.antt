-- ===== src/Sys/Write.antt =====
-- `sys_write`: what reaches the screen, and that a call that fails prints nothing.
use so.Common.{
  Option, none, some, leb, Bool-cases, ◌==◌, ◌||◌, ◌⊎◌, inl, inr, ◌∈◌, wneg, refl, false, ℕ, ◌+◌,
  ◌*◌, ◌^◌, ◌<◌, ◌≤◌, ◌≡◌, true, List, [], ◌∷◌, arith, length, is_neg, ap, ◌∙◌,
}
use so.Io.{Screen, sys_write_console}
use so.Io.Print.{HoldsBytes, print_all, sys_write_console-print_all}
use so.Utils.{access_ok, verify_read, user_first_page, copy_data, copy_from_user}
use so.Utils.Access.{access_ok_iff}
use so.Utils.Copy.{IsApart, copy_data-copied}
use so.Kernel.{Kernel, current, task_struct_size}
use so.Sys.{check_fd, fits_stack, user_end, sys_write}

-- A store that agrees with the other one on a block holds the same bytes there.
HoldsBytes-shift :
    (string mem : ℕ → ℕ) (start i at size : ℕ) (xs : List ℕ)
    → ((j : ℕ) → j < size → string j ≡ mem (start + j))
    → i + length xs ≤ size
    → start + i ≡ at
    → HoldsBytes mem at xs
    → HoldsBytes string i xs
HoldsBytes-shift string mem start i at size [] same fits e h = tt
HoldsBytes-shift string mem start i at size (x ∷ xs) same fits e h = (
  same i (omega arith) ∙ ap mem e ∙ h.0,
  HoldsBytes-shift string mem start (i + 1) (at + 1) size xs same (omega arith) (omega arith) h.1,
)

-- The block lies in the user's pages.
abbrev pub IsUserBlock : ℕ → ℕ → Type 0
IsUserBlock buffer size = (user_first_page * 2 ^ 12 ≤ buffer) × (buffer + size ≤ user_end)

-- The array lies between the task_struct and the stack that is in use, with what the call needs
-- below it.
abbrev pub IsOnStack : (size buff low : ℕ) → Kernel → Type 0
IsOnStack size buff low k =
    (current k + task_struct_size ≤ low) × (low ≤ buff) × (buff + size ≤ k.esp)

IsOnStack-fits_stack :
    (size buff low : ℕ) (k : Kernel) → IsOnStack size buff low k → fits_stack size buff low k ≡ true
unfolding fits_stack
IsOnStack-fits_stack size buff low k (a, b, c) = ground arith

module _ (buffer buff low : ℕ) (mem : ℕ → ℕ) (xs : List ℕ) (k : Kernel) (some_byte : 0 < length xs)
    (block : IsUserBlock buffer (length xs)) (apart : IsApart buffer buff (length xs))
    (stack : IsOnStack (length xs) buff low k) (bytes : HoldsBytes mem buffer xs) where
  accepted : access_ok verify_read buffer (length xs) ≡ true
  accepted =
      (access_ok_iff verify_read buffer (length xs) (omega arith) (omega arith)).1
        (omega arith, omega arith)

  abbrev arrived : ℕ → ℕ
  arrived i = copy_data buffer buff (length xs) mem (buff + i)

  arrived-bytes : HoldsBytes arrived 0 xs
  arrived-bytes =
      HoldsBytes-shift arrived mem buffer 0 buffer (length xs) xs
        (λ j lt.
          copy_data-copied buffer buff (length xs) mem apart (omega arith) (buff + j)
          ∙ ground arith)
        (omega arith) (omega arith) bytes

  -- `sys_write` to descriptor 1 of at least one byte in a block of the user's pages, apart from its
  -- array, for which the kernel's stack has room, prints the bytes of the block and returns how
  -- many.
  pub sys_write-print_all :
      sys_write 1 buffer (length xs) buff low mem k
      ≡ some (length xs, record k { screen = print_all xs k.screen })
  unfolding sys_write copy_from_user check_fd
  sys_write-print_all = ground (
    arith,
    accepted,
    IsOnStack-fits_stack (length xs) buff low k stack,
    sys_write_console-print_all arrived xs k.screen arrived-bytes,
  )

-- What a `sys_write` leaves that returns: it has either changed the screen only and returns the
-- size, which is no negative int, or it returns -9, -13 or -22 and has changed nothing.
pub data Wrote (k : Kernel) (size : ℕ) (answer : Option (ℕ × Kernel)) : Type 0 where
  wrote :
      (screen : Screen)
      → is_neg size ≡ false
      → answer ≡ some (size, record k { screen = screen })
      → Wrote k size answer
  refused : (e : ℕ) → e ∈ 9 ∷ 13 ∷ 22 ∷ [] → answer ≡ some (wneg e, k) → Wrote k size answer

-- `sys_write` either does not return, or is one of the two.
pub sys_write_cases :
    (fd buffer size buff low : ℕ) (mem : ℕ → ℕ) (k : Kernel)
    → (sys_write fd buffer size buff low mem k ≡ none)
      ⊎ Wrote k size (sys_write fd buffer size buff low mem k)
unfolding sys_write check_fd sys_write_console
sys_write_cases fd buffer size buff low mem k = elim (Bool-cases (fits_stack size buff low k)) [
  | inr over ↦ inl (rw over refl)
  | inl room ↦ elim (Bool-cases (fd == 1)) [
    | inr other ↦ inr (refused 9 refl (rw (room, other) refl))
    | inl console ↦ elim (Bool-cases (is_neg size || (size == 0) || (buffer == 0))) [
      | inl invalid ↦ inr (refused 22 refl (rw (room, console, invalid) refl))
      | inr valid ↦ elim (Bool-cases (access_ok verify_read buffer size)) [
        | inr denied ↦ inr (refused 13 refl (rw (room, console, valid, denied) refl))
        | inl granted ↦ elim (Bool-cases (leb (buffer + size) user_end)) [
          | inr behind ↦ inl (rw (room, console, valid, granted, behind) refl)
          | inl inside ↦ inr (
              wrote
                (sys_write_console (λ i. (copy_from_user buffer buff size mem).1 (buff + i)) size
                  k.screen).1
                (ground arith) (rw (room, console, valid, granted, inside) refl))
        ]
      ]
    ]
  ]
]

-- With room on the stack for the array, and a block that does not reach behind the user's pages,
-- it returns.
pub sys_write-Wrote :
    (fd buffer size buff low : ℕ) (mem : ℕ → ℕ) (k : Kernel)
    → IsOnStack size buff low k
    → buffer + size ≤ user_end
    → Wrote k size (sys_write fd buffer size buff low mem k)
unfolding sys_write
sys_write-Wrote fd buffer size buff low mem k stack inside =
    elim (sys_write_cases fd buffer size buff low mem k) [
      | inr w ↦ w
      | inl lost ↦
          let room : fits_stack size buff low k ≡ true =
            IsOnStack-fits_stack size buff low k stack in
          absurd (ground (arith, room, lost))
    ]

Wrote-screen :
    {k : Kernel} {size : ℕ} {answer : Option (ℕ × Kernel)} (n : ℕ) (k' : Kernel)
    → answer ≡ some (n, k')
    → Wrote k size answer
    → k' ≡ record k { screen = k'.screen }
Wrote-screen n k' e (wrote screen small w) = ground (arith, e, w)
Wrote-screen n k' e (refused m known w) = ground (arith, e, w)

-- A `sys_write` that returns has changed the screen only.
pub sys_write-screen :
    (fd buffer size buff low : ℕ) (mem : ℕ → ℕ) (k : Kernel) (n : ℕ) (k' : Kernel)
    → sys_write fd buffer size buff low mem k ≡ some (n, k')
    → k' ≡ record k { screen = k'.screen }
sys_write-screen fd buffer size buff low mem k n k' e =
    elim (sys_write_cases fd buffer size buff low mem k) [
      | inl lost ↦ absurd (ground (arith, e, lost))
      | inr w ↦ Wrote-screen n k' e w
    ]

Wrote_failed :
    {k : Kernel} {size : ℕ} {answer : Option (ℕ × Kernel)} (n : ℕ) (k' : Kernel)
    → answer ≡ some (n, k')
    → is_neg n ≡ true
    → Wrote k size answer
    → k' ≡ k
Wrote_failed n k' e neg (wrote screen small w) = absurd (ground (arith, e, w))
Wrote_failed n k' e neg (refused m known w) = ground (arith, e, w)

-- A `sys_write` that returns a negative number changes nothing.
sys_write_failed :
    (fd buffer size buff low : ℕ) (mem : ℕ → ℕ) (k : Kernel) (n : ℕ) (k' : Kernel)
    → sys_write fd buffer size buff low mem k ≡ some (n, k')
    → is_neg n ≡ true
    → k' ≡ k
sys_write_failed fd buffer size buff low mem k n k' e neg =
    elim (sys_write_cases fd buffer size buff low mem k) [
      | inl lost ↦ absurd (ground (arith, e, lost))
      | inr w ↦ Wrote_failed n k' e neg w
    ]
