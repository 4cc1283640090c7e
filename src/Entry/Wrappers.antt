-- ===== src/Entry/Wrappers.antt =====
-- wrappers.S: `write` and `unblock` of the user's library.
use so.Common.{
  ◌≤◌, ◌+◌, ℕ, ◌≡◌, refl, [], ◌∷◌, Option, none, some, arith, wneg, wsub, is_neg, if◌then◌else◌,
  ◌∈◌, ap, ◌∙◌,
}
use so.Io.{Screen}
use so.Kernel.{Layout, Kernel}
use so.Sys.{sys_write, user_end, sys_unblock}
use so.Sys.Write.{IsOnStack, Wrote, wrote, refused, sys_write-Wrote}
use so.Entry.{Registers, Context, value_of, serve, system_call_handler}

-- cmpl $0, %eax; jge …; neg %eax; movl %eax, errno; movl $-1, %eax: eax and errno.
abbrev checked : ℕ → ℕ → ℕ × ℕ
checked eax errno = if is_neg eax then (wneg 1, wsub 0 eax) else (eax, errno)

-- The registers and the errno before the call, and what the library's function returns, with the
-- errno and the kernel; `none` where no value of eax is determined.
unfoldable pub after_trap : ℕ → Option (Option ℕ × Kernel) → Option ((ℕ × ℕ) × Kernel)
after_trap errno none = none
after_trap errno (some (none, k)) = none
after_trap errno (some (some eax, k)) = some (checked eax errno, k)

unfoldable pub write :
    Layout → Context → (errno fd buffer size : ℕ) → Kernel → Option ((ℕ × ℕ) × Kernel)
unfolding after_trap system_call_handler
write l c errno fd buffer size k =
    after_trap errno
      (system_call_handler l c (record { eax = 4; ebx = size; ecx = buffer; edx = fd }) k)

unfoldable pub unblock :
    Layout → Context → Registers → (errno pid : ℕ) → Kernel → Option ((ℕ × ℕ) × Kernel)
unfolding after_trap system_call_handler
unblock l c r errno pid k =
    after_trap errno (system_call_handler l c (record r { eax = 6; ebx = pid }) k)

-- What a `write` has done: printed something and returned the size, or stored one of three errors,
-- returned -1 and left the kernel as it was.
pub data Written (k : Kernel) (errno size : ℕ) (answer : Option ((ℕ × ℕ) × Kernel)) : Type 0 where
  printed :
      (screen : Screen)
      → answer ≡ some ((size, errno), record k { screen = screen })
      → Written k errno size answer
  failed :
      (e : ℕ) → e ∈ 9 ∷ 13 ∷ 22 ∷ [] → answer ≡ some ((wneg 1, e), k) → Written k errno size answer

-- The dispatch of number 4 calls `sys_write` on the three arguments in their order.
write-dispatch :
    (l : Layout) (c : Context) (errno fd buffer size : ℕ) (k : Kernel)
    → write l c errno fd buffer size k
      ≡ after_trap errno (value_of (sys_write fd buffer size c.buff c.low c.mem k))
unfolding write system_call_handler serve
write-dispatch l c errno fd buffer size k = refl

checked_error : (n errno : ℕ) → n ∈ 9 ∷ 13 ∷ 22 ∷ [] → checked (wneg n) errno ≡ (wneg 1, n)
checked_error n errno known = ground arith

Wrote-Written :
    {k : Kernel} {size : ℕ} {answer : Option (ℕ × Kernel)} (errno : ℕ)
    → Wrote k size answer
    → Written k errno size (after_trap errno (value_of answer))
unfolding after_trap
Wrote-Written errno (wrote screen small e) =
    printed screen (ap (λ x. after_trap errno (value_of x)) e ∙ rw small refl)
Wrote-Written {k = k} errno (refused n known e) = failed n known (
    ap (λ x. after_trap errno (value_of x)) e ∙ ap (λ x. some (x, k)) (checked_error n errno known))

-- With room on the kernel's stack for its array, and a block that does not reach behind the user's
-- pages, `write` comes back: it has either changed the screen only, and returns the size with errno
-- as it was, or it returns -1 with errno EBADF, EACCES or EINVAL and leaves the kernel as it was.
pub write-Written :
    (l : Layout) (c : Context) (errno fd buffer size : ℕ) (k : Kernel)
    → IsOnStack size c.buff c.low k
    → buffer + size ≤ user_end
    → Written k errno size (write l c errno fd buffer size k)
write-Written l c errno fd buffer size k stack inside =
    rw (write-dispatch l c errno fd buffer size k)
      (Wrote-Written errno (sys_write-Wrote fd buffer size c.buff c.low c.mem k stack inside))

-- The pid that a program gives to `unblock` is not the one that `sys_unblock` gets: that one is
-- what edx held before.
unblock-edx :
    (l : Layout) (c : Context) (r : Registers) (errno pid : ℕ) (k : Kernel)
    → unblock l c r errno pid k
      ≡ after_trap errno (let (v, k') = sys_unblock l r.edx k in some (some v, k'))
unfolding unblock after_trap system_call_handler serve
unblock-edx l c r errno pid k = refl
