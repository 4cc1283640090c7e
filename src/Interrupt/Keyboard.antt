-- ===== src/Interrupt/Keyboard.antt =====
-- interrupt.c: the keyboard. What `inb` reads is an argument, and so are the bytes that the linker
-- puts behind `char_map`.
use Prim.Native.Nat.{bit_and}
use so.Common.{ℕ, ◌≢◌, ◌||◌, List, [], ◌∷◌, ◌==◌, ltb, if◌then◌else◌, get_or}
use so.Io.{printc_xy}
use so.Kernel.{Layout, Kernel, task_at}
use so.Sched.{inner_task_switch}

abbrev pub char_map : List ℕ
char_map =
    0 ∷ 0 ∷ b'1' ∷ b'2' ∷ b'3' ∷ b'4' ∷ b'5' ∷ b'6' ∷ b'7' ∷ b'8' ∷ b'9' ∷ b'0' ∷ 0x27 ∷ 0xA1 ∷ 0
    ∷ 0 ∷ b'q' ∷ b'w' ∷ b'e' ∷ b'r' ∷ b't' ∷ b'y' ∷ b'u' ∷ b'i' ∷ b'o' ∷ b'p' ∷ b'`' ∷ b'+' ∷ 0 ∷ 0
    ∷ b'a' ∷ b's' ∷ b'd' ∷ b'f' ∷ b'g' ∷ b'h' ∷ b'j' ∷ b'k' ∷ b'l' ∷ 0xF1 ∷ 0 ∷ 0xBA ∷ 0 ∷ 0xE7
    ∷ b'z' ∷ b'x' ∷ b'c' ∷ b'v' ∷ b'b' ∷ b'n' ∷ b'm' ∷ b',' ∷ b'.' ∷ b'-' ∷ 0 ∷ b'*' ∷ 0 ∷ 0 ∷ 0 ∷ 0
    ∷ 0 ∷ 0 ∷ 0 ∷ 0 ∷ 0 ∷ 0 ∷ 0 ∷ 0 ∷ 0 ∷ 0 ∷ 0 ∷ b'7' ∷ b'8' ∷ b'9' ∷ b'-' ∷ b'4' ∷ b'5' ∷ b'6'
    ∷ b'+' ∷ b'1' ∷ b'2' ∷ b'3' ∷ b'0' ∷ 0 ∷ 0 ∷ 0 ∷ b'<' ∷ 0 ∷ 0 ∷ 0 ∷ 0 ∷ 0 ∷ 0 ∷ 0 ∷ 0 ∷ 0 ∷ 0
    ∷ 0 ∷ []

-- sizeof(char_map)
abbrev pub map_size : ℕ
map_size = 98

-- char_map[i], where `beyond i` is the byte behind the array.
unfoldable pub map_char : (ℕ → ℕ) → ℕ → ℕ
map_char beyond i = if ltb i map_size then get_or char_map i 0 else beyond i

-- What is printed for a scancode.
unfoldable pub shown : ℕ → ℕ
shown scancode = if ltb scancode map_size then get_or char_map scancode 0 else b'C'

-- `keyboard_service`, for the byte that `inb(0x60)` reads, up to the point where the running task
-- loses the processor. The keys d, n and c switch to the tasks 0, 1 and 2; the character is then
-- printed when the task goes on.
unfoldable pub keyboard_service : Layout → (ℕ → ℕ) → ℕ → ℕ → Kernel → Kernel
unfolding map_char shown
keyboard_service l beyond ebp c k =
    let scancode = bit_and c 0x7F in
    let key = map_char beyond scancode in
    if (c == 0) || (bit_and c 0x80 == 0)
    then k
    else if key == b'd'
    then inner_task_switch ebp (task_at l 0) k
    else if key == b'n'
    then inner_task_switch ebp (task_at l 1) k
    else if key == b'c'
    then inner_task_switch ebp (task_at l 2) k
    else record k { screen = printc_xy 0 0 (shown scancode) k.screen }

-- The keys that switch tasks.
abbrev pub IsPlainKey : (ℕ → ℕ) → ℕ → Type 0
IsPlainKey beyond c =
    let key = map_char beyond (bit_and c 0x7F) in (key ≢ b'd') × (key ≢ b'n') × (key ≢ b'c')
