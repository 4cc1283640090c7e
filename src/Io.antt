-- ===== src/Io.antt =====
-- io.c and devices.c: the text screen. A cell of the screen is the word at 0xb8000 + 2 * index;
-- what `outb $0xe9` sends to the debug port of the emulator is kept in `port`, the newest first.
pub mod Cursor
pub mod Print
use so.Common.{
  ℕ, zero, suc, ◌+◌, ◌*◌, ◌%◌, Bool, List, [], ◌∷◌, update, ◌==◌, leb, if◌then◌else◌, for_range,
  get_or, map,
}
use Prim.Native.Char.{code}
use Prim.Native.String.{String}
use Prim.Native.String

abbrev pub num_columns : ℕ
num_columns = 80

abbrev pub num_rows : ℕ
num_rows = 25

-- `x` and `y` are bytes.
pub record Screen : Type 0 where
  pub x : ℕ
  pub y : ℕ
  pub cells : ℕ → ℕ
  pub port : List ℕ

-- `x = 0; y = (y + 1) % NUM_ROWS`
abbrev next_row : Screen → Screen
next_row s = record s { x = 0; y = (s.y + 1) % num_rows }

-- The cell: `(c & 0x00FF) | 0x0200`, whose two parts share no bit.
unfoldable pub glyph : ℕ → ℕ
glyph c = c % 256 + 0x200

put_cell : ℕ → Screen → Screen
unfolding glyph
put_cell c s = record s {
  cells = update s.cells (s.y * num_columns + s.x) (glyph c);
  x = (s.x + 1) % 256;
}

wrap_column : Screen → Screen
wrap_column s = if leb num_columns s.x then next_row s else s

unfoldable pub printc : ℕ → Screen → Screen
unfolding put_cell wrap_column
printc c s =
    let s' = record s { port = c ∷ s.port } in
    if c == b'\n' then next_row s' else wrap_column (put_cell c s')

unfoldable pub printc_xy : ℕ → ℕ → ℕ → Screen → Screen
printc_xy mx my c s = record (printc c (record s { x = mx; y = my })) { x = s.x; y = s.y }

-- A `char *` is a function from offsets to bytes. The loop runs on fuel.
print_from : ℕ → ℕ → (ℕ → ℕ) → Screen → Screen
print_from zero i string s = s
print_from (suc f) i string s =
    let rest = print_from f (i + 1) string (printc (string i) s) in
    if string i == 0 then s else rest

unfoldable pub printk : ℕ → (ℕ → ℕ) → Screen → Screen
unfolding print_from
printk fuel string s = print_from fuel 0 string s

-- The bytes of a string literal, with its end.
abbrev codes : String → List ℕ
codes String.[] = []
codes (String.◌∷◌ c s) = code c ∷ codes s

abbrev pub literal : String → ℕ → ℕ
literal text i = get_or (codes text) i 0

-- `sys_write_console` of devices.c: the screen and the result.
unfoldable pub sys_write_console : (ℕ → ℕ) → ℕ → Screen → ℕ × Screen
sys_write_console buffer size s = (size, for_range size 0 (λ i. printc (buffer i)) s)
