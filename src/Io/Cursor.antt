-- ===== src/Io/Cursor.antt =====
-- Where the cursor of io.c stands.
use so.Common.{ℕ, ◌+◌, ◌*◌, ◌%◌, ◌<◌, ◌≡◌, ◌≢◌, arith, update}
use so.Io.{Screen, num_columns, num_rows, glyph, printc, printc_xy}

pub record IsOnScreen (s : Screen) : Type 0 where
  pub column : s.x < num_columns
  pub row : s.y < num_rows

abbrev pub cursor : Screen → ℕ
cursor s = s.y * num_columns + s.x

-- `printc` keeps the cursor on the screen.
pub printc-IsOnScreen : (c : ℕ) {s : Screen} → IsOnScreen s → IsOnScreen (printc c s)
unfolding printc
printc-IsOnScreen c v = ground arith

-- A character other than a line feed goes to the cell under the cursor and nowhere else, and the
-- cursor goes on by one cell, from the last one back to the first.
pub printc-cursor :
    (c : ℕ) {s : Screen}
    → IsOnScreen s
    → c ≢ b'\n'
    → ((printc c s).cells ≡ update s.cells (cursor s) (glyph c))
      × (cursor (printc c s) ≡ (cursor s + 1) % (num_rows * num_columns))
unfolding printc
printc-cursor c v h = (ground arith, ground arith)

-- `printc_xy` writes one cell, the one at its coordinates, and the cursor stays.
printc_xy_lem :
    (mx my c : ℕ) (s : Screen)
    → mx < num_columns
    → c ≢ b'\n'
    → ((printc_xy mx my c s).cells ≡ update s.cells (my * num_columns + mx) (glyph c))
      × (cursor (printc_xy mx my c s) ≡ cursor s)
unfolding printc_xy printc
printc_xy_lem mx my c s h k = (ground arith, ground arith)
