-- ===== src/Io/Print.antt =====
-- What `printk` and `sys_write_console` print.
use so.Common.{ℕ, zero, suc, ◌+◌, ◌<◌, ◌≡◌, refl, ◌≢◌, List, [], ◌∷◌, arith, length, for_range}
use so.Io.{Screen, printc, printk, print_from, sys_write_console}

-- From offset `i` the bytes `xs` stand in the store, and then the end of the string.
abbrev pub Holds : (ℕ → ℕ) → ℕ → List ℕ → Type 0
Holds string i [] = string i ≡ 0
Holds string i (x ∷ xs) = (string i ≡ x) × (x ≢ 0) × Holds string (i + 1) xs

-- The same without the end.
abbrev pub HoldsBytes : (ℕ → ℕ) → ℕ → List ℕ → Type 0
HoldsBytes string i [] = Unit {0}
HoldsBytes string i (x ∷ xs) = (string i ≡ x) × HoldsBytes string (i + 1) xs

-- The characters one after the other.
pub print_all : List ℕ → Screen → Screen
print_all [] s = s
print_all (x ∷ xs) s = print_all xs (printc x s)

print_from-print_all :
    (f i : ℕ) (string : ℕ → ℕ) (xs : List ℕ) (s : Screen)
    → Holds string i xs
    → length xs < f
    → print_from f i string s ≡ print_all xs s
unfolding print_from print_all
print_from-print_all zero i string xs s h fuel = absurd (omega arith)
print_from-print_all (suc f) i string [] s h fuel = ground arith
print_from-print_all (suc f) i string (x ∷ xs) s h fuel =
    ground (arith, print_from-print_all f (i + 1) string xs (printc x s) h.2)

-- `printk` prints the bytes of a string up to its end, in order.
pub printk-print_all :
    (fuel : ℕ) (string : ℕ → ℕ) (xs : List ℕ) (s : Screen)
    → Holds string 0 xs
    → length xs < fuel
    → printk fuel string s ≡ print_all xs s
unfolding printk
printk-print_all fuel string xs s h enough = print_from-print_all fuel 0 string xs s h enough

for_range-print_all :
    (i : ℕ) (buffer : ℕ → ℕ) (xs : List ℕ) (s : Screen)
    → HoldsBytes buffer i xs
    → for_range (length xs) i (λ k. printc (buffer k)) s ≡ print_all xs s
unfolding for_range print_all
for_range-print_all i buffer [] s h = refl
for_range-print_all i buffer (x ∷ xs) s h =
    ground (arith, for_range-print_all (i + 1) buffer xs (printc x s) h.1)

-- `sys_write_console` prints as many bytes as it is told, whatever they are, and returns how many.
pub sys_write_console-print_all :
    (buffer : ℕ → ℕ) (xs : List ℕ) (s : Screen)
    → HoldsBytes buffer 0 xs
    → sys_write_console buffer (length xs) s ≡ (length xs, print_all xs s)
unfolding sys_write_console
sys_write_console-print_all buffer xs s h = ground (arith, for_range-print_all 0 buffer xs s h)
