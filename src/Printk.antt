-- ===== src/Printk.antt =====
-- printk of kernel/printk.c: vsprintf into `buf`, which tty_write shows. The assembler text pushes
-- the arguments of tty_write from the last to the first, so the channel is 0.
pub mod Fits
pub mod Shown
pub mod Tests
use my_linux_kernel.Common.{
  ℕ, ◌&&◌, Bool, true, false, ltb, List, [], ◌∷◌, length, Option, none, some, if◌then◌else◌,
}
use my_linux_kernel.Strings.Memory.{Memory}
use my_linux_kernel.Tty.Cooked.{Tty, tty_write}
use my_linux_kernel.Vsprintf.Format.{Out, vsprintf}

abbrev pub is_empty : List (ℕ × ℕ) → Bool
is_empty [] = true
is_empty (x ∷ xs) = false

-- sizeof(buf)
abbrev pub buf_size : ℕ
buf_size = 1024

-- The text and its NUL fit into `buf`, and %n has written no word: where not, other memory has been
-- overwritten, and there is no result.
abbrev pub in_buf : Out → Bool
in_buf out = ltb (length out.str) buf_size && is_empty out.stores

abbrev pub written : Tty → Option Out → Option (ℕ × Tty)
written t none = none
written t (some out) = if in_buf out then some (length out.str, tty_write 0 out.str t) else none

unfoldable pub printk : Memory → List ℕ → List ℕ → Tty → Option (ℕ × Tty)
printk m fmt args t = written t (vsprintf m fmt args)
