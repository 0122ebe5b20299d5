-- ===== src/Printk/Shown.antt =====
-- printk of kernel/printk.c: what it does to the screen.
use my_linux_kernel.Common.{ℕ, ◌≡◌, refl, ap, List, ◌∙◌, length, some}
use my_linux_kernel.Strings.Memory.{Memory}
use my_linux_kernel.Console.Valid.{IsValid}
use my_linux_kernel.Console.Bounds.{Outside, con_print-Outside}
use my_linux_kernel.Console.Cursor.{con_print_lem}
use my_linux_kernel.Tty.Cooked.{Tty, tty_write}
use my_linux_kernel.Printk.{written, printk}
use my_linux_kernel.Printk.Fits.{Fits, Fits-in_buf}

-- What printk does to the screen, and to nothing else.
pub printk-Fits :
    (m : Memory) (fmt args : List ℕ) (t : Tty)
    → Fits m fmt args
    → IsValid t.console
    → (n : ℕ) × (t' : Tty) × (printk m fmt args t ≡ some (n, t'))
      × IsValid t'.console
      × ((b : ℕ) → Outside t.console b → t'.console.vram b ≡ t.console.vram b)
      × (t'.read_q ≡ t.read_q)
unfolding printk tty_write
printk-Fits m fmt args t f v = (
  length f.out.str,
  tty_write 0 f.out.str t,
  ap (written t) f.ran ∙ rw (Fits-in_buf f) refl,
  (con_print_lem f.out.str v).0,
  λ b outside. con_print-Outside f.out.str b v outside,
  refl,
)
