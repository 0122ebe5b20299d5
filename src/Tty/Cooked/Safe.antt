-- ===== src/Tty/Cooked/Safe.antt =====
-- do_tty_interrupt of kernel/chr_drv/tty_io.c and the memory that it writes.
use my_linux_kernel.Common.{ℕ, ◌≡◌, refl, ap, ◌∙◌, arith, List, [], ◌∷◌, some}
use my_linux_kernel.Console.{Console}
use my_linux_kernel.Console.Valid.Chars.{write_char-IsValid}
use my_linux_kernel.Console.Bounds.{Outside, write_char-Keeps}
use my_linux_kernel.Tty.Queue.Fifo.{IsValid, contents}
use my_linux_kernel.Tty.Cooked.{Tty, do_tty_interrupt}
use my_linux_kernel.Tty.Cooked.Loop.{Emptied, show, echo_list, copy_to_cooked-Drained}
use my_linux_kernel.Console.Valid

show-IsValid : (cs : List ℕ) {s : Console} → Valid.IsValid s → Valid.IsValid (show cs s)
unfolding show
show-IsValid [] v = v
show-IsValid (c ∷ cs) v = show-IsValid cs (write_char-IsValid c v)

show-Outside :
    (cs : List ℕ) {s : Console} (b : ℕ)
    → Valid.IsValid s
    → Outside s b
    → (show cs s).vram b ≡ s.vram b
unfolding show
show-Outside [] b v out = refl
show-Outside (c ∷ cs) b v out =
    let one = write_char-Keeps b v out c in
    show-Outside cs b (write_char-IsValid c v) (ground arith) ∙ one.1

-- From a valid read queue, a valid and empty write queue and a valid screen do_tty_interrupt
-- ends. Afterwards the screen is valid, and no byte outside video memory has changed, whatever
-- bytes were read.
pub do_tty_interrupt-Outside :
    (t : Tty) (b : ℕ)
    → IsValid t.read_q
    → Emptied t.write_q
    → Valid.IsValid t.console
    → Outside t.console b
    → (t' : Tty) × (do_tty_interrupt t ≡ some t')
      × Valid.IsValid t'.console
      × (t'.console.vram b ≡ t.console.vram b)
unfolding do_tty_interrupt
do_tty_interrupt-Outside t b v w screen out =
    let (t', e, d) = copy_to_cooked-Drained t v w in
    let cs = echo_list (contents t.read_q) in
    (
      t',
      e,
      rw d.shown (show-IsValid cs screen),
      ap (λ s. s.vram b) d.shown ∙ show-Outside cs b screen out,
    )
