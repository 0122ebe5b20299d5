-- ===== src/Tty/Cooked.antt =====
-- copy_to_cooked, do_tty_interrupt and tty_write of kernel/chr_drv/tty_io.c, and con_write of
-- kernel/chr_drv/console.c, which empties the write queue onto the screen.
pub mod Loop
pub mod Safe
mod Tests
use my_linux_kernel.Common.{
  ℕ, zero, suc, ◌+◌, ◌-◌, ◌==◌, ◌&&◌, ◌||◌, Bool, List, [], ◌∷◌, Option, none, some, ltb, leb, u8,
  if◌then◌else◌,
}
use my_linux_kernel.Tty.Queue.{TtyQueue, tty_buf_size, chars, putch, getch, empty}
use my_linux_kernel.Console.{Console, con_print, write_char}

-- `read_q`, `write_q` and the screen
pub record Tty : Type 0 where
  pub read_q : TtyQueue
  pub write_q : TtyQueue
  pub console : Console

-- The loop of con_write, with `nr` rounds left. con_write alone moves no cursor of the hardware.
unfoldable pub con_write_loop : ℕ → TtyQueue → Console → TtyQueue × Console
con_write_loop zero q s = (q, s)
con_write_loop (suc nr) q s = let (c, q') = getch q in con_write_loop nr q' (write_char c s)

unfoldable pub con_write : Tty → Tty
con_write t =
    let (q, s) = con_write_loop (chars t.write_q) t.write_q t.console in
    record t { write_q = q; console = s }

-- What is put for one character: `c` is a signed char, so a byte above 127 is below 32.
unfoldable pub put_cooked : ℕ → TtyQueue → TtyQueue
put_cooked c q =
    if c == 10
    then putch 13 (putch 10 q)
    else (if c == 8 || c == 9 || c == 13
        then putch c q
        else (if leb 32 c && ltb c 127
            then putch c q
            else if ltb c 32 || ltb 127 c
            then putch (u8 (c + 64)) (putch b'^' q)
            else putch c q))

-- One round of the loop of copy_to_cooked.
unfoldable pub cook : Tty → Tty
cook t =
    let (c, q) = getch t.read_q in
    con_write (record t { read_q = q; write_q = put_cooked c t.write_q })

-- The loop on fuel; `none` means that the fuel ran out.
unfoldable pub copy_loop : ℕ → Tty → Option Tty
copy_loop zero t = none
copy_loop (suc n) t = let rest = copy_loop n (cook t) in if empty t.read_q then some t else rest

-- As many rounds as the queue has places.
unfoldable pub copy_to_cooked : Tty → Option Tty
unfolding copy_loop cook
copy_to_cooked t = copy_loop tty_buf_size t

unfoldable pub do_tty_interrupt : Tty → Option Tty
unfolding copy_to_cooked
do_tty_interrupt t = copy_to_cooked t

-- The channel is not looked at. `buf` is the list of the `nr` characters.
unfoldable pub tty_write : ℕ → List ℕ → Tty → Tty
tty_write channel buf t = record t { console = con_print buf t.console }
