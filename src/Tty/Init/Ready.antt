-- ===== src/Tty/Init/Ready.antt =====
-- tty_init of kernel/chr_drv/tty_io.c: the terminal that it leaves.
use my_linux_kernel.Common.{ℕ, ◌≡◌, []}
use my_linux_kernel.Console.Valid
use my_linux_kernel.Console.Init.Screen.{IsUsable, con_init-IsValid}
use my_linux_kernel.Tty.Queue.Fifo.{IsValid, contents, new_queue-IsValid, contents-new_queue}
use my_linux_kernel.Tty.Cooked.{Tty}
use my_linux_kernel.Tty.Init.{tty_init}

-- The queues are ready and empty, and the screen is valid.
pub record IsReady (t : Tty) : Type 0 where
  pub reads : IsValid t.read_q
  pub writes : IsValid t.write_q
  pub nothing_read : contents t.read_q ≡ []
  pub nothing_written : contents t.write_q ≡ []
  pub screen : Valid.IsValid t.console

-- Where the BIOS reports lines of at least 8 columns that fit into the display's memory, and a
-- cursor on one of them, tty_init leaves two valid, empty queues and a valid screen.
pub tty_init-IsReady :
    (bios : ℕ → ℕ) (mask a : ℕ) (t : Tty) → IsUsable bios → IsReady (tty_init bios mask a t)
unfolding tty_init
tty_init-IsReady bios mask a t u = record {
  reads = new_queue-IsValid;
  writes = new_queue-IsValid;
  nothing_read = contents-new_queue;
  nothing_written = contents-new_queue;
  screen = con_init-IsValid bios mask a t.console u;
}
