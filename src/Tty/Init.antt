-- ===== src/Tty/Init.antt =====
-- tty_init of kernel/chr_drv/tty_io.c, with con_init of kernel/chr_drv/console.c.
pub mod Ready
use my_linux_kernel.Common.{ℕ}
use my_linux_kernel.Console.Init.{con_init}
use my_linux_kernel.Tty.Queue.{new_queue}
use my_linux_kernel.Tty.Cooked.{Tty}

-- `bios` is what setup.S has left, `mask` and `a` what the ports 0x21 and 0x61 read.
unfoldable pub tty_init : (ℕ → ℕ) → ℕ → ℕ → Tty → Tty
tty_init bios mask a t = record {
  read_q = new_queue;
  write_q = new_queue;
  console = con_init bios mask a t.console;
}
