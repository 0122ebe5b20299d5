-- ===== src/Tty/Queue.antt =====
-- `struct tty_queue` of include/linux/tty.h with CHARS, PUTCH, GETCH and EMPTY of
-- kernel/chr_drv/tty_io.c. A character is its byte, 0 to 255. `proc_list` is an address that the
-- source never reads. A read outside `buf` is 0 and a write there is lost; `head`
-- and `tail` stay below the size of `buf`, so neither happens.
pub mod Fifo
pub mod Script
mod Tests
use my_linux_kernel.Common.{
  ℕ, ◌+◌, ◌-◌, ◌==◌, Bool, List, bit_and, add32, sub32, get_or, set, replicate,
}

abbrev pub tty_buf_size : ℕ
tty_buf_size = 1024

pub record TtyQueue : Type 0 where
  pub queue_data : ℕ
  pub head : ℕ
  pub tail : ℕ
  pub proc_list : ℕ
  pub buf : List ℕ

-- `{0, 0, 0, 0, ""}`
unfoldable pub new_queue : TtyQueue
new_queue = record {
  queue_data = 0;
  head = 0;
  tail = 0;
  proc_list = 0;
  buf = replicate tty_buf_size 0;
}

unfoldable pub chars : TtyQueue → ℕ
chars q = bit_and (sub32 q.head q.tail) (tty_buf_size - 1)

unfoldable pub putch : ℕ → TtyQueue → TtyQueue
putch c q = record q {
  buf = set q.buf q.head c;
  head = bit_and (add32 q.head 1) (tty_buf_size - 1);
}

unfoldable pub getch : TtyQueue → ℕ × TtyQueue
getch q = (get_or q.buf q.tail 0, record q { tail = bit_and (add32 q.tail 1) (tty_buf_size - 1) })

unfoldable pub empty : TtyQueue → Bool
empty q = q.head == q.tail
