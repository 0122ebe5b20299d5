-- ===== src/Printk/Tests.antt =====
-- A witness of the theorem on printk: "%d" on a screen of two lines with 8 columns.
use my_linux_kernel.Common.{ℕ, ◌%◌, ◌<◌, refl, arith, []}
use my_linux_kernel.Strings.Memory.{Memory, IsString, all_addresses}
use my_linux_kernel.Console.{Console}
use my_linux_kernel.Console.Valid.{IsValid}
use my_linux_kernel.Tty.Queue.{new_queue}
use my_linux_kernel.Tty.Cooked.{Tty}
use my_linux_kernel.Printk.Fits.{Fits}

abbrev pub screen : Console
screen = record {
  video_num_columns = 8;
  video_num_lines = 2;
  video_mem_base = 0xb8000;
  video_mem_end = 0xb8040;
  video_size_row = 16;
  video_port_reg = 0x3d4;
  video_port_val = 0x3d5;
  video_erase_char = 0x0720;
  origin = 0xb8020;
  scr_end = 0xb8040;
  pos = 0xb8036;
  x = 3;
  y = 1;
  top = 0;
  bottom = 2;
  attr = 7;
  vram = λ a. a % 256;
  ports = [];
}

pub screen-IsValid : IsValid screen
screen-IsValid = record {
  wide = omega arith;
  columns_byte = omega arith;
  lines_byte = omega arith;
  row = refl;
  fits = omega arith;
  bank = omega arith;
  low = omega arith;
  whole = refl;
  all_lines = refl;
  above_base = omega arith;
  window = refl;
  below_end = omega arith;
  line = omega arith;
  column = omega arith;
  cursor = refl;
}

abbrev pub terminal : Tty
terminal = record { read_q = new_queue; write_q = new_queue; console = screen }

-- Every string is empty.
abbrev pub no_strings : Memory
no_strings a = 0

pub no_strings-IsString : (s : ℕ) → (n : ℕ) × IsString no_strings s n × (n < all_addresses)
no_strings-IsString s =
    (0, record { before = λ i small. absurd (omega arith); here = refl }, omega arith)
