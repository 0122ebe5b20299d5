-- ===== src/Console/Tests.antt =====
-- Runs of the console, and witnesses of its theorems, on a screen of two lines with 8 columns, in
-- video memory that has room for four lines.
use my_linux_kernel.Common.{◌+◌, ◌%◌, ◌≡◌, refl, arith, inl, [], ◌∷◌}
use my_linux_kernel.Console.{Console, scroll_up, print_chars, con_print, put_char, break_line}
use my_linux_kernel.Console.Video.{store8}
use my_linux_kernel.Console.Cursor.{cursor_writes, con_print_lem}
use my_linux_kernel.Console.Scroll.{scrolled, scroll_up-scrolled}
use my_linux_kernel.Console.Bounds.{con_print-Outside}
use my_linux_kernel.Console.Valid.{IsValid}

abbrev screen : Console
screen = record {
  video_num_columns = 8;
  video_num_lines = 2;
  video_mem_base = 0xb8000;
  video_mem_end = 0xb8040;
  video_size_row = 16;
  video_port_reg = 0x3d4;
  video_port_val = 0x3d5;
  video_erase_char = 0x0720;
  origin = 0xb8020;
  scr_end = 0xb8040;
  pos = 0xb8036;
  x = 3;
  y = 1;
  top = 0;
  bottom = 2;
  attr = 7;
  vram = λ a. a % 256;
  ports = [];
}

screen-IsValid : IsValid screen
screen-IsValid = record {
  wide = omega arith;
  columns_byte = omega arith;
  lines_byte = omega arith;
  row = refl;
  fits = omega arith;
  bank = omega arith;
  low = omega arith;
  whole = refl;
  all_lines = refl;
  above_base = omega arith;
  window = refl;
  below_end = omega arith;
  line = omega arith;
  column = omega arith;
  cursor = refl;
}

stored : (put_char 65 screen).vram 0xb8036 ≡ 65
unfolding put_char break_line store8
stored = refl

scroll_up-scrolled_example :
    (scroll_up screen).vram ((scroll_up screen).origin + 5) ≡ scrolled screen 5
scroll_up-scrolled_example = scroll_up-scrolled screen-IsValid 5 (omega arith) refl

con_print_lem_example :
    IsValid (con_print (65 ∷ 10 ∷ 66 ∷ []) screen)
    × (con_print (65 ∷ 10 ∷ 66 ∷ []) screen ≡ record (print_chars (65 ∷ 10 ∷ 66 ∷ []) screen) {
      ports = cursor_writes (print_chars (65 ∷ 10 ∷ 66 ∷ []) screen);
    })
con_print_lem_example = con_print_lem (65 ∷ 10 ∷ 66 ∷ []) screen-IsValid

con_print-Outside_example : (con_print (65 ∷ 10 ∷ 66 ∷ []) screen).vram 0x100 ≡ 0
con_print-Outside_example =
    con_print-Outside (65 ∷ 10 ∷ 66 ∷ []) 0x100 screen-IsValid (inl (omega arith))
