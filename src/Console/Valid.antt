-- ===== src/Console/Valid.antt =====
-- The invariant of kernel/chr_drv/console.c: the window and the cursor in video memory.
pub mod Scroll
pub mod Chars
use my_linux_kernel.Common.{ℕ, ◌+◌, ◌*◌, ◌≤◌, ◌<◌, ◌≡◌, arith, List, add32}
use my_linux_kernel.Console.{Console}
use my_linux_kernel.Console.Video.{Vram}

-- The numbers of columns and lines are bytes, and a tab stop fits in a line. The screen shows all
-- its lines between `origin` and `scr_end`, and the cursor stands at column `x` of line `y`, or
-- behind the last column.
pub record IsValid (s : Console) : Type 0 where
  pub wide : 8 ≤ s.video_num_columns
  pub columns_byte : s.video_num_columns < 256
  pub lines_byte : s.video_num_lines < 256
  pub row : s.video_size_row ≡ s.video_num_columns * 2
  pub fits : s.video_mem_base + s.video_num_lines * s.video_size_row ≤ s.video_mem_end
  pub bank : s.video_mem_end ≤ s.video_mem_base + 0x8000
  pub low : s.video_mem_end ≤ 0xc0000
  pub whole : s.top ≡ 0
  pub all_lines : s.bottom ≡ s.video_num_lines
  pub above_base : s.video_mem_base ≤ s.origin
  pub window : s.scr_end ≡ s.origin + s.video_num_lines * s.video_size_row
  pub below_end : s.scr_end ≤ s.video_mem_end
  pub line : s.y < s.video_num_lines
  pub column : s.x ≤ s.video_num_columns
  pub cursor : s.pos ≡ s.origin + s.y * s.video_size_row + s.x * 2

pub line_room : (y lines row : ℕ) → y < lines → y * row + row ≤ lines * row
line_room y lines row h = grind arith

-- The fields that the output functions write, anew.
pub moved :
    {s : Console} (o e p x' y' : ℕ) (m : Vram) (io : List (ℕ × ℕ))
    → IsValid s
    → s.video_mem_base ≤ o
    → e ≡ o + s.video_num_lines * s.video_size_row
    → e ≤ s.video_mem_end
    → y' < s.video_num_lines
    → x' ≤ s.video_num_columns
    → p ≡ o + y' * s.video_size_row + x' * 2
    → IsValid (record s { origin = o; scr_end = e; pos = p; x = x'; y = y'; vram = m; ports = io })
moved o e p x' y' m io v a b c d f g = omega arith

-- The cursor is on the screen, or just behind it.
pub pos-le-scr_end : {s : Console} → IsValid s → s.pos ≤ s.scr_end
pos-le-scr_end {s} v = omega (arith, line_room s.y s.video_num_lines s.video_size_row v.line)

-- No sum of an address on the screen and a row wraps.
pub add32-row :
    {s : Console} (a : ℕ)
    → IsValid s
    → a ≤ s.scr_end
    → add32 a s.video_size_row ≡ a + s.video_size_row
add32-row a v low = omega arith
