-- ===== src/Console.antt =====
-- kernel/chr_drv/console.c: the text screen in video memory.
-- Addresses and the counters x, y are 32-bit words; `vram` gives the byte at each address, and
-- `ports` lists the bytes written to I/O ports, the newest first, each with its port. `cli` and
-- `sti` round the port writes have no counterpart, since nothing interleaves with one function.
pub mod Video
pub mod Cursor
pub mod Valid
pub mod Scroll
pub mod Bounds
pub mod Init
mod Tests
use my_linux_kernel.Console.Video.{Vram, store8, store16, rep_movsl, rep_stosw}
use my_linux_kernel.Common.{
  ℕ, zero, suc, ◌+◌, ◌-◌, ◌*◌, ◌/◌, ◌==◌, ◌&&◌, ◌||◌, Bool, List, [], ◌∷◌, bit_and, ltb, leb, u8,
  add32, sub32, mul32, if◌then◌else◌, not,
}

pub record Console : Type 0 where
  pub video_num_columns : ℕ
  pub video_num_lines : ℕ
  pub video_mem_base : ℕ
  pub video_mem_end : ℕ
  pub video_size_row : ℕ
  pub video_port_reg : ℕ
  pub video_port_val : ℕ
  pub video_erase_char : ℕ
  pub origin : ℕ
  pub scr_end : ℕ
  pub pos : ℕ
  pub x : ℕ
  pub y : ℕ
  pub top : ℕ
  pub bottom : ℕ
  pub attr : ℕ
  pub vram : Vram
  pub ports : List (ℕ × ℕ)

-- A cursor out of bounds changes nothing.
unfoldable pub gotoxy : ℕ → ℕ → Console → Console
gotoxy new_x new_y s =
    if ltb s.video_num_columns new_x || leb s.video_num_lines new_y then s else record s {
      x = new_x;
      y = new_y;
      pos = add32 (add32 s.origin (mul32 new_y s.video_size_row)) (mul32 new_x 2);
    }

-- `outb_p(value, port)`
unfoldable pub outb : ℕ → ℕ → Console → Console
outb value port s = record s { ports = (u8 value, port) ∷ s.ports }

-- Four writes: the CRT controller's registers `hi` and `hi + 1` get the two bytes of the word
-- offset of `addr` in video memory.
unfoldable pub write_crt : ℕ → ℕ → Console → Console
unfolding outb
write_crt hi addr s =
    let offset = sub32 addr s.video_mem_base in
    outb (bit_and (offset / 2) 0xff) s.video_port_val (
      outb (hi + 1) s.video_port_reg
        (outb (bit_and (offset / 512) 0xff) s.video_port_val (outb hi s.video_port_reg s)))

unfoldable pub set_cursor : Console → Console
unfolding write_crt
set_cursor s = write_crt 14 s.pos s

unfoldable pub set_origin : Console → Console
unfolding write_crt
set_origin s = write_crt 12 s.origin s

-- The screen is copied back to the start of video memory, and its last line is erased: `edi` goes
-- on from `movsl` to `stosw`.
unfoldable pub scroll_wrap : Console → Console
scroll_wrap s =
    let count = mul32 (sub32 s.video_num_lines 1) s.video_num_columns / 2 in
    let copied = rep_movsl count s.origin s.video_mem_base s.vram in
    let back = sub32 s.origin s.video_mem_base in
    record s {
      vram = rep_stosw s.video_num_columns (s.video_mem_base + count * 4) s.video_erase_char copied;
      scr_end = sub32 s.scr_end back;
      pos = sub32 s.pos back;
      origin = s.video_mem_base;
    }

-- The new last line is erased.
unfoldable pub scroll_on : Console → Console
scroll_on s = record s {
  vram = rep_stosw s.video_num_columns (sub32 s.scr_end s.video_size_row) s.video_erase_char s.vram;
}

-- The lines from `top` to `bottom` are moved up within the screen.
unfoldable pub scroll_region : Console → Console
scroll_region s =
    let count = mul32 (sub32 (sub32 s.bottom s.top) 1) s.video_num_columns / 2 in
    let to = add32 s.origin (mul32 s.video_size_row s.top) in
    let from = add32 s.origin (mul32 s.video_size_row (add32 s.top 1)) in
    record s {
      vram =
          rep_stosw s.video_num_columns (to + count * 4) s.video_erase_char
            (rep_movsl count from to s.vram);
    }

-- The three moves of the window by one row.
unfoldable pub advance : Console → Console
advance s = record s {
  origin = add32 s.origin s.video_size_row;
  pos = add32 s.pos s.video_size_row;
  scr_end = add32 s.scr_end s.video_size_row;
}

unfoldable pub scroll_up : Console → Console
unfolding scroll_wrap scroll_on scroll_region advance
scroll_up s =
    if s.top == 0 && s.bottom == s.video_num_lines
    then (let moved = advance s in
        set_origin
          (if ltb moved.video_mem_end moved.scr_end then scroll_wrap moved else scroll_on moved))
    else scroll_region s

unfoldable pub lf : Console → Console
lf s =
    if ltb (add32 s.y 1) s.bottom
    then record s { y = add32 s.y 1; pos = add32 s.pos s.video_size_row }
    else scroll_up s

unfoldable pub cr : Console → Console
cr s = record s { pos = sub32 s.pos (mul32 s.x 2); x = 0 }

unfoldable pub del : Console → Console
del s =
    if s.x == 0
    then s
    else (let back = sub32 s.pos 2 in
        record s { pos = back; x = sub32 s.x 1; vram = store16 s.vram back s.video_erase_char })

-- The cursor goes to the start of the next line.
unfoldable pub next_line : Console → Console
next_line s =
    lf (record s { x = sub32 s.x s.video_num_columns; pos = sub32 s.pos s.video_size_row })

-- The check at the head of the branch of a printable character.
unfoldable pub break_line : Console → Console
unfolding next_line
break_line s = if leb s.video_num_columns s.x then next_line s else s

-- The branch of a printable character.
unfoldable pub put_char : ℕ → Console → Console
unfolding break_line
put_char c s =
    let t = break_line s in
    record t {
      vram = store8 (store8 t.vram t.pos c) (t.pos + 1) (u8 t.attr);
      pos = add32 t.pos 2;
      x = add32 t.x 1;
    }

unfoldable pub back_space : Console → Console
back_space s = if s.x == 0 then s else record s { x = sub32 s.x 1; pos = sub32 s.pos 2 }

-- To the next column that is a multiple of 8.
unfoldable pub tab : Console → Console
unfolding next_line
tab s =
    let c = 8 - bit_and s.x 7 in
    let t = record s { x = add32 s.x c; pos = add32 s.pos (c * 2) } in
    if ltb t.video_num_columns t.x then next_line t else t

-- The body of the loop of `con_print`. A `char` above 127 is negative there, and takes no branch.
unfoldable pub print_char : ℕ → Console → Console
print_char c s =
    if ltb 31 c && ltb c 127
    then put_char c s
    else (if c == 10 || c == 11 || c == 12
        then lf s
        else if c == 13
        then cr s
        else if c == 127
        then del s
        else if c == 8
        then back_space s
        else s)

unfoldable pub print_chars : List ℕ → Console → Console
print_chars [] s = s
print_chars (c ∷ cs) s = print_chars cs (print_char c s)

-- `buf` is the list of its `nr` characters.
unfoldable pub con_print : List ℕ → Console → Console
unfolding print_chars
con_print buf s = let t = print_chars buf s in set_cursor (gotoxy t.x t.y t)

-- The body of the loop of `con_write`, which handles the tab as well.
unfoldable pub write_char : ℕ → Console → Console
write_char c s =
    if ltb 31 c && ltb c 127
    then put_char c s
    else (if c == 10 || c == 11 || c == 12
        then lf s
        else (if c == 13
            then cr s
            else (if c == 127
                then del s
                else if c == 8
                then back_space s
                else if c == 9
                then tab s
                else s)))
