-- ===== src/Console/Init/Screen.antt =====
-- con_init of kernel/chr_drv/console.c: the screen that it leaves.
use my_linux_kernel.Common.{
  ℕ, ◌+◌, ◌*◌, ◌≤◌, ◌<◌, ◌≡◌, ◌||◌, refl, ap, ◌∙◌, arith, false, leb, ltb, add32, mul32,
  if◌then◌else◌,
}
use my_linux_kernel.Console.{Console, gotoxy, set_cursor, write_crt, outb}
use my_linux_kernel.Console.Valid.{IsValid, line_room}
use my_linux_kernel.Console.Init.{
  orig_x, orig_y, orig_video_cols, orig_video_lines, is_ega, is_mono, with_display, con_init,
}

-- What the data of the BIOS have to be: lines of at least 8 columns that fit into the memory of the
-- display, and the cursor on one of them.
pub record IsUsable (bios : ℕ → ℕ) : Type 0 where
  pub wide : 8 ≤ orig_video_cols bios
  pub fits : orig_video_lines bios * (orig_video_cols bios * 2) ≤ (
      if is_mono bios
      then if is_ega bios then 0x8000 else 0x2000
      else if is_ega bios
      then 0x8000
      else 0x2000)
  pub line : orig_y bios < orig_video_lines bios
  pub column : orig_x bios ≤ orig_video_cols bios

-- The screen in the memory from `base` to `last`, with the cursor at `x` and `y`.
record Laid (c l base last x y : ℕ) : Type 0 where
  pub columns : (8 ≤ c) × (c < 256)
  pub lines : l < 256
  pub memory : (0xb0000 ≤ base) × (last ≤ base + 0x8000) × (last ≤ 0xc0000)
  pub room : base + l * (c * 2) ≤ last
  pub cursor : (y < l) × (x ≤ c)

Laid-IsValid :
    {s : Console}
    → Laid s.video_num_columns s.video_num_lines s.video_mem_base s.video_mem_end s.x s.y
    → s.video_size_row ≡ mul32 s.video_num_columns 2
    → (s.top ≡ 0) × (s.bottom ≡ s.video_num_lines)
    → s.origin ≡ s.video_mem_base
    → s.scr_end ≡ add32 s.video_mem_base (mul32 s.video_num_lines s.video_size_row)
    → s.pos ≡ add32 (add32 s.origin (mul32 s.y s.video_size_row)) (mul32 s.x 2)
    → IsValid s
Laid-IsValid {s} d row whole origin end pos =
    let c = s.video_num_columns in
    let width : s.video_size_row ≡ c * 2 = row ∙ omega (arith, d.columns.1) in
    let area : s.video_num_lines * s.video_size_row ≡ s.video_num_lines * (c * 2) =
      ap (λ (r : ℕ). s.video_num_lines * r) width in
    let above = line_room s.y s.video_num_lines s.video_size_row d.cursor.0 in
    record {
      wide = d.columns.0;
      columns_byte = d.columns.1;
      lines_byte = d.lines;
      row = width;
      fits = omega (arith, d.room, area);
      bank = d.memory.1;
      low = d.memory.2;
      whole = whole.0;
      all_lines = whole.1;
      above_base = omega arith;
      window = omega (arith, d.room, area, d.memory);
      below_end = omega (arith, d.room, area, d.memory);
      line = d.cursor.0;
      column = d.cursor.1;
      cursor = omega (arith, d.room, area, d.memory, d.cursor, d.columns, above);
    }

laid :
    (bios : ℕ → ℕ) (s : Console)
    → IsUsable bios
    → let t = with_display bios s in
      Laid t.video_num_columns t.video_num_lines t.video_mem_base t.video_mem_end
        (orig_x bios)
        (orig_y bios)
laid bios s u = record {
  columns = (u.wide, omega arith);
  lines = omega arith;
  memory = ground arith;
  room = ground (arith, u.fits);
  cursor = (u.line, u.column);
}

placed :
    (bios : ℕ → ℕ) (s : Console)
    → IsUsable bios
    → IsValid (gotoxy (orig_x bios) (orig_y bios) (with_display bios s))
unfolding gotoxy
placed bios s u =
    let inside : ltb (orig_video_cols bios) (orig_x bios)
          || leb (orig_video_lines bios) (orig_y bios)
        ≡ false =
      ground (arith, u.line, u.column) in
    rw inside (Laid-IsValid (laid bios s u) refl (refl, refl) refl refl refl)

pub con_init-IsValid :
    (bios : ℕ → ℕ) (mask a : ℕ) (s : Console) → IsUsable bios → IsValid (con_init bios mask a s)
unfolding con_init set_cursor write_crt outb
con_init-IsValid bios mask a s u = let v = placed bios s u in omega (arith, v)
