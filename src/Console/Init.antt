-- ===== src/Console/Init.antt =====
-- con_init of kernel/chr_drv/console.c. `bios` gives the bytes that setup.S has left at 0x90000,
-- which con_init only reads.
pub mod Screen
use my_linux_kernel.Common.{
  ℕ, ◌+◌, ◌*◌, ◌/◌, ◌%◌, ◌==◌, not, Bool, List, [], ◌∷◌, u8, bit_and, bit_or, add32, sub32, mul32,
  if◌then◌else◌,
}
use my_linux_kernel.Console.{Console, gotoxy, outb, set_cursor}
use my_linux_kernel.Console.Video.{Vram, store8}
use my_linux_kernel.Segments.{Desc, put_desc, set_trap_gate}

abbrev pub read16 : (ℕ → ℕ) → ℕ → ℕ
read16 bios a = u8 (bios a) + u8 (bios (a + 1)) * 256

abbrev pub orig_x : (ℕ → ℕ) → ℕ
orig_x bios = u8 (bios 0x90000)

abbrev pub orig_y : (ℕ → ℕ) → ℕ
orig_y bios = u8 (bios 0x90001)

abbrev pub orig_video_mode : (ℕ → ℕ) → ℕ
orig_video_mode bios = read16 bios 0x90006 % 256

abbrev pub orig_video_cols : (ℕ → ℕ) → ℕ
orig_video_cols bios = read16 bios 0x90006 / 256

abbrev pub orig_video_lines : (ℕ → ℕ) → ℕ
orig_video_lines bios = read16 bios 0x9000e % 256

-- `ORIG_VIDEO_EGA_BX & 0xff` is not 0x10: an EGA or VGA display.
abbrev pub is_ega : (ℕ → ℕ) → Bool
is_ega bios = not (read16 bios 0x9000a % 256 == 0x10)

abbrev pub is_mono : (ℕ → ℕ) → Bool
is_mono bios = orig_video_mode bios == 7

-- "EGAm", "*MDA", "EGAc" and "*CGA"
abbrev pub display_desc : (ℕ → ℕ) → List ℕ
display_desc bios =
    if is_mono bios
    then if is_ega bios then 69 ∷ 71 ∷ 65 ∷ 109 ∷ [] else 42 ∷ 77 ∷ 68 ∷ 65 ∷ []
    else if is_ega bios
    then 69 ∷ 71 ∷ 65 ∷ 99 ∷ []
    else 42 ∷ 67 ∷ 71 ∷ 65 ∷ []

-- The loop that writes the description, every second byte.
unfoldable pub put_desc_text : List ℕ → ℕ → Vram → Vram
unfolding store8
put_desc_text [] p m = m
put_desc_text (c ∷ cs) p m = put_desc_text cs (add32 p 2) (store8 m p c)

-- The variables up to `bottom`.
abbrev pub with_display : (ℕ → ℕ) → Console → Console
with_display bios s =
    let mono = is_mono bios in
    let ega = is_ega bios in
    let base = if mono then 0xb0000 else 0xb8000 in
    let last =
      if mono then if ega then 0xb8000 else 0xb2000 else if ega then 0xc0000 else 0xba000 in
    let row = mul32 (orig_video_cols bios) 2 in
    record s {
      video_num_columns = orig_video_cols bios;
      video_num_lines = orig_video_lines bios;
      video_mem_base = base;
      video_mem_end = last;
      video_size_row = row;
      video_port_reg = if mono then 0x3b4 else 0x3d4;
      video_port_val = if mono then 0x3b5 else 0x3d5;
      video_erase_char = 0x0720;
      origin = base;
      scr_end = add32 base (mul32 (orig_video_lines bios) row);
      top = 0;
      bottom = orig_video_lines bios;
      vram = put_desc_text (display_desc bios) (sub32 (add32 base (mul32 row 2)) 8) s.vram;
    }

-- `mask` and `a` are what the ports 0x21 and 0x61 read.
unfoldable pub con_init : (ℕ → ℕ) → ℕ → ℕ → Console → Console
unfolding outb
con_init bios mask a s =
    let shown = set_cursor (gotoxy (orig_x bios) (orig_y bios) (with_display bios s)) in
    outb a 0x61 (outb (bit_or a 0x80) 0x61 (outb (bit_and mask 0xfd) 0x21 shown))

-- `set_trap_gate(0x21, &keyboard_interrupt)`
abbrev pub keyboard_gate : ℕ → (ℕ → Desc) → ℕ → Desc
keyboard_gate keyboard_interrupt idt = put_desc 0x21 (set_trap_gate keyboard_interrupt) idt
