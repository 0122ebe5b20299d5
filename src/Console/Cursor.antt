-- ===== src/Console/Cursor.antt =====
-- gotoxy, set_cursor and the end of con_print of kernel/chr_drv/console.c.
use my_linux_kernel.Common.{
  ℕ, ◌+◌, ◌-◌, ◌*◌, ◌/◌, ◌%◌, ◌≤◌, ◌<◌, ◌≡◌, refl, ap, ◌∙◌, ◌^◌, arith, add32, sub32, mul32, ltb,
  leb, false, ◌||◌, List, ◌∷◌,
}
use my_linux_kernel.Common.Bits.{bit_and_low}
use my_linux_kernel.Console.{Console, gotoxy, set_cursor, print_chars, con_print}
use my_linux_kernel.Console.Valid.{IsValid, line_room, pos-le-scr_end}
use my_linux_kernel.Console.Valid.Chars.{print_chars-IsValid}

-- The address that gotoxy computes for a place on the screen does not wrap.
place :
    {s : Console} (new_x new_y : ℕ)
    → IsValid s
    → new_x ≤ s.video_num_columns
    → new_y < s.video_num_lines
    → add32 (add32 s.origin (mul32 new_y s.video_size_row)) (mul32 new_x 2)
      ≡ s.origin + new_y * s.video_size_row + new_x * 2
place {s} new_x new_y v in_line in_screen =
    omega (arith, line_room new_y s.video_num_lines s.video_size_row in_screen)

-- The cursor that con_print sets at its end is the one that its characters have left.
gotoxy_same : {s : Console} → IsValid s → gotoxy s.x s.y s ≡ s
unfolding gotoxy
gotoxy_same {s} v =
    let on : (ltb s.video_num_columns s.x || leb s.video_num_lines s.y) ≡ false = ground arith in
    rw (on, place s.x s.y v v.column v.line, ← v.cursor)

-- The CRT controller's cursor registers 14 and 15 get the bytes of the cursor's index in video
-- memory, counted in characters.
abbrev pub cursor_index : Console → ℕ
cursor_index s = (s.origin - s.video_mem_base) / 2 + s.y * s.video_num_columns + s.x

abbrev pub cursor_writes : Console → List (ℕ × ℕ)
cursor_writes s =
    (cursor_index s % 256, s.video_port_val)
    ∷ (15, s.video_port_reg)
    ∷ (cursor_index s / 256, s.video_port_val)
    ∷ (14, s.video_port_reg)
    ∷ s.ports

-- what set_cursor and set_origin leave alone
set_cursor-ports : {s : Console} → IsValid s → set_cursor s ≡ record s { ports = cursor_writes s }
unfolding set_cursor
set_cursor-ports {s} v = rw (
  bit_and_low 8 (sub32 s.pos s.video_mem_base / 2) 0xff refl,
  bit_and_low 8 (sub32 s.pos s.video_mem_base / 512) 0xff refl,
  low,
  high,
)
  where
    place : s.y * s.video_size_row ≡ 2 * (s.y * s.video_num_columns)
    place = omega (arith, ap (λ (r : ℕ). s.y * r) v.row)

    index : sub32 s.pos s.video_mem_base / 2 ≡ cursor_index s
    index = omega (arith, pos-le-scr_end v, place)

    low : sub32 s.pos s.video_mem_base / 2 % 2 ^ 8 % 256 ≡ cursor_index s % 256
    low = omega (arith, index)

    high : sub32 s.pos s.video_mem_base / 512 % 2 ^ 8 % 256 ≡ cursor_index s / 256
    high = omega (arith, index, pos-le-scr_end v, place)

-- con_print keeps a valid screen valid, whatever it prints, and ends by setting the hardware
-- cursor to the place where its characters have left the cursor: nothing else differs from the
-- screen that the characters leave.
pub con_print_lem :
    {s : Console} (buf : List ℕ)
    → IsValid s
    → let t = print_chars buf s in
      IsValid (con_print buf s) × (con_print buf s ≡ record t { ports = cursor_writes t })
unfolding con_print
con_print_lem {s} buf v = (rw done (omega (arith, w)), done)
  where
    w : IsValid (print_chars buf s)
    w = print_chars-IsValid buf v

    done :
        con_print buf s ≡ record (print_chars buf s) { ports = cursor_writes (print_chars buf s) }
    done = ap set_cursor (gotoxy_same w) ∙ set_cursor-ports w
