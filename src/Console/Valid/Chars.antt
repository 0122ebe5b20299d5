-- ===== src/Console/Valid/Chars.antt =====
-- The invariant of the screen through each character of con_print and con_write.
use my_linux_kernel.Common.{
  ℕ, ◌+◌, ◌-◌, ◌*◌, ◌%◌, ◌≤◌, ◌<◌, ◌≡◌, refl, arith, add32, sub32, mul32, ltb, leb, Bool-cases, inl,
  inr, ltb→lt, leb→le, ◌==◌, List, [], ◌∷◌, if◌then◌else◌,
}
use my_linux_kernel.Common.Bits.{bit_and_low}
use my_linux_kernel.Console.{
  Console, next_line, cr, del, break_line, put_char, back_space, tab, print_char, print_chars,
  write_char,
}
use my_linux_kernel.Console.Valid.{IsValid, line_room, moved, pos-le-scr_end}
use my_linux_kernel.Console.Valid.Scroll.{lf-IsValid, lf-x, SameScreen}

-- A cursor up to a tab stop behind the last column, taken back by a line.
pub carried-IsValid :
    {s : Console} (x' p : ℕ)
    → IsValid s
    → s.video_num_columns ≤ x'
    → x' ≤ s.video_num_columns + 8
    → p ≡ s.origin + s.y * s.video_size_row + x' * 2
    → IsValid (record s { x = sub32 x' s.video_num_columns; pos = sub32 p s.video_size_row })
carried-IsValid {s} x' p v over near at =
    moved s.origin s.scr_end (sub32 p s.video_size_row) (sub32 x' s.video_num_columns) s.y s.vram
      s.ports v v.above_base v.window v.below_end v.line (omega arith)
      (omega (arith, pos-le-scr_end v, line_room s.y s.video_num_lines s.video_size_row v.line))

pub next_line-IsValid :
    {s : Console} (x' p : ℕ)
    → IsValid s
    → s.video_num_columns ≤ x'
    → x' ≤ s.video_num_columns + 8
    → p ≡ s.origin + s.y * s.video_size_row + x' * 2
    → IsValid (next_line (record s { x = x'; pos = p }))
unfolding next_line
next_line-IsValid x' p v over near at = lf-IsValid (carried-IsValid x' p v over near at)

cr-IsValid : {s : Console} → IsValid s → IsValid (cr s)
unfolding cr
cr-IsValid {s} v =
    moved s.origin s.scr_end (sub32 s.pos (mul32 s.x 2)) 0 s.y s.vram s.ports v v.above_base
      v.window v.below_end v.line (omega arith) (omega (arith, pos-le-scr_end v))

del-IsValid : {s : Console} → IsValid s → IsValid (del s)
unfolding del
del-IsValid {s} v = elim (Bool-cases (s.x == 0)) [
  | inl start ↦ rw start v
  | inr right ↦
      let some_column : 0 < s.x = ground arith in
      rw right (
        moved s.origin s.scr_end (sub32 s.pos 2) (sub32 s.x 1) s.y _ s.ports v v.above_base v.window
          v.below_end v.line (omega arith) (omega (arith, pos-le-scr_end v)))
]

back_space-IsValid : {s : Console} → IsValid s → IsValid (back_space s)
unfolding back_space
back_space-IsValid {s} v = elim (Bool-cases (s.x == 0)) [
  | inl start ↦ rw start v
  | inr right ↦
      let some_column : 0 < s.x = ground arith in
      rw right (
        moved s.origin s.scr_end (sub32 s.pos 2) (sub32 s.x 1) s.y s.vram s.ports v v.above_base
          v.window v.below_end v.line (omega arith) (omega (arith, pos-le-scr_end v)))
]

-- the next tab stop
abbrev pub tab_column : Console → ℕ
tab_column s = s.x + (8 - s.x % 8)

pub tab_lem :
    {s : Console}
    → IsValid s
    → let t = record s { x = tab_column s; pos = s.pos + (8 - s.x % 8) * 2 } in
      tab s ≡ (if ltb s.video_num_columns (tab_column s) then next_line t else t)
unfolding tab
tab_lem {s} v =
    let at_column : add32 s.x (8 - s.x % 8) ≡ tab_column s = omega arith in
    let at_pos : add32 s.pos ((8 - s.x % 8) * 2) ≡ s.pos + (8 - s.x % 8) * 2 =
      omega (arith, pos-le-scr_end v) in
    rw (bit_and_low 3 s.x 7 refl, at_column, at_pos)

tab-IsValid : {s : Console} → IsValid s → IsValid (tab s)
tab-IsValid {s} v = rw (tab_lem v) (elim (Bool-cases (ltb s.video_num_columns (tab_column s))) [
  | inl over ↦ rw over (
      next_line-IsValid (tab_column s) p v (omega (arith, ltb→lt _ _ over)) (omega arith)
        (omega arith))
  | inr room ↦ rw room (
      moved s.origin s.scr_end p (tab_column s) s.y s.vram s.ports v v.above_base v.window
        v.below_end v.line (ground arith) (omega arith))
])
  where
    p : ℕ
    p = s.pos + (8 - s.x % 8) * 2

next_line-x :
    (s : Console) → ((next_line s).x ≡ sub32 s.x s.video_num_columns) × SameScreen s (next_line s)
unfolding next_line
next_line-x s = omega (
  arith,
  lf-x (record s { x = sub32 s.x s.video_num_columns; pos = sub32 s.pos s.video_size_row }),
)

-- A character is stored on the screen: the cursor is not behind the last column then.
pub break_line-IsValid :
    {s : Console}
    → IsValid s
    → let t = break_line s in IsValid t × (t.x < t.video_num_columns) × SameScreen s t
unfolding break_line
break_line-IsValid {s} v = elim (Bool-cases (leb s.video_num_columns s.x)) [
  | inl behind ↦
      let next = next_line-x s in
      rw behind (
        next_line-IsValid s.x s.pos v (leb→le _ _ behind) (omega arith) v.cursor,
        omega (arith, leb→le _ _ behind),
        next.1,
      )
  | inr before ↦ rw before (v, ground arith, omega arith)
]

put_char-IsValid : {s : Console} (c : ℕ) → IsValid s → IsValid (put_char c s)
unfolding put_char
put_char-IsValid {s} c v =
    let t = break_line s in
    let (w, room, same) = break_line-IsValid v in
    moved t.origin t.scr_end (add32 t.pos 2) (add32 t.x 1) t.y _ t.ports w w.above_base w.window
      w.below_end w.line (omega arith) (omega (arith, pos-le-scr_end w))

pub print_char-IsValid : {s : Console} (c : ℕ) → IsValid s → IsValid (print_char c s)
unfolding print_char
print_char-IsValid {s} c v =
    ground
      (arith, put_char-IsValid c v, lf-IsValid v, cr-IsValid v, del-IsValid v, back_space-IsValid v)

-- Every character that con_write takes keeps a valid screen valid.
pub write_char-IsValid : {s : Console} (c : ℕ) → IsValid s → IsValid (write_char c s)
unfolding write_char
write_char-IsValid {s} c v = ground (
  arith,
  put_char-IsValid c v,
  lf-IsValid v,
  cr-IsValid v,
  del-IsValid v,
  back_space-IsValid v,
  tab-IsValid v,
)

pub print_chars-IsValid : (cs : List ℕ) {s : Console} → IsValid s → IsValid (print_chars cs s)
unfolding print_chars
print_chars-IsValid [] v = v
print_chars-IsValid (c ∷ cs) v = print_chars-IsValid cs (print_char-IsValid c v)
