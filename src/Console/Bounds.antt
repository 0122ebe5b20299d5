-- ===== src/Console/Bounds.antt =====
-- The bytes outside video memory, for the output functions of kernel/chr_drv/console.c.
use my_linux_kernel.Common.{
  ℕ, ◌+◌, ◌-◌, ◌*◌, ◌/◌, ◌%◌, ◌≤◌, ◌<◌, ◌≡◌, refl, ap, ◌∙◌, arith, add32, sub32, mul32, ltb, leb,
  Bool-cases, inl, inr, false, ltb→lt, leb→le, ◌==◌, ◌⊎◌, List, [], ◌∷◌,
}
use my_linux_kernel.Console.Video.{Vram, store8, store16, rep_movsl, rep_movsl_lem, rep_stosw_lem}
use my_linux_kernel.Console.{
  Console, advance, scroll_wrap, scroll_on, set_origin, scroll_up, lf, next_line, cr, del,
  break_line, put_char, back_space, tab, print_char, print_chars, con_print, write_char,
}
use my_linux_kernel.Console.Valid.{IsValid, line_room, pos-le-scr_end, add32-row}
use my_linux_kernel.Console.Cursor.{con_print_lem}
use my_linux_kernel.Console.Valid.Scroll.{scroll_full, SameScreen, lf-x}
use my_linux_kernel.Console.Valid.Chars.{
  carried-IsValid, break_line-IsValid, tab_column, tab_lem, print_char-IsValid,
}

-- `b` is no address of video memory.
abbrev pub Outside : Console → ℕ → Type 0
Outside s b = (b < s.video_mem_base) ⊎ (s.video_mem_end ≤ b)

module _ {s : Console} (b : ℕ) (v : IsValid s) (out : Outside s b) where
  scroll_on-Outside :
      ltb (advance s).video_mem_end (advance s).scr_end ≡ false
      → (set_origin (scroll_on (advance s))).vram b ≡ s.vram b
  unfolding scroll_on advance set_origin
  scroll_on-Outside room = ground (
    arith,
    rep_stosw_lem s.video_num_columns (sub32 (add32 s.scr_end s.video_size_row) s.video_size_row)
        s.video_erase_char s.vram b,
  )

  scroll_wrap-Outside : (set_origin (scroll_wrap (advance s))).vram b ≡ s.vram b
  unfolding scroll_wrap advance set_origin
  scroll_wrap-Outside = rw (add32-row s.origin v low) (
      ground (
        arith,
        rep_stosw_lem s.video_num_columns (s.video_mem_base + count * 4) s.video_erase_char copied
            b,
        rep_movsl_lem count (s.origin + s.video_size_row) s.video_mem_base s.vram b,
        small,
      ))
    where
      count : ℕ
      count = mul32 (sub32 s.video_num_lines 1) s.video_num_columns / 2

      copied : Vram
      copied = rep_movsl count (s.origin + s.video_size_row) s.video_mem_base s.vram

      low : s.origin ≤ s.scr_end
      low = omega arith

      small : count * 4 + s.video_size_row ≤ s.video_num_lines * s.video_size_row
      small =
          let less : sub32 s.video_num_lines 1 ≡ s.video_num_lines - 1 = omega arith in
          let lines : s.video_num_lines ≡ s.video_num_lines - 1 + 1 = omega arith in
          let rows = ap (λ (l : ℕ). l * s.video_size_row) lines in
          let cells = ap (λ (r : ℕ). (s.video_num_lines - 1) * r) v.row in
          rw less (omega (arith, rows, cells))

  scroll_up-Outside : (scroll_up s).vram b ≡ s.vram b
  unfolding scroll_up
  scroll_up-Outside =
      rw (scroll_full v) (elim (Bool-cases (ltb (advance s).video_mem_end (advance s).scr_end)) [
        | inl over ↦ rw over scroll_wrap-Outside
        | inr room ↦ rw room (scroll_on-Outside room)
      ])

  lf-Outside : (lf s).vram b ≡ s.vram b
  unfolding lf
  lf-Outside = elim (Bool-cases (ltb (add32 s.y 1) s.bottom)) [
    | inl more ↦ rw more
    | inr last ↦ rw last scroll_up-Outside
  ]

-- The screen stays where it is, and byte `b` keeps its value.
abbrev pub Keeps : ℕ → Console → Console → Type 0
Keeps b s t = SameScreen s t × (t.vram b ≡ s.vram b)

next_line-Keeps :
    {s : Console} (b x' p : ℕ)
    → IsValid s
    → Outside s b
    → s.video_num_columns ≤ x'
    → x' ≤ s.video_num_columns + 8
    → p ≡ s.origin + s.y * s.video_size_row + x' * 2
    → Keeps b s (next_line (record s { x = x'; pos = p }))
unfolding next_line
next_line-Keeps {s} b x' p v out over near at =
    let t = record s { x = sub32 x' s.video_num_columns; pos = sub32 p s.video_size_row } in
    (omega (arith, lf-x t), lf-Outside {s = t} b (carried-IsValid x' p v over near at) out)

module _ {s : Console} (b : ℕ) (v : IsValid s) (out : Outside s b) where
  lf-Keeps : Keeps b s (lf s)
  lf-Keeps = ((lf-x s).1, lf-Outside b v out)

  cr-Keeps : Keeps b s (cr s)
  unfolding cr
  cr-Keeps = (omega arith, refl)

  del-Keeps : Keeps b s (del s)
  unfolding del store16
  del-Keeps = elim (Bool-cases (s.x == 0)) [
    | inl start ↦ rw start (omega arith, refl)
    | inr right ↦ rw right (omega arith, ground (arith, pos-le-scr_end v))
  ]

  back_space-Keeps : Keeps b s (back_space s)
  unfolding back_space
  back_space-Keeps = elim (Bool-cases (s.x == 0)) [
    | inl start ↦ rw start (omega arith, refl)
    | inr right ↦ rw right (omega arith, refl)
  ]

  break_line-Keeps : Keeps b s (break_line s)
  unfolding break_line
  break_line-Keeps = elim (Bool-cases (leb s.video_num_columns s.x)) [
    | inl behind ↦
        rw behind (next_line-Keeps b s.x s.pos v out (leb→le _ _ behind) (omega arith) v.cursor)
    | inr before ↦ rw before (omega arith, refl)
  ]

  put_char-Keeps : (c : ℕ) → Keeps b s (put_char c s)
  unfolding put_char store8
  put_char-Keeps c =
      let t = break_line s in
      let (w, room, same) = break_line-IsValid v in
      let lines = line_room t.y t.video_num_lines t.video_size_row w.line in
      let kept = break_line-Keeps in (omega arith, ground (arith, pos-le-scr_end w))

  tab-Keeps : Keeps b s (tab s)
  tab-Keeps = rw (tab_lem v) (elim (Bool-cases (ltb s.video_num_columns (tab_column s))) [
    | inl over ↦ rw over (
        next_line-Keeps b (tab_column s) (s.pos + (8 - s.x % 8) * 2) v out
          (omega (arith, ltb→lt _ _ over)) (omega arith) (omega arith))
    | inr room ↦ rw room (omega arith, refl)
  ])

  print_char-Keeps : (c : ℕ) → Keeps b s (print_char c s)
  unfolding print_char
  print_char-Keeps c =
      ground (arith, put_char-Keeps c, lf-Keeps, cr-Keeps, del-Keeps, back_space-Keeps)

  pub write_char-Keeps : (c : ℕ) → Keeps b s (write_char c s)
  unfolding write_char
  write_char-Keeps c =
      ground (arith, put_char-Keeps c, lf-Keeps, cr-Keeps, del-Keeps, back_space-Keeps, tab-Keeps)

print_chars-Keeps :
    (b : ℕ) (cs : List ℕ) {s : Console} → IsValid s → Outside s b → Keeps b s (print_chars cs s)
unfolding print_chars
print_chars-Keeps b [] v out = (omega arith, refl)
print_chars-Keeps b (c ∷ cs) {s} v out =
    let one = print_char-Keeps b v out c in
    let rest = print_chars-Keeps b cs (print_char-IsValid c v) (ground arith) in
    (omega arith, rest.1 ∙ one.1)

-- On a valid screen con_print writes no byte outside video memory, whatever it prints.
pub con_print-Outside :
    {s : Console} (buf : List ℕ) (b : ℕ)
    → IsValid s
    → Outside s b
    → (con_print buf s).vram b ≡ s.vram b
con_print-Outside {s} buf b v out =
    ap (λ t. t.vram b) (con_print_lem buf v).1 ∙ (print_chars-Keeps b buf v out).1

pub con_print-SameScreen : {s : Console} (buf : List ℕ) → IsValid s → SameScreen s (con_print buf s)
con_print-SameScreen {s} buf v =
    let same = (print_chars-Keeps s.video_mem_end buf v (inr (omega arith))).0 in
    rw (con_print_lem buf v).1
      (record { columns = same.columns; lines = same.lines; base = same.base; end = same.end })
