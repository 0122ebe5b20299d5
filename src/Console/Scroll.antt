-- ===== src/Console/Scroll.antt =====
-- scroll_up of kernel/chr_drv/console.c: the bytes of the screen.
use my_linux_kernel.Common.{
  ℕ, ◌+◌, ◌-◌, ◌*◌, ◌/◌, ◌%◌, ◌≤◌, ◌<◌, ◌≡◌, refl, ap, ◌∙◌, arith, u8, add32, sub32, mul32, ltb,
  Bool-cases, inl, inr, ◌==◌, if◌then◌else◌,
}
use my_linux_kernel.Console.Video.{rep_movsl, rep_movsl_lem, rep_stosw_lem}
use my_linux_kernel.Console.{Console, advance, scroll_wrap, scroll_on, set_origin, scroll_up}
use my_linux_kernel.Console.Valid.{IsValid, add32-row}
use my_linux_kernel.Console.Valid.Scroll.{scroll_full}

-- the bytes of all lines but the last
abbrev pub body_size : Console → ℕ
body_size s = (s.video_num_lines - 1) * s.video_size_row

-- byte `k` of the screen `s` after a line is gone at its top
abbrev pub scrolled : Console → ℕ → ℕ
scrolled s k =
    if ltb k (body_size s)
    then s.vram (s.origin + s.video_size_row + k)
    else if k % 2 == 0
    then u8 s.video_erase_char
    else u8 (s.video_erase_char / 256)

module _ {s : Console} (v : IsValid s) (k : ℕ)
    (on_screen : k < s.video_num_lines * s.video_size_row) where
  screen_size : s.video_num_lines * s.video_size_row ≡ body_size s + s.video_size_row
  screen_size =
      let lines : s.video_num_lines ≡ s.video_num_lines - 1 + 1 = omega arith in
      omega (arith, ap (λ (l : ℕ). l * s.video_size_row) lines)

  body_even : body_size s ≡ 2 * ((s.video_num_lines - 1) * s.video_num_columns)
  body_even = omega (arith, ap (λ (r : ℕ). (s.video_num_lines - 1) * r) v.row)

  scroll_on-scrolled :
      (set_origin (scroll_on (advance s))).vram (s.origin + s.video_size_row + k) ≡ scrolled s k
  unfolding scroll_on advance set_origin
  scroll_on-scrolled = ground (
    arith,
    rep_stosw_lem s.video_num_columns (sub32 (add32 s.scr_end s.video_size_row) s.video_size_row)
        s.video_erase_char s.vram (s.origin + s.video_size_row + k),
    screen_size,
    body_even,
  )

  -- The copy takes four bytes at a time, so an odd number of character cells would lose one.
  module _ (even_cells : (s.video_num_lines - 1) * s.video_num_columns % 2 ≡ 0) where
    copied : mul32 (sub32 s.video_num_lines 1) s.video_num_columns / 2 * 4 ≡ body_size s
    copied =
        let less : sub32 s.video_num_lines 1 ≡ s.video_num_lines - 1 = omega arith in
        rw less (omega (arith, body_even, screen_size))

    scroll_wrap-scrolled :
        (set_origin (scroll_wrap (advance s))).vram (s.video_mem_base + k) ≡ scrolled s k
    unfolding scroll_wrap advance set_origin
    scroll_wrap-scrolled =
        rw (add32-row s.origin v low, copied)
          (ground (
            arith,
            rep_stosw_lem s.video_num_columns (s.video_mem_base + body_size s) s.video_erase_char
                moved (s.video_mem_base + k),
            rep_movsl_lem count (s.origin + s.video_size_row) s.video_mem_base s.vram
                (s.video_mem_base + k),
            screen_size,
            body_even,
            copied,
          ))
      where
        low : s.origin ≤ s.scr_end
        low = omega arith

        count : ℕ
        count = mul32 (sub32 s.video_num_lines 1) s.video_num_columns / 2

        moved : ℕ → ℕ
        moved = rep_movsl count (s.origin + s.video_size_row) s.video_mem_base s.vram

    -- On a valid screen whose lines but the last have an even number of cells in all, scroll_up
    -- moves every line up by one and erases the last line, at every byte `k` of the screen,
    -- both when the window moves on in video memory and when it is copied back to its start.
    pub scroll_up-scrolled : (scroll_up s).vram ((scroll_up s).origin + k) ≡ scrolled s k
    unfolding scroll_up
    scroll_up-scrolled =
        rw (scroll_full v) (elim (Bool-cases (ltb (advance s).video_mem_end (advance s).scr_end)) [
          | inl over ↦ rw over (
              ap (λ (a : ℕ). (set_origin (scroll_wrap (advance s))).vram (a + k)) wrap_origin
              ∙ scroll_wrap-scrolled)
          | inr room ↦ rw room (
              ap (λ (a : ℕ). (set_origin (scroll_on (advance s))).vram (a + k)) on_origin
              ∙ scroll_on-scrolled)
        ])
      where
        wrap_origin : (set_origin (scroll_wrap (advance s))).origin ≡ s.video_mem_base
        wrap_origin = unfold set_origin scroll_wrap in refl

        on_origin : (set_origin (scroll_on (advance s))).origin ≡ s.origin + s.video_size_row
        on_origin = unfold set_origin scroll_on advance in add32-row s.origin v (omega arith)
