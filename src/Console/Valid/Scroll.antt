-- ===== src/Console/Valid/Scroll.antt =====
-- The invariant of the screen through lf and scroll_up of kernel/chr_drv/console.c.
use my_linux_kernel.Common.{
  ◌+◌, ◌≤◌, ◌≡◌, arith, add32, ltb, Bool-cases, inl, inr, true, false, ltb→lt, ◌==◌, ◌&&◌,
}
use my_linux_kernel.Console.{
  Console, advance, scroll_wrap, scroll_on, scroll_up, set_origin, lf, scroll_region,
}
use my_linux_kernel.Console.Valid.{IsValid, moved, pos-le-scr_end, add32-row}

-- On a valid screen the whole screen is scrolled.
pub scroll_full : {s : Console} → IsValid s → (s.top == 0 && s.bottom == s.video_num_lines) ≡ true
scroll_full v = ground arith

-- The window moves on by a row, if there is room for it in video memory.
scroll_on-IsValid :
    {s : Console}
    → IsValid s
    → ltb (advance s).video_mem_end (advance s).scr_end ≡ false
    → IsValid (set_origin (scroll_on (advance s)))
unfolding scroll_on advance set_origin
scroll_on-IsValid {s} v room =
    rw (add32-row s.origin v low, add32-row s.scr_end v last, add32-row s.pos v (pos-le-scr_end v))
      (moved (s.origin + s.video_size_row) (s.scr_end + s.video_size_row) (s.pos + s.video_size_row)
        s.x s.y _ _ v (omega arith) (omega arith) (ground (arith, add32-row s.scr_end v last))
        v.line v.column (omega arith))
  where
    low : s.origin ≤ s.scr_end
    low = omega arith

    last : s.scr_end ≤ s.scr_end
    last = omega arith

-- Otherwise it goes back to the start of video memory.
scroll_wrap-IsValid : {s : Console} → IsValid s → IsValid (set_origin (scroll_wrap (advance s)))
unfolding scroll_wrap advance set_origin
scroll_wrap-IsValid {s} v =
    rw (add32-row s.origin v low, add32-row s.scr_end v last, add32-row s.pos v (pos-le-scr_end v))
      (moved _ _ _ s.x s.y _ _ v (omega arith) (omega arith) (omega arith) v.line v.column
        (omega (arith, pos-le-scr_end v)))
  where
    low : s.origin ≤ s.scr_end
    low = omega arith

    last : s.scr_end ≤ s.scr_end
    last = omega arith

pub scroll_up-IsValid : {s : Console} → IsValid s → IsValid (scroll_up s)
unfolding scroll_up
scroll_up-IsValid {s} v =
    rw (scroll_full v) (elim (Bool-cases (ltb (advance s).video_mem_end (advance s).scr_end)) [
      | inl over ↦ rw over (scroll_wrap-IsValid v)
      | inr room ↦ rw room (scroll_on-IsValid v room)
    ])

pub lf-IsValid : {s : Console} → IsValid s → IsValid (lf s)
unfolding lf
lf-IsValid {s} v = elim (Bool-cases (ltb (add32 s.y 1) s.bottom)) [
  | inl more ↦
      let up : add32 s.y 1 ≡ s.y + 1 = omega arith in
      rw (more, up, add32-row s.pos v (pos-le-scr_end v))
        (moved s.origin s.scr_end (s.pos + s.video_size_row) s.x (s.y + 1) s.vram s.ports v
          v.above_base v.window v.below_end (omega (arith, ltb→lt _ _ more)) v.column (omega arith))
  | inr last ↦ rw last (scroll_up-IsValid v)
]

-- The fields that no output function writes.
pub record SameScreen (s t : Console) : Type 0 where
  pub columns : t.video_num_columns ≡ s.video_num_columns
  pub lines : t.video_num_lines ≡ s.video_num_lines
  pub base : t.video_mem_base ≡ s.video_mem_base
  pub end : t.video_mem_end ≡ s.video_mem_end

pub SameScreen-trans : {s t u : Console} → SameScreen s t → SameScreen t u → SameScreen s u
SameScreen-trans a b = omega arith

-- A line feed keeps the column and the screen.
pub lf-x : (s : Console) → ((lf s).x ≡ s.x) × SameScreen s (lf s)
unfolding lf scroll_up set_origin scroll_on scroll_wrap advance scroll_region
lf-x s = elim (Bool-cases (ltb (add32 s.y 1) s.bottom)) [
  | inl more ↦ rw more (omega arith)
  | inr last ↦ rw last (elim (Bool-cases (s.top == 0 && s.bottom == s.video_num_lines)) [
    | inl all ↦ rw all (elim (Bool-cases (ltb (advance s).video_mem_end (advance s).scr_end)) [
      | inl over ↦ rw over (omega arith)
      | inr room ↦ rw room (omega arith)
    ])
    | inr part ↦ rw part (omega arith)
  ])
]
