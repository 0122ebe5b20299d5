-- ===== src/Panic/Shown.antt =====
-- panic of kernel/panic.c: what it shows.
use my_linux_kernel.Common.{
  ℕ, ◌==◌, ◌<◌, ◌≤◌, ◌≡◌, ◌∙◌, true, ltb, length, length-append, arith, refl, ap, Bool-cases, inl,
  inr, List, [], ◌∷◌, ◌++◌, some, if◌then◌else◌,
}
use my_linux_kernel.Strings.Memory.{Memory, IsString}
use my_linux_kernel.Tty.Cooked.{Tty, tty_write}
use my_linux_kernel.Vsprintf.Format.{bytes_at}
use my_linux_kernel.Vsprintf.Format.Strings.{vsprintf-string, vsprintf-Literal, is_literal-Literal}
use my_linux_kernel.Printk.{buf_size, written, printk}
use my_linux_kernel.Printk.Fits.{length-bytes_at}
use my_linux_kernel.Traps.Die.{loops, shown, say}
use my_linux_kernel.Panic.{panic_title, panic_format, swapper_format, panic}

-- The text of the message of `n` bytes at `s`.
abbrev pub panic_text : Memory → ℕ → ℕ → List ℕ
panic_text strings s n = panic_title ++ bytes_at n s strings ++ 10 ∷ 13 ∷ []

say-title :
    (strings : Memory) (s n : ℕ) (t : Tty)
    → IsString strings s n
    → n ≤ 1000
    → say strings panic_format (s ∷ []) t ≡ some (tty_write 0 (panic_text strings s n) t)
unfolding say printk
say-title strings s n t text small =
    let fits : ltb (length (panic_text strings s n)) buf_size ≡ true =
      ground (arith, text_lem strings s n small) in
    ap (λ o. shown (written t o))
      (vsprintf-string strings panic_title (10 ∷ 13 ∷ []) s n (is_literal-Literal panic_title refl)
        (is_literal-Literal (10 ∷ 13 ∷ []) refl) text (omega arith))
    ∙ rw fits refl
  where
    text_lem : (strings : Memory) (s n : ℕ) → n ≤ 1000 → length (panic_text strings s n) < buf_size
    text_lem strings s n small = omega (
      arith,
      length-append panic_title (bytes_at n s strings ++ 10 ∷ 13 ∷ []),
      length-append (bytes_at n s strings) (10 ∷ 13 ∷ []),
      length-bytes_at n s strings,
    )

say-swapper :
    (strings : Memory) (t : Tty)
    → say strings swapper_format [] t ≡ some (tty_write 0 swapper_format t)
unfolding say printk
say-swapper strings t =
    ap (λ o. shown (written t o))
      (vsprintf-Literal strings swapper_format (is_literal-Literal swapper_format refl))

-- What panic has shown where it loops.
abbrev pub panicked : Memory → ℕ → ℕ → ℕ → ℕ → Tty → Tty
panicked strings current first_task s n t =
    let titled = tty_write 0 (panic_text strings s n) t in
    if current == first_task then tty_write 0 swapper_format titled else titled

-- For a message of `n` bytes, at most 1000, panic shows "Kernel panic: ", the message and a
-- line end, and where the running task is task[0] a second text, In swapper task - not syncing,
-- and then loops for ever.
pub panic_lem :
    (strings : Memory) (current first_task s n : ℕ) (t : Tty)
    → IsString strings s n
    → n ≤ 1000
    → panic strings current first_task s t
      ≡ some (loops (panicked strings current first_task s n t))
unfolding panic
panic_lem strings current first_task s n t text small =
    rw (say-title strings s n t text small) (elim (Bool-cases (current == first_task)) [
      | inl first ↦ rw (first, say-swapper strings (tty_write 0 (panic_text strings s n) t)) refl
      | inr other ↦ rw other refl
    ])
