-- ===== src/Vsprintf/Format/Tests.antt =====
-- Runs of vsprintf, and witnesses of its theorems. The string "A" stands at 16.
use my_linux_kernel.Common.{◌==◌, ◌≡◌, refl, [], ◌∷◌, some, if◌then◌else◌}
use my_linux_kernel.Strings.Memory.{Memory}
use my_linux_kernel.Vsprintf.Number.{
  has, digit_loop, tmp_digits, sign_char, prefix_text, prefix_size, padded, number,
}
use my_linux_kernel.Common.Int.{◌-ℤ◌}
use my_linux_kernel.Vsprintf.Format.{
  vsprintf, vsprintf_loop, convert, skip_atoi, skip_flags, read_width, read_precision,
  skip_qualifier, char_text,
}

abbrev ram : Memory
ram a = if a == 16 then 65 else 0

-- "%-3d|%5c": a number to the left, a character to the right
left_and_right :
    vsprintf ram (37 ∷ 45 ∷ 51 ∷ 100 ∷ 124 ∷ 37 ∷ 53 ∷ 99 ∷ []) (7 ∷ 66 ∷ [])
    ≡ some (record { str = 55 ∷ 32 ∷ 32 ∷ 124 ∷ 32 ∷ 32 ∷ 32 ∷ 32 ∷ 66 ∷ []; stores = [] })
unfolding vsprintf vsprintf_loop convert skip_atoi skip_flags read_width read_precision
    skip_qualifier char_text number has digit_loop tmp_digits sign_char prefix_text prefix_size
    padded ◌-ℤ◌
left_and_right = refl

-- "%*d": the star is not skipped, so that it is written, with the letter behind it.
star_stays :
    vsprintf ram (37 ∷ 42 ∷ 100 ∷ []) (5 ∷ 7 ∷ [])
    ≡ some (record { str = 37 ∷ 42 ∷ 100 ∷ []; stores = [] })
unfolding vsprintf vsprintf_loop convert skip_flags read_width read_precision skip_qualifier
star_stays = refl
