-- ===== src/Vsprintf/Number/Tests.antt =====
-- Runs of number, and witnesses of its theorems: 255 in base 16, as `%#10x` prints it.
use my_linux_kernel.Common.{◌≡◌, refl, [], ◌∷◌, some}
use my_linux_kernel.Common.Int.{pos, negsuc, ◌-ℤ◌}
use my_linux_kernel.Vsprintf.Number.{
  has, digit_loop, tmp_digits, sign_char, prefix_text, prefix_size, padded, number,
}

-- `%5d` of -42
minus_42 : number 4294967254 10 (pos 5) (negsuc 0) 2 ≡ some (32 ∷ 32 ∷ 45 ∷ 52 ∷ 50 ∷ [])
unfolding number has digit_loop tmp_digits sign_char prefix_text prefix_size padded ◌-ℤ◌
minus_42 = refl
