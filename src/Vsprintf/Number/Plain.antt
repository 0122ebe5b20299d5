-- ===== src/Vsprintf/Number/Plain.antt =====
-- number of kernel/vsprintf.c without a size, a precision and the flags that fill up.
use my_linux_kernel.Common.{
  ℕ, ◌-◌, ◌≤◌, ◌≡◌, ap, arith, false, List, [], ◌++◌, some, length, ltb_of_le, append-nil,
}
use my_linux_kernel.Common.Int.{pos, negsuc, pos_part, ◌-ℤ◌}
use my_linux_kernel.Vsprintf.Number.{
  has, digits, tmp_digits, sign_char, magnitude, sign_text, prefix_text, prefix_size, padded,
  backwards, raised, number,
}
use my_linux_kernel.Vsprintf.Number.Width.{pos_part-padded, pos_part-sub}

no_pads : (a b : List ℕ) → a ++ [] ++ [] ++ [] ++ b ++ [] ≡ a ++ b
no_pads a b = rw (append-nil a, append-nil a, append-nil a) (append-nil (a ++ b))

pub number-backwards :
    (num base type : ℕ)
    → 2 ≤ base
    → base ≤ 36
    → has type 1 ≡ false
    → has type 16 ≡ false
    → has type 32 ≡ false
    → number num base (negsuc 0) (negsuc 0) type
      ≡ some (
          sign_text (sign_char num type)
          ++ backwards (tmp_digits (digits type) (magnitude num type) base) [])
unfolding number prefix_text
number-backwards num base type two top z l s =
    let sign = sign_text (sign_char num type) in
    let tmp = tmp_digits (digits type) (magnitude num type) base in
    let raised_to : raised (negsuc 0) tmp ≡ length tmp = ground arith in
    let size₀ = negsuc 0 -ℤ pos (length sign) -ℤ pos (prefix_size base type) in
    let size = size₀ -ℤ pos (length tmp) in
    let none_left : pos_part size ≡ 0 = omega (
      arith,
      pos_part-sub (negsuc 0) (length sign),
      pos_part-sub (negsuc 0 -ℤ pos (length sign)) (prefix_size base type),
      pos_part-sub size₀ (length tmp),
    ) in
    let no_fill : length tmp - length tmp ≡ 0 = omega arith in
    rw
      (
        ltb_of_le base 2 two,
        ltb_of_le 36 base top,
        raised_to,
        z,
        l,
        s,
        none_left,
        pos_part-padded size,
        pos_part-padded (padded size),
        no_fill,
      )
      (ap (λ t. some t) (no_pads sign (backwards tmp [])))
