-- ===== src/Vsprintf/Number.antt =====
-- number and do_div of kernel/vsprintf.c.
-- `num` is the 32-bit word of the C `int`: `divl` divides it as an unsigned number. `size` and
-- `precision` are far from the bounds of an int, and do not wrap around. The result is the text
-- that goes to `str`, or `none` for the null pointer.
pub mod Digits
pub mod Width
pub mod Plain
mod Tests
use my_linux_kernel.Common.{
  ℕ, zero, suc, ◌+◌, ◌-◌, ◌/◌, ◌%◌, ◌==◌, ◌&&◌, ◌||◌, not, Bool, List, [], ◌∷◌, ◌++◌, Option, none,
  some, ltb, leb, bit_and, get_or, length, replicate, sub32, if◌then◌else◌,
}
use my_linux_kernel.Common.Int.{ℤ, pos, negsuc, ◌-ℤ◌, ltb_ℤ, pos_part}

-- "0123456789ABCDEFGHIJKLMNOPQRSTUVWXYZ", and the same in small letters
abbrev pub upper_digits : List ℕ
upper_digits =
    48 ∷ 49 ∷ 50 ∷ 51 ∷ 52 ∷ 53 ∷ 54 ∷ 55 ∷ 56 ∷ 57 ∷ 65 ∷ 66 ∷ 67 ∷ 68 ∷ 69 ∷ 70 ∷ 71 ∷ 72 ∷ 73
    ∷ 74 ∷ 75 ∷ 76 ∷ 77 ∷ 78 ∷ 79 ∷ 80 ∷ 81 ∷ 82 ∷ 83 ∷ 84 ∷ 85 ∷ 86 ∷ 87 ∷ 88 ∷ 89 ∷ 90 ∷ []

abbrev pub lower_digits : List ℕ
lower_digits =
    48 ∷ 49 ∷ 50 ∷ 51 ∷ 52 ∷ 53 ∷ 54 ∷ 55 ∷ 56 ∷ 57 ∷ 97 ∷ 98 ∷ 99 ∷ 100 ∷ 101 ∷ 102 ∷ 103 ∷ 104
    ∷ 105 ∷ 106 ∷ 107 ∷ 108 ∷ 109 ∷ 110 ∷ 111 ∷ 112 ∷ 113 ∷ 114 ∷ 115 ∷ 116 ∷ 117 ∷ 118 ∷ 119 ∷ 120
    ∷ 121 ∷ 122 ∷ []

-- `type & flag`
unfoldable pub has : ℕ → ℕ → Bool
has type flag = not (bit_and type flag == 0)

-- ZEROPAD, SIGN, PLUS, SPACE, LEFT, SPECIAL and SMALL; LEFT takes ZEROPAD away.
abbrev pub left : ℕ → Bool
left type = has type 16

abbrev pub zeropad : ℕ → Bool
zeropad type = has type 1 && not (left type)

abbrev pub digits : ℕ → List ℕ
digits type = if has type 64 then lower_digits else upper_digits

-- The loop that fills `tmp`, the digit of the lowest place first. A word has at most 32 digits.
unfoldable pub digit_loop : ℕ → List ℕ → ℕ → ℕ → List ℕ
digit_loop zero digits num base = []
digit_loop (suc fuel) digits num base =
    let rest = digit_loop fuel digits (num / base) base in
    if num == 0 then [] else get_or digits (num % base) 0 ∷ rest

unfoldable pub tmp_digits : List ℕ → ℕ → ℕ → List ℕ
tmp_digits digits num base = if num == 0 then 48 ∷ [] else digit_loop 32 digits num base

abbrev pub is_negative : ℕ → ℕ → Bool
is_negative num type = has type 2 && leb 0x80000000 num

-- `sign`, 0 for none
unfoldable pub sign_char : ℕ → ℕ → ℕ
sign_char num type =
    if is_negative num type then 45 else if has type 4 then 43 else if has type 8 then 32 else 0

abbrev pub magnitude : ℕ → ℕ → ℕ
magnitude num type = if is_negative num type then sub32 0 num else num

abbrev pub sign_text : ℕ → List ℕ
sign_text sign = if sign == 0 then [] else sign ∷ []

-- what SPECIAL puts before the digits
unfoldable pub prefix_text : ℕ → ℕ → List ℕ
prefix_text base type =
    if not (has type 32)
    then []
    else if base == 8
    then 48 ∷ []
    else if base == 16
    then 48 ∷ get_or (digits type) 33 0 ∷ []
    else []

-- the size that is reserved for them
unfoldable pub prefix_size : ℕ → ℕ → ℕ
prefix_size base type =
    if not (has type 32) then 0 else if base == 16 then 2 else if base == 8 then 1 else 0

-- `while(size-- > 0) *str++ = c;`: what it writes, and what it leaves in `size`
abbrev pub pad : ℕ → ℤ → List ℕ
pad c size = replicate (pos_part size) c

unfoldable pub padded : ℤ → ℤ
padded size = if ltb_ℤ (pos 0) size then negsuc 0 else size -ℤ pos 1

-- `while(i-- > 0) *str++ = tmp[i];`
abbrev pub backwards : List ℕ → List ℕ → List ℕ
backwards [] out = out
backwards (c ∷ cs) out = backwards cs (c ∷ out)

-- The text, with `size` as it is after the digits are counted.
abbrev layout : ℕ → ℕ → List ℕ → ℕ → ℕ → ℤ → List ℕ
layout type sign tmp base fill size =
    let spaces_first = not (zeropad type || left type) in
    let size₁ = if spaces_first then padded size else size in
    let size₂ = if left type then size₁ else padded size₁ in
    (if spaces_first then pad 32 size else [])
    ++ sign_text sign
    ++ prefix_text base type
    ++ (if left type then [] else pad (if zeropad type then 48 else 32) size₁)
    ++ replicate fill 48
    ++ backwards tmp []
    ++ pad 32 size₂

-- `precision` is raised to the number of digits.
abbrev pub raised : ℤ → List ℕ → ℕ
raised precision tmp = if ltb_ℤ precision (pos (length tmp)) then length tmp else pos_part precision

unfoldable pub number : ℕ → ℕ → ℤ → ℤ → ℕ → Option (List ℕ)
number num base size precision type =
    let sign = sign_char num type in
    let tmp = tmp_digits (digits type) (magnitude num type) base in
    let precision' = raised precision tmp in
    let size' =
      size -ℤ pos (length (sign_text sign)) -ℤ pos (prefix_size base type) -ℤ pos precision' in
    if ltb base 2 || ltb 36 base
    then none
    else some (layout type sign tmp base (precision' - length tmp) size')
