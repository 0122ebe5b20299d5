-- ===== src/Vsprintf/Format.antt =====
-- skip_atoi and vsprintf of kernel/vsprintf.c.
-- The format is the list of its bytes before the NUL, so that `*fmt` at its end is 0. The arguments
-- are 32-bit words, 0 behind the last; strings are read from `m`. A width or a precision is an int,
-- which wraps around where it is read. What %n writes is listed apart, as an address and a number: a
-- text is that of vsprintf as long as no string that is read later stands there, and printk takes none
-- with such a list.
pub mod Total
pub mod Read
pub mod Strings
pub mod Short
mod Tests
use my_linux_kernel.Common.{
  ℕ, zero, suc, ◌+◌, ◌-◌, ◌*◌, ◌==◌, ◌&&◌, ◌||◌, not, Bool, true, false, List, [], ◌∷◌, ◌++◌,
  Option, none, some, ltb, leb, bit_or, get_or, length, replicate, drop, u8, u32, sub32,
  if◌then◌else◌,
}
use my_linux_kernel.Common.Int.{ℤ, pos, negsuc, ◌-ℤ◌, ltb_ℤ, pos_part}
use my_linux_kernel.Strings.Memory.{Memory}
use my_linux_kernel.Strings.Search.{strlen}
use my_linux_kernel.Vsprintf.Number.{left, number}

abbrev pub is_digit : ℕ → Bool
is_digit c = leb 48 c && leb c 57

-- `i` is the int as a word.
unfoldable pub skip_atoi : ℕ → List ℕ → ℕ × List ℕ
skip_atoi i [] = (i, [])
skip_atoi i (c ∷ s) =
    let rest = skip_atoi (u32 (i * 10 + (c - 48))) s in if is_digit c then rest else (i, c ∷ s)

-- `*fmt`, and the argument that is next
abbrev pub first : List ℕ → ℕ
first s = get_or s 0 0

-- The flag of '-', '+', ' ', '#' and '0'
abbrev pub flag_of : ℕ → ℕ
flag_of c =
    if c == 45
    then 16
    else if c == 43
    then 4
    else if c == 32
    then 8
    else if c == 35
    then 32
    else if c == 48
    then 1
    else 0

-- From `repeat` to the end of its switch.
unfoldable pub skip_flags : ℕ → List ℕ → ℕ × List ℕ
skip_flags flags [] = (flags, [])
skip_flags flags (c ∷ s) =
    let rest = skip_flags (bit_or flags (flag_of c)) s in
    if flag_of c == 0 then (flags, c ∷ s) else rest

-- A word as an int
abbrev pub to_int : ℕ → ℤ
to_int n = if ltb n 0x80000000 then pos n else negsuc (0xffffffff - n)

-- The variables of vsprintf for one directive.
pub record Directive : Type 0 where
  pub flags : ℕ
  pub field_width : ℤ
  pub precision : ℤ
  pub fmt : List ℕ
  pub args : List ℕ

-- With '*' the format does not go on.
unfoldable pub read_width : ℕ → List ℕ → List ℕ → Directive
unfolding skip_atoi
read_width flags fmt args =
    let number_read = skip_atoi 0 fmt in
    let w = to_int (first args) in
    let given : Directive = record {
      flags = flags;
      field_width = to_int number_read.0;
      precision = negsuc 0;
      fmt = number_read.1;
      args = args;
    } in
    let to_right : Directive = record given { field_width = w; fmt = fmt; args = drop 1 args } in
    let to_left = record to_right {
      field_width = to_int (sub32 0 (first args));
      flags = bit_or flags 16;
    } in
    let plain : Directive = record given { field_width = negsuc 0; fmt = fmt } in
    if is_digit (first fmt)
    then given
    else if first fmt == 42
    then if ltb_ℤ w (pos 0) then to_left else to_right
    else plain

abbrev pub not_negative : ℤ → ℤ
not_negative p = if ltb_ℤ p (pos 0) then pos 0 else p

unfoldable pub read_precision : Directive → Directive
unfolding skip_atoi
read_precision d =
    let fmt = drop 1 d.fmt in
    let number_read = skip_atoi 0 fmt in
    let given = record d { precision = not_negative (to_int number_read.0); fmt = number_read.1 } in
    let from_args : Directive = record d {
      precision = not_negative (to_int (first d.args));
      fmt = fmt;
      args = drop 1 d.args;
    } in
    let no_number = record d { precision = pos 0; fmt = fmt } in
    if first d.fmt == 46
    then if is_digit (first fmt) then given else if first fmt == 42 then from_args else no_number
    else d

-- 'h', 'l' and 'L' are skipped.
unfoldable pub skip_qualifier : Directive → Directive
skip_qualifier d =
    let c = first d.fmt in
    if c == 104 || c == 108 || c == 76 then record d { fmt = drop 1 d.fmt } else d

-- From `flags = 0` to the second switch.
abbrev pub directive : List ℕ → List ℕ → Directive
directive fmt args =
    let flags = skip_flags 0 fmt in
    skip_qualifier (read_precision (read_width flags.0 flags.1 args))

-- What a directive writes, and the words that %n writes.
pub record Piece : Type 0 where
  pub text : List ℕ
  pub stores : List (ℕ × ℕ)
  pub fmt : List ℕ
  pub args : List ℕ

-- `while(--field_width > 0)`, before the character and behind it.
unfoldable pub char_text : ℕ → ℤ → ℕ → List ℕ
char_text flags width c =
    let after = if ltb_ℤ (pos 1) width then pos 0 else width -ℤ pos 1 in
    let width' = if left flags then width else after in
    (if left flags then [] else replicate (pos_part (width -ℤ pos 1)) 32)
    ++ u8 c ∷ replicate (pos_part (width' -ℤ pos 1)) 32

abbrev pub bytes_at : ℕ → ℕ → Memory → List ℕ
bytes_at zero s m = []
bytes_at (suc n) s m = m s ∷ bytes_at n (s + 1) m

abbrev pub cut_off : ℤ → ℕ → ℕ
cut_off (pos p) len = if ltb p len then p else len
cut_off (negsuc p) len = len

-- `while(field_width-- > len)`, before the string and behind it.
unfoldable pub string_text : ℕ → ℤ → ℕ → ℕ → Memory → List ℕ
string_text flags width len s m =
    let after = if ltb_ℤ (pos len) width then pos len -ℤ pos 1 else width -ℤ pos 1 in
    let width' = if left flags then width else after in
    (if left flags then [] else replicate (pos_part (width -ℤ pos len)) 32)
    ++ bytes_at len s m
    ++ replicate (pos_part (width' -ℤ pos len)) 32

-- The directive writes `text` and uses one argument.
abbrev pub one_arg : Directive → List ℕ → Piece
one_arg d text = record { text = text; stores = []; fmt = drop 1 d.fmt; args = drop 1 d.args }

abbrev pub string_piece : Directive → Memory → Option ℕ → Option Piece
string_piece d m none = none
string_piece d m (some len) =
    some (one_arg d (string_text d.flags d.field_width (cut_off d.precision len) (first d.args) m))

abbrev pub number_piece : Directive → Option (List ℕ) → Option Piece
number_piece d none = none
number_piece d (some text) = some (one_arg d text)

abbrev pub put_number : Directive → ℕ → Option Piece
put_number d base = number_piece d (number (first d.args) base d.field_width d.precision d.flags)

-- `case 'p'`: the width is 8 where none is given.
abbrev pub no_width : ℤ → Bool
no_width (pos n) = false
no_width (negsuc n) = n == 0

abbrev pub as_pointer : Directive → Directive
as_pointer d =
    if no_width d.field_width then record d { field_width = pos 8; flags = bit_or d.flags 1 } else d

-- No known letter: '%' stands for itself, and so does the rest; the end of the format is not skipped.
abbrev pub unknown : Directive → Piece
unknown d =
    let c = first d.fmt in
    record {
      text = (if c == 37 then [] else 37 ∷ []) ++ (if c == 0 then [] else c ∷ []);
      stores = [];
      fmt = drop 1 d.fmt;
      args = d.args;
    }

-- The second switch, with `written` bytes before.
unfoldable pub convert : Memory → ℕ → Directive → Option Piece
convert m written d =
    let c = first d.fmt in
    let small = record d { flags = bit_or d.flags 64 } in
    let signed = record d { flags = bit_or d.flags 2 } in
    if c == 99
    then some (one_arg d (char_text d.flags d.field_width (first d.args)))
    else if c == 115
    then string_piece d m (strlen (first d.args) m)
    else if c == 111
    then put_number d 8
    else if c == 112
    then put_number (as_pointer d) 16
    else if c == 120
    then put_number small 16
    else if c == 88
    then put_number d 16
    else if c == 100 || c == 105
    then put_number signed 10
    else if c == 117
    then put_number d 10
    else if c == 110
    then some (record (one_arg d []) { stores = (first d.args, written) ∷ [] })
    else some (unknown d)

-- The text, and what %n has written.
pub record Out : Type 0 where
  pub str : List ℕ
  pub stores : List (ℕ × ℕ)

abbrev pub add : Out → Piece → Out
add out p = record { str = out.str ++ p.text; stores = out.stores ++ p.stores }

abbrev pub with_piece : Option Piece → (Piece → Option Out) → Option Out
with_piece none k = none
with_piece (some p) k = k p

unfoldable pub vsprintf_loop : ℕ → Memory → List ℕ → List ℕ → Out → Option Out
unfolding convert
vsprintf_loop zero m fmt args out = none
vsprintf_loop (suc fuel) m [] args out = some out
vsprintf_loop (suc fuel) m (c ∷ fmt) args out =
    if c == 37
    then with_piece (convert m (length out.str) (directive fmt args))
        (λ p. vsprintf_loop fuel m p.fmt p.args (add out p))
    else vsprintf_loop fuel m fmt args (record out { str = out.str ++ c ∷ [] })

-- A round for each byte of the format, and one for its end. The result of vsprintf is the length of
-- the text.
unfoldable pub vsprintf : Memory → List ℕ → List ℕ → Option Out
unfolding vsprintf_loop
vsprintf m fmt args = vsprintf_loop (length fmt + 1) m fmt args (record { str = []; stores = [] })
