-- ===== src/Vsprintf/Format/Short.antt =====
-- vsprintf of kernel/vsprintf.c: how long a text can be, found by looking at its format.
use my_linux_kernel.Common.{
  ℕ, zero, suc, ◌+◌, ◌/◌, ◌≤◌, ◌<◌, ◌==◌, ◌&&◌, ◌||◌, ◌≡◌, refl, Bool, true, false, Bool-cases, inl,
  inr, arith, List, [], ◌∷◌, ◌++◌, length, length-append, drop, Option, some, leb, append-nil, ap,
  ◌∙◌, bit_or, if◌then◌else◌,
}
use my_linux_kernel.Common.Bytes.{both_true}
use my_linux_kernel.Common.Int.{ℤ, pos, negsuc, pos_part}
use my_linux_kernel.Strings.Memory.{Memory}
use my_linux_kernel.Vsprintf.Number.{
  digits, digit_loop, tmp_digits, sign_char, sign_text, magnitude, prefix_text, raised, number,
}
use my_linux_kernel.Vsprintf.Number.Width.{number-length}
use my_linux_kernel.Vsprintf.Format.{
  first, Directive, directive, Piece, no_width, as_pointer, put_number, convert, Out, add,
  vsprintf_loop,
}

length-digit_loop :
    (fuel : ℕ) (ds : List ℕ) (num base : ℕ) → length (digit_loop fuel ds num base) ≤ fuel
unfolding digit_loop
length-digit_loop zero ds num base = omega arith
length-digit_loop (suc fuel) ds num base = elim (Bool-cases (num == 0)) [
  | inl e ↦ rw e (omega arith)
  | inr e ↦ rw e (omega (arith, length-digit_loop fuel ds (num / base) base))
]

length-tmp_digits : (ds : List ℕ) (num base : ℕ) → length (tmp_digits ds num base) ≤ 32
unfolding tmp_digits
length-tmp_digits ds num base = elim (Bool-cases (num == 0)) [
  | inl e ↦ rw e (omega arith)
  | inr e ↦ rw e (length-digit_loop 32 ds num base)
]

length-sign_text : (sign : ℕ) → length (sign_text sign) ≤ 1
length-sign_text sign = ground arith

length-prefix_text : (base type : ℕ) → length (prefix_text base type) ≤ 2
unfolding prefix_text
length-prefix_text base type = ground arith

not_raised : (tmp : List ℕ) → raised (negsuc 0) tmp ≤ length tmp
not_raised tmp = ground arith

-- A number with a width of at most 8, and without a precision.
number-Short :
    (num base : ℕ) (size : ℤ) (type : ℕ)
    → 2 ≤ base
    → base ≤ 36
    → pos_part size ≤ 8
    → (out : List ℕ) × (number num base size (negsuc 0) type ≡ some out) × (length out ≤ 40)
number-Short num base size type two top narrow =
    let (out, ran, long) = number-length num base size (negsuc 0) type two top in
    let tmp = tmp_digits (digits type) (magnitude num type) base in
    (
      out,
      ran,
      omega (
        arith,
        long,
        length-sign_text (sign_char num type),
        length-prefix_text base type,
        not_raised tmp,
        length-tmp_digits (digits type) (magnitude num type) base,
      ),
    )

-- %x, %p or %d with a width of at most 8, and without a precision.
abbrev is_none : ℤ → Bool
is_none (pos n) = false
is_none (negsuc n) = n == 0

abbrev is_short : Directive → Bool
is_short d =
    (first d.fmt == 120 || (first d.fmt == 112 || first d.fmt == 100))
    && (leb (pos_part d.field_width) 8 && is_none d.precision)

is_none_lem : (p : ℤ) → is_none p ≡ true → p ≡ negsuc 0
is_none_lem p none = ground arith

-- What such a directive does.
ShortPiece : Directive → Option Piece → Type 0
ShortPiece d r =
    (p : Piece) × (r ≡ some p)
    × (length p.text ≤ 40)
    × (p.stores ≡ [])
    × (p.fmt ≡ drop 1 d.fmt)
    × (p.args ≡ drop 1 d.args)

put_number-Short :
    (d e : Directive) (base : ℕ)
    → 2 ≤ base
    → base ≤ 36
    → pos_part e.field_width ≤ 8
    → e.precision ≡ negsuc 0
    → e.fmt ≡ d.fmt
    → e.args ≡ d.args
    → ShortPiece d (put_number e base)
unfolding ShortPiece
put_number-Short d e base two top narrow none same_fmt same_args =
    let (text, ran, short) =
      number-Short (first e.args) base e.field_width e.flags two top narrow in
    rw (none, ran) (_, refl, short, refl, ap (drop 1) same_fmt, ap (drop 1) same_args)

pointer_width :
    (d : Directive) → pos_part d.field_width ≤ 8 → pos_part (as_pointer d).field_width ≤ 8
pointer_width d narrow = elim (Bool-cases (no_width d.field_width)) [
  | inl e ↦ rw e (omega arith)
  | inr e ↦ rw e narrow
]

pointer-Short :
    (d : Directive)
    → pos_part d.field_width ≤ 8
    → d.precision ≡ negsuc 0
    → ShortPiece d (put_number (as_pointer d) 16)
pointer-Short d narrow none = elim (Bool-cases (no_width d.field_width)) [
  | inl e ↦ rw e (
      put_number-Short d (record d { field_width = pos 8; flags = bit_or d.flags 1 }) 16
        (omega arith) (omega arith) (omega arith) none refl refl)
  | inr e ↦ rw e (put_number-Short d d 16 (omega arith) (omega arith) narrow none refl refl)
]

convert-Short :
    (m : Memory) (written : ℕ) (d : Directive)
    → is_short d ≡ true
    → ShortPiece d (convert m written d)
unfolding convert
convert-Short m written d short =
    let c = first d.fmt in
    let (letter, rest) =
      both_true (c == 120 || (c == 112 || c == 100))
        (leb (pos_part d.field_width) 8 && is_none d.precision) short in
    let (width, precision) =
      both_true (leb (pos_part d.field_width) 8) (is_none d.precision) rest in
    let narrow : pos_part d.field_width ≤ 8 = ground arith in
    let none = is_none_lem d.precision precision in
    elim (Bool-cases (first d.fmt == 120)) [
      | inl x ↦
          let at : first d.fmt ≡ 120 = ground arith in
          rw at (
            put_number-Short d (record d { flags = bit_or d.flags 64 }) 16 (omega arith)
              (omega arith) narrow none refl refl)
      | inr not_x ↦ elim (Bool-cases (first d.fmt == 112)) [
        | inl p ↦ let at : first d.fmt ≡ 112 = ground arith in rw at (pointer-Short d narrow none)
        | inr not_p ↦
            let at : first d.fmt ≡ 100 = ground arith in
            rw at (
              put_number-Short d (record d { flags = bit_or d.flags 2 }) 10 (omega arith)
                (omega arith) narrow none refl refl)
      ]
    ]

-- A bound of the text, for a format of such directives; 5000 where there is another one.
abbrev pub text_bound : ℕ → List ℕ → List ℕ → ℕ
text_bound zero fmt args = 5000
text_bound (suc fuel) [] args = 0
text_bound (suc fuel) (c ∷ fmt) args =
    let d = directive fmt args in
    let rest = text_bound fuel (drop 1 d.fmt) (drop 1 d.args) in
    let more = text_bound fuel fmt args in
    if c == 37 then if is_short d then 40 + rest else 5000 else 1 + more

-- The text that is written behind `out`, and no word that %n writes.
abbrev pub IsShort : ℕ → Out → Option Out → Type 0
IsShort n out r =
    (out' : Out) × (r ≡ some out')
    × (length out'.str ≤ length out.str + n)
    × (out'.stores ≡ out.stores)

pub vsprintf_loop-IsShort :
    (m : Memory) (fuel : ℕ) (fmt args : List ℕ) (out : Out)
    → text_bound fuel fmt args < 5000
    → IsShort (text_bound fuel fmt args) out (vsprintf_loop fuel m fmt args out)
unfolding vsprintf_loop ShortPiece
vsprintf_loop-IsShort m zero fmt args out small = absurd (omega arith)
vsprintf_loop-IsShort m (suc fuel) [] args out small = (out, refl, omega arith, refl)
vsprintf_loop-IsShort m (suc fuel) (c ∷ fmt) args out small = elim (Bool-cases (c == 37)) [
  | inl percent ↦ elim (Bool-cases (is_short (directive fmt args))) [
    | inl short ↦
        let d = directive fmt args in
        let (p, ran, text, stores, behind, args') = convert-Short m (length out.str) d short in
        let small' : 40 + text_bound fuel (drop 1 d.fmt) (drop 1 d.args) < 5000 =
          rw (percent, short) at small in
        let (out', rest, long, same) =
          vsprintf_loop-IsShort m fuel (drop 1 d.fmt) (drop 1 d.args) (add out p) (omega arith) in
        rw (percent, short, ran, behind, args')
          (
            out',
            rest,
            omega (arith, length-append out.str p.text),
            same ∙ ap (λ (s : List (ℕ × ℕ)). out.stores ++ s) stores ∙ append-nil out.stores,
          )
    | inr other ↦ absurd (too_big (rw (percent, other) at small))
  ]
  | inr plain ↦
      let small' : 1 + text_bound fuel fmt args < 5000 = rw plain at small in
      let (out', rest, long, same) =
        vsprintf_loop-IsShort m fuel fmt args (record out { str = out.str ++ c ∷ [] })
          (omega arith) in
      rw plain (out', rest, omega (arith, length-append out.str (c ∷ [])), same)
]
  where
    too_big : 5000 < 5000 → ⊥
    too_big h = omega arith
