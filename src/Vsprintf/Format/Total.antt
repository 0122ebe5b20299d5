-- ===== src/Vsprintf/Format/Total.antt =====
-- vsprintf of kernel/vsprintf.c: every directive goes on in the format.
use my_linux_kernel.Common.{
  ℕ, zero, suc, ◌+◌, ◌-◌, ◌*◌, ◌≤◌, ◌<◌, ◌==◌, ◌≡◌, ◌||◌, refl, Bool, true, false, Bool-cases, inl,
  inr, arith, List, [], ◌∷◌, ◌++◌, length, drop, length-drop, Option, some, ltb, if◌then◌else◌,
  bit_or, u32,
}
use my_linux_kernel.Common.Int.{pos, ltb_ℤ}
use my_linux_kernel.Strings.Memory.{Memory, IsString, all_addresses}
use my_linux_kernel.Strings.Search.{strlen}
use my_linux_kernel.Strings.Search.Place.{strlen-IsString}
use my_linux_kernel.Vsprintf.Number.{number}
use my_linux_kernel.Vsprintf.Format.{
  is_digit, skip_atoi, first, flag_of, skip_flags, to_int, Directive, read_width, read_precision,
  skip_qualifier, directive, Piece, string_piece, put_number, no_width, as_pointer, unknown,
  convert, Out, add, vsprintf_loop, vsprintf,
}

skip_atoi_le : (i : ℕ) (s : List ℕ) → length (skip_atoi i s).1 ≤ length s
unfolding skip_atoi
skip_atoi_le i [] = omega arith
skip_atoi_le i (c ∷ s) = elim (Bool-cases (is_digit c)) [
  | inl e ↦ rw e (omega (arith, skip_atoi_le (u32 (i * 10 + (c - 48))) s))
  | inr e ↦ rw e (omega arith)
]

skip_flags_le : (flags : ℕ) (s : List ℕ) → length (skip_flags flags s).1 ≤ length s
unfolding skip_flags
skip_flags_le flags [] = omega arith
skip_flags_le flags (c ∷ s) = elim (Bool-cases (flag_of c == 0)) [
  | inl e ↦ rw e (omega arith)
  | inr e ↦ rw e (omega (arith, skip_flags_le (bit_or flags (flag_of c)) s))
]

read_width_le :
    (flags : ℕ) (fmt args : List ℕ) → length (read_width flags fmt args).fmt ≤ length fmt
unfolding read_width
read_width_le flags fmt args = elim (Bool-cases (is_digit (first fmt))) [
  | inl digit ↦ rw digit (skip_atoi_le 0 fmt)
  | inr e ↦ elim (Bool-cases (first fmt == 42)) [
    | inl star ↦ elim (Bool-cases (ltb_ℤ (to_int (first args)) (pos 0))) [
      | inl minus ↦ rw (e, star, minus) (omega arith)
      | inr plus ↦ rw (e, star, plus) (omega arith)
    ]
    | inr plain ↦ rw (e, plain) (omega arith)
  ]
]

read_precision_le : (d : Directive) → length (read_precision d).fmt ≤ length d.fmt
unfolding read_precision
read_precision_le d =
    let shorter = length-drop 1 d.fmt in
    elim (Bool-cases (first d.fmt == 46)) [
      | inl dot ↦ elim (Bool-cases (is_digit (first (drop 1 d.fmt)))) [
        | inl digit ↦ rw (dot, digit) (omega (arith, skip_atoi_le 0 (drop 1 d.fmt)))
        | inr e ↦ elim (Bool-cases (first (drop 1 d.fmt) == 42)) [
          | inl star ↦ rw (dot, e, star) (omega arith)
          | inr plain ↦ rw (dot, e, plain) (omega arith)
        ]
      ]
      | inr none_given ↦ rw none_given (omega arith)
    ]

skip_qualifier_le : (d : Directive) → length (skip_qualifier d).fmt ≤ length d.fmt
unfolding skip_qualifier
skip_qualifier_le d =
    let c = first d.fmt in
    let shorter = length-drop 1 d.fmt in
    elim (Bool-cases (c == 104 || c == 108 || c == 76)) [
      | inl e ↦ rw e (omega arith)
      | inr e ↦ rw e (omega arith)
    ]

directive_le : (fmt args : List ℕ) → length (directive fmt args).fmt ≤ length fmt
directive_le fmt args =
    let flags = skip_flags 0 fmt in
    let wide = read_width flags.0 flags.1 args in
    omega (
      arith,
      skip_qualifier_le (read_precision wide),
      read_precision_le wide,
      read_width_le flags.0 flags.1 args,
      skip_flags_le 0 fmt,
    )

-- A directive is done, and leaves the format behind its letter.
abbrev Done : List ℕ → Option Piece → Type 0
Done fmt r = (p : Piece) × (r ≡ some p) × (length p.fmt ≤ length fmt)

if-Done :
    (fmt : List ℕ) (b : Bool) (r s : Option Piece)
    → Done fmt r
    → Done fmt s
    → Done fmt (if b then r else s)
if-Done fmt true r s h k = h
if-Done fmt false r s h k = k

some-Done : (fmt : List ℕ) (p : Piece) → length p.fmt ≤ length fmt → Done fmt (some p)
some-Done fmt p h = (p, refl, h)

module _ (m : Memory) (strings : (s : ℕ) → (n : ℕ) × IsString m s n × (n < all_addresses)) where
  behind : (d : Directive) → length (drop 1 d.fmt) ≤ length d.fmt
  behind d = omega (arith, length-drop 1 d.fmt)

  put_number-Done :
      (d : Directive) (base : ℕ) → 2 ≤ base → base ≤ 36 → Done d.fmt (put_number d base)
  unfolding number
  put_number-Done d base low high =
      let in_range : ltb base 2 || ltb 36 base ≡ false = ground arith in
      rw in_range (_, refl, behind d)

  pointer-Done : (d : Directive) → Done d.fmt (put_number (as_pointer d) 16)
  pointer-Done d = elim (Bool-cases (no_width d.field_width)) [
    | inl e ↦ rw e (
        put_number-Done (record d { field_width = pos 8; flags = bit_or d.flags 1 }) 16
          (omega arith) (omega arith))
    | inr e ↦ rw e (put_number-Done d 16 (omega arith) (omega arith))
  ]

  string-Done : (d : Directive) → Done d.fmt (string_piece d m (strlen (first d.args) m))
  string-Done d =
      let (n, text, small) = strings (first d.args) in
      rw (strlen-IsString (first d.args) n m text small) (_, refl, behind d)

  convert-Done : (written : ℕ) (d : Directive) → Done d.fmt (convert m written d)
  unfolding convert
  convert-Done written d =
      let c = first d.fmt in
      let small = record d { flags = bit_or d.flags 64 } in
      let signed = record d { flags = bit_or d.flags 2 } in
      let octal = put_number-Done d 8 (omega arith) (omega arith) in
      let hex = put_number-Done d 16 (omega arith) (omega arith) in
      let small_hex = put_number-Done small 16 (omega arith) (omega arith) in
      let decimal = put_number-Done d 10 (omega arith) (omega arith) in
      let signed_decimal = put_number-Done signed 10 (omega arith) (omega arith) in
      if-Done d.fmt (c == 99) _ _ (some-Done d.fmt _ (behind d)) (
        if-Done d.fmt (c == 115) _ _ (string-Done d) (
          if-Done d.fmt (c == 111) _ _ octal (
            if-Done d.fmt (c == 112) _ _ (pointer-Done d) (
              if-Done d.fmt (c == 120) _ _ small_hex (
                if-Done d.fmt (c == 88) _ _ hex (
                  if-Done d.fmt (c == 100 || c == 105) _ _ signed_decimal (
                    if-Done d.fmt (c == 117) _ _ decimal (
                      if-Done d.fmt (c == 110) _ _ (some-Done d.fmt _ (behind d))
                        (some-Done d.fmt (unknown d) (behind d))))))))))

  vsprintf_loop_total :
      (fuel : ℕ) (fmt args : List ℕ) (out : Out)
      → length fmt < fuel
      → (out' : Out) × (vsprintf_loop fuel m fmt args out ≡ some out')
  unfolding vsprintf_loop
  vsprintf_loop_total zero fmt args out h = absurd (omega arith)
  vsprintf_loop_total (suc fuel) [] args out h = (out, refl)
  vsprintf_loop_total (suc fuel) (c ∷ fmt) args out h = elim (Bool-cases (c == 37)) [
    | inl percent ↦
        let d = directive fmt args in
        let (p, done, shorter) = convert-Done (length out.str) d in
        let (out', rest) =
          vsprintf_loop_total fuel p.fmt p.args (add out p)
            (omega (arith, directive_le fmt args)) in
        rw (percent, done) (out', rest)
    | inr plain ↦
        rw plain
          (vsprintf_loop_total fuel fmt args (record out { str = out.str ++ c ∷ [] }) (omega arith))
  ]

pub vsprintf_total :
    (m : Memory) (fmt args : List ℕ)
    → ((s : ℕ) → (n : ℕ) × IsString m s n × (n < all_addresses))
    → (out : Out) × (vsprintf m fmt args ≡ some out)
unfolding vsprintf
vsprintf_total m fmt args strings =
    vsprintf_loop_total m strings (length fmt + 1) fmt args (record { str = []; stores = [] })
      (omega arith)
