-- ===== src/Vsprintf/Number/Digits.antt =====
-- number of kernel/vsprintf.c: the value of the digits in `tmp`.
use my_linux_kernel.Common.{
  ℕ, ◌+◌, ◌-◌, ◌*◌, ◌<◌, ◌==◌, ◌&&◌, ◌||◌, leb, Bool, true, false, List, [], ◌∷◌, ◌≡◌, inl, inr,
  refl, arith, ltb, get_or, if◌then◌else◌, Bool-cases,
}
use my_linux_kernel.Common.Bytes.{all_below, all_below-elim}
use my_linux_kernel.Vsprintf.Number.{has, upper_digits, lower_digits, digits}

-- '0' to '9', and 'a' to 'z' or 'A' to 'Z'.
unfoldable pub is_numeral : Bool → ℕ → Bool
is_numeral lower c =
    (leb 48 c && leb c 57) || (if lower then leb 97 c && leb c 122 else leb 65 c && leb c 90)

-- The value of a digit, 36 for any other byte, and the value of a text with the highest place first.
unfoldable pub digit_value : ℕ → ℕ
digit_value c =
    if leb 48 c && leb c 57
    then c - 48
    else if leb 65 c && leb c 90
    then c - 55
    else if leb 97 c && leb c 122
    then c - 87
    else 36

-- Digits of the base.
abbrev pub all_numerals : Bool → ℕ → List ℕ → Bool
all_numerals lower base [] = true
all_numerals lower base (c ∷ cs) =
    (is_numeral lower c && ltb (digit_value c) base) && all_numerals lower base cs

abbrev pub value_from : ℕ → ℕ → List ℕ → ℕ
value_from base v [] = v
value_from base v (c ∷ cs) = value_from base (v * base + digit_value c) cs

abbrev pub value : ℕ → List ℕ → ℕ
value base cs = value_from base 0 cs

abbrev pub IsDigits : Bool → List ℕ → Type 0
IsDigits lower ds =
    (r : ℕ) → r < 36 → (digit_value (get_or ds r 0) ≡ r) × (is_numeral lower (get_or ds r 0) ≡ true)

module _ (lower : Bool) (ds : List ℕ) where
  abbrev right : ℕ → Bool
  right r = digit_value (get_or ds r 0) == r

  abbrev proper : ℕ → Bool
  proper r = is_numeral lower (get_or ds r 0)

  right-IsDigits : all_below 36 right ≡ true → all_below 36 proper ≡ true → IsDigits lower ds
  right-IsDigits all all_proper r h =
      (ground (arith, all_below-elim 36 right r all h), all_below-elim 36 proper r all_proper h)

upper_digits-IsDigits : IsDigits false upper_digits
unfolding digit_value is_numeral
upper_digits-IsDigits = right-IsDigits false upper_digits refl refl

lower_digits-IsDigits : IsDigits true lower_digits
unfolding digit_value is_numeral
lower_digits-IsDigits = right-IsDigits true lower_digits refl refl

pub digits-IsDigits : (type : ℕ) → IsDigits (has type 64) (digits type)
digits-IsDigits type = elim (Bool-cases (has type 64)) [
  | inl e ↦ rw e lower_digits-IsDigits
  | inr e ↦ rw e upper_digits-IsDigits
]

-- the value with the lowest place first
abbrev value_low : ℕ → List ℕ → ℕ
value_low base [] = 0
value_low base (c ∷ cs) = value_low base cs * base + digit_value c
