-- ===== src/Vsprintf/Format/Strings.antt =====
-- vsprintf of kernel/vsprintf.c: a string in a text.
use my_linux_kernel.Common.{
  ℕ, suc, ◌+◌, ◌<◌, ◌==◌, ◌&&◌, not, Bool, Bool-cases, inl, inr, ◌≡◌, ◌≢◌, true, false, ◌∙◌, refl,
  ap, arith, List, [], ◌∷◌, ◌++◌, append-nil, length, some, length-append,
}
use my_linux_kernel.Common.Int.{pos, negsuc, ◌-ℤ◌, pos_part, ltb_ℤ}
use my_linux_kernel.Strings.Memory.{Memory, IsString, all_addresses}
use my_linux_kernel.Strings.Search.Place.{strlen-IsString}
use my_linux_kernel.Vsprintf.Number.{has}
use my_linux_kernel.Vsprintf.Format.{
  skip_flags, Directive, read_width, read_precision, skip_qualifier, directive, convert,
  string_text, bytes_at, Out, add, vsprintf_loop, vsprintf,
}
use my_linux_kernel.Vsprintf.Format.Read.{Literal, end, byte, vsprintf_loop-Literal, last_round}

-- No width and no precision is given.
abbrev plain_string : List ℕ → List ℕ → Directive
plain_string fmt args = record {
  flags = 0;
  field_width = negsuc 0;
  precision = negsuc 0;
  fmt = 115 ∷ fmt;
  args = args;
}

directive-plain_string : (fmt args : List ℕ) → directive (115 ∷ fmt) args ≡ plain_string fmt args
unfolding skip_flags read_width read_precision skip_qualifier
directive-plain_string fmt args = refl

no_blanks : (k n : ℕ) → pos_part (negsuc k -ℤ pos n) ≡ 0
unfolding ◌-ℤ◌
no_blanks k n = ground arith

one_less : negsuc 0 -ℤ pos 1 ≡ negsuc 1
unfolding ◌-ℤ◌
one_less = refl

string_text-plain : (n s : ℕ) (m : Memory) → string_text 0 (negsuc 0) n s m ≡ bytes_at n s m
unfolding string_text has
string_text-plain n s m =
    let never : ltb_ℤ (pos n) (negsuc 0) ≡ false = ground arith in
    rw (no_blanks 0 n, never, one_less, no_blanks 1 n) (append-nil (bytes_at n s m))

pub string_round :
    (m : Memory) (s n fuel : ℕ) (after args : List ℕ) (out : Out)
    → IsString m s n
    → n < all_addresses
    → vsprintf_loop (suc fuel) m (37 ∷ 115 ∷ after) (s ∷ args) out
      ≡ vsprintf_loop fuel m after args
          (add out (record { text = bytes_at n s m; stores = []; fmt = after; args = args }))
unfolding vsprintf_loop convert
string_round m s n fuel after args out text small =
    rw
      (
        directive-plain_string after (s ∷ args),
        strlen-IsString s n m text small,
        string_text-plain n s m,
      )
      refl

pub vsprintf-string :
    (m : Memory) (before after : List ℕ) (s n : ℕ)
    → Literal before
    → Literal after
    → IsString m s n
    → n < all_addresses
    → vsprintf m (before ++ 37 ∷ 115 ∷ after) (s ∷ [])
      ≡ some (record { str = before ++ bytes_at n s m ++ after; stores = [] })
unfolding vsprintf
vsprintf-string m before after s n l r text small =
    let t = bytes_at n s m in
    let rest = 37 ∷ 115 ∷ after in
    let start : Out = record { str = []; stores = [] } in
    let fuel : length (before ++ rest) + 1 ≡ length before + suc (length after + suc 1) =
      omega (arith, length-append before rest) in
    ap (λ (n : ℕ). vsprintf_loop n m (before ++ rest) (s ∷ []) start) fuel
    ∙ vsprintf_loop-Literal m before rest (s ∷ []) (suc (length after + suc 1)) start l
    ∙ string_round m s n (length after + suc 1) after [] (record start { str = before }) text small
    ∙ last_round m after [] 1 (record start { str = before ++ t }) r

pub vsprintf-Literal :
    (m : Memory) (s : List ℕ) → Literal s → vsprintf m s [] ≡ some (record { str = s; stores = [] })
unfolding vsprintf
vsprintf-Literal m s l = last_round m s [] 0 (record { str = []; stores = [] }) l

-- A text without '%', found by looking at it.
abbrev pub is_literal : List ℕ → Bool
is_literal [] = true
is_literal (c ∷ s) = not (c == 37) && is_literal s

pub is_literal-Literal : (s : List ℕ) → is_literal s ≡ true → Literal s
is_literal-Literal [] all = end
is_literal-Literal (c ∷ s) all = elim (Bool-cases (c == 37)) [
  | inl percent ↦ absurd (false-ne-true (rw percent at all))
  | inr other ↦ byte (ground arith) (is_literal-Literal s (rw other at all))
]
  where
    false-ne-true : false ≢ true
    false-ne-true e = cc
