-- ===== src/Vsprintf/Format/Read.antt =====
-- vsprintf of kernel/vsprintf.c: a number in a text.
use my_linux_kernel.Common.{
  ℕ, suc, ◌+◌, ◌==◌, ◌≡◌, ◌≢◌, ◌∙◌, ap, sym, arith, false, List, [], ◌∷◌, ◌++◌, append_assoc,
  append-nil, length, some, if◌then◌else◌,
}
use my_linux_kernel.Common.Int.{negsuc}
use my_linux_kernel.Strings.Memory.{Memory}
use my_linux_kernel.Vsprintf.Number.{digits, tmp_digits, backwards}
use my_linux_kernel.Vsprintf.Format.{Directive, Out, vsprintf_loop}

-- A text without '%'.
pub data Literal : List ℕ → Type 0 where
  end : Literal []
  byte : {c : ℕ} {s : List ℕ} → c ≢ 37 → Literal s → Literal (c ∷ s)

-- 'o', 'u', 'x' and 'X', with their bases.
pub data Letter : ℕ → ℕ → Type 0 where
  octal : Letter 111 8
  decimal : Letter 117 10
  small_hex : Letter 120 16
  large_hex : Letter 88 16

module _ (m : Memory) where
  pub vsprintf_loop-Literal :
      (s rest args : List ℕ) (fuel : ℕ) (out : Out)
      → Literal s
      → vsprintf_loop (length s + fuel) m (s ++ rest) args out
        ≡ vsprintf_loop fuel m rest args (record out { str = out.str ++ s })
  unfolding vsprintf_loop
  vsprintf_loop-Literal [] rest args fuel out end =
      let e : length {A = ℕ} [] + fuel ≡ fuel = omega arith in
      rw e (
        ap (λ t. vsprintf_loop fuel m rest args (record out { str = t }))
          (sym (append-nil out.str)))
  vsprintf_loop-Literal (c ∷ s) rest args fuel out (byte ne l) =
      let e : length (c ∷ s) + fuel ≡ suc (length s + fuel) = omega arith in
      let plain_byte : (c == 37) ≡ false = ground arith in
      rw (e, plain_byte)
        (vsprintf_loop-Literal s rest args fuel (record out { str = out.str ++ c ∷ [] }) l
          ∙ ap (λ t. vsprintf_loop fuel m rest args (record out { str = t }))
              (append_assoc out.str (c ∷ []) s))

plain : ℕ → List ℕ → List ℕ → Directive
plain letter fmt args = record {
  flags = 0;
  field_width = negsuc 0;
  precision = negsuc 0;
  fmt = letter ∷ fmt;
  args = args;
}

-- The digits of `num`.
abbrev text_of : ℕ → ℕ → ℕ → List ℕ
text_of letter base num =
    backwards (tmp_digits (digits (if letter == 120 then 64 else 0)) num base) []

pub last_round :
    (m : Memory) (after args : List ℕ) (fuel : ℕ) (out : Out)
    → Literal after
    → vsprintf_loop (length after + suc fuel) m after args out
      ≡ some (record out { str = out.str ++ after })
unfolding vsprintf_loop
last_round m after args fuel out r =
    ap (λ s. vsprintf_loop (length after + suc fuel) m s args out) (sym (append-nil after))
    ∙ vsprintf_loop-Literal m after [] args (suc fuel) out r
