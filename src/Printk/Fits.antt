-- ===== src/Printk/Fits.antt =====
-- printk of kernel/printk.c: texts that fit into its buffer.
use my_linux_kernel.Common.{
  ℕ, zero, suc, ◌+◌, ◌≤◌, ◌<◌, ◌≡◌, refl, ap, ◌∙◌, arith, true, ltb, List, [], ◌∷◌, ◌++◌, length,
  length-append, some,
}
use my_linux_kernel.Strings.Memory.{Memory, IsString, all_addresses}
use my_linux_kernel.Vsprintf.Format.{Out, bytes_at, vsprintf_loop, vsprintf}
use my_linux_kernel.Vsprintf.Format.Read.{Literal, vsprintf_loop-Literal}
use my_linux_kernel.Vsprintf.Format.Strings.{string_round}
use my_linux_kernel.Vsprintf.Format.Short.{text_bound, vsprintf_loop-IsShort}
use my_linux_kernel.Printk.{buf_size, in_buf}

-- The text of `fmt` fits into the buffer, and %n writes nothing.
pub record Fits (m : Memory) (fmt args : List ℕ) : Type 0 where
  pub out : Out
  pub ran : vsprintf m fmt args ≡ some out
  pub small : length out.str < buf_size
  pub quiet : out.stores ≡ []

pub Fits-in_buf : {m : Memory} {fmt args : List ℕ} → (f : Fits m fmt args) → in_buf f.out ≡ true
Fits-in_buf f =
    let small : ltb (length f.out.str) buf_size ≡ true = ground (arith, f.small) in
    rw (small, f.quiet) refl

pub short-Fits :
    (m : Memory) (fmt args : List ℕ) → text_bound (length fmt + 1) fmt args ≤ 1000 → Fits m fmt args
unfolding vsprintf
short-Fits m fmt args bound =
    let (out, ran, long, quiet) =
      vsprintf_loop-IsShort m (length fmt + 1) fmt args (record { str = []; stores = [] })
        (omega arith) in
    record { out = out; ran = ran; small = omega arith; quiet = quiet }

pub length-bytes_at : (n s : ℕ) (m : Memory) → length (bytes_at n s m) ≡ n
length-bytes_at zero s m = refl
length-bytes_at (suc n) s m = omega (arith, length-bytes_at n (s + 1) m)

-- A format that starts with a text and the string of `n` bytes at `s`.
pub string-Fits :
    (m : Memory) (before after args : List ℕ) (s n : ℕ)
    → Literal before
    → IsString m s n
    → n < all_addresses
    → length before + n + text_bound (length after + 2) after args ≤ 1000
    → Fits m (before ++ 37 ∷ 115 ∷ after) (s ∷ args)
unfolding vsprintf
string-Fits m before after args s n l text small bound =
    let t = bytes_at n s m in
    let rest = 37 ∷ 115 ∷ after in
    let start : Out = record { str = []; stores = [] } in
    let behind : Out = record { str = before ++ t; stores = [] } in
    let fuel : length (before ++ rest) + 1 ≡ length before + suc (length after + 2) =
      omega (arith, length-append before rest) in
    let (out, ran, long, quiet) =
      vsprintf_loop-IsShort m (length after + 2) after args behind (omega arith) in
    record {
      out = out;
      ran =
          ap (λ (n : ℕ). vsprintf_loop n m (before ++ rest) (s ∷ args) start) fuel
          ∙ vsprintf_loop-Literal m before rest (s ∷ args) (suc (length after + 2)) start l
          ∙ string_round m s n (length after + 2) after args (record start { str = before }) text
              small
          ∙ ran;
      small = omega (arith, long, length-append before t, length-bytes_at n s m);
      quiet = quiet;
    }
