-- ===== src/Traps/Die/Int3.antt =====
-- do_int3 of kernel/traps.c: it shows the registers and returns.
use my_linux_kernel.Common.{ℕ, ◌≡◌, ap, arith, [], ◌∷◌, some}
use my_linux_kernel.Strings.Memory.{Memory}
use my_linux_kernel.Console.Valid.{IsValid}
use my_linux_kernel.Tty.Cooked.{Tty}
use my_linux_kernel.Vsprintf.Format.{
  skip_atoi, skip_flags, read_width, read_precision, skip_qualifier,
}
use my_linux_kernel.Traps.Die.{
  View, returns, ended, say, do_int3, general_format, index_format, segment_format, eip_format,
}
use my_linux_kernel.Traps.Die.Loops.{IsShown, Shows, bind-Shows, short-Shows}

module _ (strings : Memory) where
  general-Shows : (a b c d : ℕ) → Shows (say strings general_format (a ∷ b ∷ c ∷ d ∷ []))
  unfolding skip_flags read_width read_precision skip_qualifier skip_atoi
  general-Shows a b c d = short-Shows strings general_format _ (omega arith)

  index-Shows : (a b c d : ℕ) → Shows (say strings index_format (a ∷ b ∷ c ∷ d ∷ []))
  unfolding skip_flags read_width read_precision skip_qualifier skip_atoi
  index-Shows a b c d = short-Shows strings index_format _ (omega arith)

  segment-Shows : (a b c d : ℕ) → Shows (say strings segment_format (a ∷ b ∷ c ∷ d ∷ []))
  unfolding skip_flags read_width read_precision skip_qualifier skip_atoi
  segment-Shows a b c d = short-Shows strings segment_format _ (omega arith)

  eip-Shows : (a b c : ℕ) → Shows (say strings eip_format (a ∷ b ∷ c ∷ []))
  unfolding skip_flags read_width read_precision skip_qualifier skip_atoi
  eip-Shows a b c = short-Shows strings eip_format _ (omega arith)

  -- do_int3 shows the registers and returns.
  pub do_int3-IsShown :
      (view : View) (esp error_code fs es ds ebp esi edi edx ecx ebx eax : ℕ) (t : Tty)
      → IsValid t.console
      → (t' : Tty) × (do_int3 strings view esp error_code fs es ds ebp esi edi edx ecx ebx eax t
          ≡ some (returns t'))
        × IsShown t t'
  unfolding do_int3
  do_int3-IsShown view esp error_code fs es ds ebp esi edi edx ecx ebx eax t v =
      let (t', ran, shows) =
        bind-Shows (general-Shows eax ebx ecx edx)
          (bind-Shows (index-Shows esi edi ebp esp)
            (bind-Shows (segment-Shows ds es fs view.tr) (eip-Shows _ _ _)))
          t v in
      (t', ap (ended returns) ran, shows)
