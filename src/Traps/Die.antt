-- ===== src/Traps/Die.antt =====
-- The functions of kernel/traps.c that the entries of kernel/asm.S call: they print the registers, and
-- all but do_int3 then loop for ever.
pub mod Loops
pub mod Int3
mod Tests
use my_linux_kernel.Common.{
  ℕ, zero, suc, ◌+◌, ◌*◌, ◌==◌, List, [], ◌∷◌, Option, none, some, add32, bit_and, if◌then◌else◌,
}
use my_linux_kernel.Segments.{Desc, get_base, get_limit}
use my_linux_kernel.Strings.Memory.{Memory}
use my_linux_kernel.Tty.Cooked.{Tty}
use my_linux_kernel.Printk.{printk}

-- What the functions read of the machine: the words of the kernel's stack, the words and bytes of a
-- segment (none where the selector or the address faults), the registers fs and tr, and the descriptors of the running task's code and data.
pub record View : Type 0 where
  pub peek : ℕ → ℕ
  pub get_seg_long : ℕ → ℕ → Option ℕ
  pub get_seg_byte : ℕ → ℕ → Option ℕ
  pub fs : ℕ
  pub tr : ℕ
  pub code : Desc
  pub data_desc : Desc

-- A function that returns, and `while (1)`.
pub data After : Type 0 where
  returns : Tty → After
  loops : Tty → After

-- A value that is read, or a fault, which has no result.
abbrev pub with_value : Option ℕ → (ℕ → Option Tty) → Option Tty
with_value none k = none
with_value (some w) k = k w

abbrev pub bind : Option Tty → (Tty → Option Tty) → Option Tty
bind none k = none
bind (some t) k = k t

abbrev pub ended : (Tty → After) → Option Tty → Option After
ended how none = none
ended how (some t) = some (how t)

abbrev pub shown : Option (ℕ × Tty) → Option Tty
shown none = none
shown (some (n, t)) = some t

-- `esp[i]`
abbrev pub at_esp : View → ℕ → ℕ → ℕ
at_esp view esp i = view.peek (add32 esp (i * 4))

abbrev pub title_format : List ℕ
title_format = 10 ∷ 13 ∷ b'%' ∷ b's' ∷ b':' ∷ 32 ∷ b'%' ∷ b'0' ∷ b'4' ∷ b'x' ∷ 10 ∷ 13 ∷ []

abbrev pub registers_format : List ℕ
registers_format =
    b'E' ∷ b'I' ∷ b'P' ∷ b':' ∷ 9 ∷ b'%' ∷ b'0' ∷ b'4' ∷ b'x' ∷ b':' ∷ b'%' ∷ b'p' ∷ 10 ∷ 13 ∷ b'E'
    ∷ b'F' ∷ b'L' ∷ b'A' ∷ b'G' ∷ b'S' ∷ b':' ∷ 9 ∷ b'%' ∷ b'p' ∷ 10 ∷ 13 ∷ b'E' ∷ b'S' ∷ b'P'
    ∷ b':' ∷ 9 ∷ b'%' ∷ b'0' ∷ b'4' ∷ b'x' ∷ b':' ∷ b'%' ∷ b'p' ∷ 10 ∷ 13 ∷ []

abbrev pub fs_format : List ℕ
fs_format = b'f' ∷ b's' ∷ b':' ∷ 32 ∷ b'%' ∷ b'0' ∷ b'4' ∷ b'x' ∷ 10 ∷ 13 ∷ []

abbrev pub base_format : List ℕ
base_format =
    b'b' ∷ b'a' ∷ b's' ∷ b'e' ∷ b':' ∷ 32 ∷ b'%' ∷ b'p' ∷ b',' ∷ 32 ∷ b'l' ∷ b'i' ∷ b'm' ∷ b'i'
    ∷ b't' ∷ b':' ∷ 32 ∷ b'%' ∷ b'p' ∷ 10 ∷ 13 ∷ []

abbrev pub stack_format : List ℕ
stack_format = b'S' ∷ b't' ∷ b'a' ∷ b'c' ∷ b'k' ∷ b':' ∷ 32 ∷ []

abbrev pub word_format : List ℕ
word_format = b'%' ∷ b'p' ∷ 32 ∷ []

abbrev pub newline_format : List ℕ
newline_format = 10 ∷ 13 ∷ []

abbrev pub byte_format : List ℕ
byte_format = b'%' ∷ b'0' ∷ b'2' ∷ b'x' ∷ 32 ∷ []

abbrev pub general_format : List ℕ
general_format =
    b'e' ∷ b'a' ∷ b'x' ∷ 9 ∷ 9 ∷ b'e' ∷ b'b' ∷ b'x' ∷ 9 ∷ 9 ∷ b'e' ∷ b'c' ∷ b'x' ∷ 9 ∷ 9 ∷ b'e'
    ∷ b'd' ∷ b'x' ∷ 10 ∷ 13 ∷ b'%' ∷ b'8' ∷ b'x' ∷ 9 ∷ b'%' ∷ b'8' ∷ b'x' ∷ 9 ∷ b'%' ∷ b'8' ∷ b'x'
    ∷ 9 ∷ b'%' ∷ b'8' ∷ b'x' ∷ 10 ∷ 13 ∷ []

abbrev pub index_format : List ℕ
index_format =
    b'e' ∷ b's' ∷ b'i' ∷ 9 ∷ 9 ∷ b'e' ∷ b'd' ∷ b'i' ∷ 9 ∷ 9 ∷ b'e' ∷ b'b' ∷ b'p' ∷ 9 ∷ 9 ∷ b'e'
    ∷ b's' ∷ b'p' ∷ 10 ∷ 13 ∷ b'%' ∷ b'8' ∷ b'x' ∷ 9 ∷ b'%' ∷ b'8' ∷ b'x' ∷ 9 ∷ b'%' ∷ b'8' ∷ b'x'
    ∷ 9 ∷ b'%' ∷ b'8' ∷ b'x' ∷ 10 ∷ 13 ∷ []

abbrev pub segment_format : List ℕ
segment_format =
    10 ∷ 13 ∷ b'd' ∷ b's' ∷ 9 ∷ b'e' ∷ b's' ∷ 9 ∷ b'f' ∷ b's' ∷ 9 ∷ b't' ∷ b'r' ∷ 10 ∷ 13 ∷ b'%'
    ∷ b'4' ∷ b'x' ∷ 9 ∷ b'%' ∷ b'4' ∷ b'x' ∷ 9 ∷ b'%' ∷ b'4' ∷ b'x' ∷ 9 ∷ b'%' ∷ b'4' ∷ b'x' ∷ 10
    ∷ 13 ∷ []

abbrev pub eip_format : List ℕ
eip_format =
    b'E' ∷ b'I' ∷ b'P' ∷ b':' ∷ 32 ∷ b'%' ∷ b'8' ∷ b'x' ∷ 32 ∷ 32 ∷ 32 ∷ b'C' ∷ b'S' ∷ b':' ∷ 32
    ∷ b'%' ∷ b'4' ∷ b'x' ∷ 32 ∷ 32 ∷ b'E' ∷ b'F' ∷ b'L' ∷ b'A' ∷ b'G' ∷ b'S' ∷ b':' ∷ 32 ∷ b'%'
    ∷ b'8' ∷ b'x' ∷ 10 ∷ 13 ∷ []

-- `strings` is where printk finds the strings of its arguments.
module _ (strings : Memory) where
  unfoldable pub say : List ℕ → List ℕ → Tty → Option Tty
  say fmt args t = shown (printk strings fmt args t)

  -- The loop over the words of the user's stack, for `n` rounds from number `i` on.
  unfoldable pub stack_words : ℕ → ℕ → View → ℕ → Tty → Option Tty
  stack_words zero i view esp t = some t
  stack_words (suc n) i view esp t =
      with_value (view.get_seg_long 0x17 (add32 (at_esp view esp 3) (i * 4)))
        (λ w. bind (say word_format (w ∷ []) t) (stack_words n (i + 1) view esp))

  -- The loop over the bytes of the code, for `n` rounds from number `i` on.
  unfoldable pub code_bytes : ℕ → ℕ → View → ℕ → Tty → Option Tty
  code_bytes zero i view esp t = some t
  code_bytes (suc n) i view esp t =
      with_value (view.get_seg_byte (at_esp view esp 1) (add32 (at_esp view esp 0) i))
        (λ byte. bind (say byte_format (bit_and 0xff byte ∷ []) t) (code_bytes n (i + 1) view esp))

  unfoldable pub stack_dump : View → ℕ → Tty → Option Tty
  stack_dump view esp t =
      if at_esp view esp 4 == 0x17
      then bind (say stack_format [] t)
          (λ t₁. bind (stack_words 4 0 view esp t₁) (say newline_format []))
      else some t

  -- die up to its last loop
  unfoldable pub report : View → ℕ → ℕ → ℕ → Tty → Option Tty
  report view str esp nr t =
      let word = at_esp view esp in
      bind (say title_format (str ∷ bit_and nr 0xffff ∷ []) t) (λ t₁.
        bind (say registers_format (word 1 ∷ word 0 ∷ word 2 ∷ word 4 ∷ word 3 ∷ []) t₁) (λ t₂.
          bind (say fs_format (view.fs ∷ []) t₂) (λ t₃.
            bind (say base_format (get_base view.code ∷ get_limit view.data_desc ∷ []) t₃) (λ t₄.
              bind (stack_dump view esp t₄)
                (λ t₅. bind (code_bytes 10 0 view esp t₅) (say newline_format []))))))

  unfoldable pub die : View → ℕ → ℕ → ℕ → Tty → Option After
  die view str esp nr t = ended loops (report view str esp nr t)

  -- The arguments are what the entry has pushed.
  unfoldable pub do_int3 :
      View → (esp error_code fs es ds ebp esi edi edx ecx ebx eax : ℕ) → Tty → Option After
  do_int3 view esp error_code fs es ds ebp esi edi edx ecx ebx eax t =
      let word = at_esp view esp in
      ended returns (
        bind (say general_format (eax ∷ ebx ∷ ecx ∷ edx ∷ []) t) (λ t₁.
          bind (say index_format (esi ∷ edi ∷ ebp ∷ esp ∷ []) t₁) (λ t₂.
            bind (say segment_format (ds ∷ es ∷ fs ∷ view.tr ∷ []) t₂)
              (say eip_format (word 0 ∷ word 1 ∷ word 2 ∷ [])))))

  -- `literal` is where the linker has put the text of a message.
  module _ (literal : List ℕ → ℕ) (view : View) where
    abbrev pub do_double_fault : ℕ → ℕ → Tty → Option After
    do_double_fault = die view (
        literal
          (b'd' ∷ b'o' ∷ b'u' ∷ b'b' ∷ b'l' ∷ b'e' ∷ 32 ∷ b'f' ∷ b'a' ∷ b'u' ∷ b'l' ∷ b't' ∷ []))

    abbrev pub do_general_protection : ℕ → ℕ → Tty → Option After
    do_general_protection = die view (
        literal (
          b'g' ∷ b'e' ∷ b'n' ∷ b'e' ∷ b'r' ∷ b'a' ∷ b'l' ∷ 32 ∷ b'p' ∷ b'r' ∷ b'o' ∷ b't' ∷ b'e'
          ∷ b'c' ∷ b't' ∷ b'i' ∷ b'o' ∷ b'n' ∷ []))

    abbrev pub do_alignment_check : ℕ → ℕ → Tty → Option After
    do_alignment_check = die view (
        literal (
          b'a' ∷ b'l' ∷ b'i' ∷ b'g' ∷ b'n' ∷ b'm' ∷ b'e' ∷ b'n' ∷ b't' ∷ 32 ∷ b'c' ∷ b'h' ∷ b'e'
          ∷ b'c' ∷ b'k' ∷ []))

    abbrev pub do_divide_error : ℕ → ℕ → Tty → Option After
    do_divide_error = die view (
        literal
          (b'd' ∷ b'i' ∷ b'v' ∷ b'i' ∷ b'd' ∷ b'e' ∷ 32 ∷ b'e' ∷ b'r' ∷ b'r' ∷ b'o' ∷ b'r' ∷ []))

    abbrev pub do_nmi : ℕ → ℕ → Tty → Option After
    do_nmi = die view (literal (b'n' ∷ b'm' ∷ b'i' ∷ []))

    abbrev pub do_debug : ℕ → ℕ → Tty → Option After
    do_debug = die view (literal (b'd' ∷ b'e' ∷ b'b' ∷ b'u' ∷ b'g' ∷ []))

    abbrev pub do_overflow : ℕ → ℕ → Tty → Option After
    do_overflow = die view (literal (b'o' ∷ b'v' ∷ b'e' ∷ b'r' ∷ b'f' ∷ b'l' ∷ b'o' ∷ b'w' ∷ []))

    abbrev pub do_bounds : ℕ → ℕ → Tty → Option After
    do_bounds = die view (literal (b'b' ∷ b'o' ∷ b'u' ∷ b'n' ∷ b'd' ∷ b's' ∷ []))

    abbrev pub do_invalid_op : ℕ → ℕ → Tty → Option After
    do_invalid_op =
        die view
          (literal (b'i' ∷ b'n' ∷ b'v' ∷ b'a' ∷ b'l' ∷ b'i' ∷ b'd' ∷ b'_' ∷ b'o' ∷ b'p' ∷ []))

    abbrev pub do_device_not_available : ℕ → ℕ → Tty → Option After
    do_device_not_available = die view (
        literal (
          b'd' ∷ b'e' ∷ b'v' ∷ b'i' ∷ b'c' ∷ b'e' ∷ 32 ∷ b'n' ∷ b'o' ∷ b't' ∷ 32 ∷ b'a' ∷ b'v'
          ∷ b'a' ∷ b'i' ∷ b'l' ∷ b'a' ∷ b'b' ∷ b'l' ∷ b'e' ∷ []))

    abbrev pub do_coprocessor_segment_overrun : ℕ → ℕ → Tty → Option After
    do_coprocessor_segment_overrun = die view (
        literal (
          b'c' ∷ b'o' ∷ b'p' ∷ b'r' ∷ b'o' ∷ b'c' ∷ b'e' ∷ b's' ∷ b's' ∷ b'o' ∷ b'r' ∷ 32 ∷ b's'
          ∷ b'e' ∷ b'g' ∷ b'm' ∷ b'e' ∷ b'n' ∷ b't' ∷ 32 ∷ b'o' ∷ b'v' ∷ b'e' ∷ b'r' ∷ b'r' ∷ b'u'
          ∷ b'n' ∷ []))

    abbrev pub do_segment_not_present : ℕ → ℕ → Tty → Option After
    do_segment_not_present = die view (
        literal (
          b's' ∷ b'e' ∷ b'g' ∷ b'm' ∷ b'e' ∷ b'n' ∷ b't' ∷ 32 ∷ b'n' ∷ b'o' ∷ b't' ∷ 32 ∷ b'p'
          ∷ b'r' ∷ b'e' ∷ b's' ∷ b'e' ∷ b'n' ∷ b't' ∷ []))

    abbrev pub do_invalid_tss : ℕ → ℕ → Tty → Option After
    do_invalid_tss =
        die view
          (literal (b'i' ∷ b'n' ∷ b'v' ∷ b'a' ∷ b'l' ∷ b'i' ∷ b'd' ∷ 32 ∷ b't' ∷ b's' ∷ b's' ∷ []))

    abbrev pub do_stack_segment : ℕ → ℕ → Tty → Option After
    do_stack_segment = die view (
        literal (
          b's' ∷ b't' ∷ b'a' ∷ b'c' ∷ b'k' ∷ 32 ∷ b's' ∷ b'e' ∷ b'g' ∷ b'm' ∷ b'e' ∷ b'n' ∷ b't'
          ∷ []))

    abbrev pub do_reserved : ℕ → ℕ → Tty → Option After
    do_reserved = die view (
        literal (
          b'r' ∷ b'e' ∷ b's' ∷ b'e' ∷ b'r' ∷ b'v' ∷ b'e' ∷ b'd' ∷ 32 ∷ b'(' ∷ b'1' ∷ b'5' ∷ b','
          ∷ b'1' ∷ b'7' ∷ b'-' ∷ b'4' ∷ b'7' ∷ b')' ∷ 32 ∷ b'e' ∷ b'r' ∷ b'r' ∷ b'o' ∷ b'r' ∷ []))
