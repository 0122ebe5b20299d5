-- ===== src/Traps/Die/Loops.antt =====
-- The functions of kernel/traps.c that print the registers: how they end, and what they leave.
use my_linux_kernel.Common.{
  ℕ, zero, suc, ◌+◌, ◌<◌, ◌==◌, ◌≡◌, refl, ap, ◌∙◌, arith, Bool-cases, inl, inr, List, [], ◌∷◌,
  Option, some, ◌≤◌, ◌*◌, add32, bit_and, length, drop,
}
use my_linux_kernel.Strings.Memory.{Memory, IsString}
use my_linux_kernel.Console.Valid.{IsValid}
use my_linux_kernel.Console.Valid.Scroll.{SameScreen, SameScreen-trans}
use my_linux_kernel.Console.Bounds.{Outside, con_print-Outside, con_print-SameScreen}
use my_linux_kernel.Console.Cursor.{con_print_lem}
use my_linux_kernel.Tty.Cooked.{Tty, tty_write}
use my_linux_kernel.Vsprintf.Format.{
  skip_atoi, skip_flags, read_width, read_precision, skip_qualifier,
}
use my_linux_kernel.Vsprintf.Format.Short.{text_bound}
use my_linux_kernel.Vsprintf.Format.Strings.{is_literal-Literal}
use my_linux_kernel.Printk.Fits.{Fits, Fits-in_buf, short-Fits, string-Fits}
use my_linux_kernel.Printk.{written, printk}
use my_linux_kernel.Traps.Die.{
  View, loops, bind, ended, shown, at_esp, say, stack_words, code_bytes, stack_dump, report, die,
  title_format, registers_format, fs_format, base_format, stack_format, newline_format, word_format,
  byte_format,
}

-- A terminal on which text has been shown, and nothing else has happened.
pub record IsShown (t t' : Tty) : Type 0 where
  pub valid : IsValid t'.console
  pub screen : SameScreen t.console t'.console
  pub outside : (b : ℕ) → Outside t.console b → t'.console.vram b ≡ t.console.vram b
  pub reads : t'.read_q ≡ t.read_q

IsShown-trans : {t t₁ t₂ : Tty} → IsShown t t₁ → IsShown t₁ t₂ → IsShown t t₂
IsShown-trans h k = record {
  valid = k.valid;
  screen = SameScreen-trans h.screen k.screen;
  outside = λ b out. let same = h.screen in k.outside b (omega arith) ∙ h.outside b out;
  reads = k.reads ∙ h.reads;
}

-- A step that shows text on every valid screen.
abbrev pub Shows : (Tty → Option Tty) → Type 0
Shows f = (t : Tty) → IsValid t.console → (t' : Tty) × (f t ≡ some t') × IsShown t t'

pub bind-Shows : {f g : Tty → Option Tty} → Shows f → Shows g → Shows (λ t. bind (f t) g)
bind-Shows first second t v =
    let (t₁, ran, one) = first t v in
    let (t₂, then_ran, two) = second t₁ one.valid in (t₂, rw ran then_ran, IsShown-trans one two)

nothing : {t : Tty} → IsValid t.console → IsShown t t
nothing v = record {
  valid = v;
  screen = record { columns = refl; lines = refl; base = refl; end = refl };
  outside = λ b out. refl;
  reads = refl;
}

-- The words of the user's stack and the bytes of the code that die prints can be read.
pub record IsReadable (view : View) (esp : ℕ) : Type 0 where
  pub stack :
      at_esp view esp 4 ≡ 0x17
      → (i : ℕ) → i < 4
      → (w : ℕ) × (view.get_seg_long 0x17 (add32 (at_esp view esp 3) (i * 4)) ≡ some w)
  pub code :
      (i : ℕ)
      → i < 10
      → (b : ℕ) × (view.get_seg_byte (at_esp view esp 1) (add32 (at_esp view esp 0) i) ≡ some b)

module _ (strings : Memory) where
  say-Shows : (fmt args : List ℕ) → Fits strings fmt args → Shows (say strings fmt args)
  unfolding say printk tty_write
  say-Shows fmt args fits t v =
      let str = fits.out.str in
      (
        tty_write 0 str t,
        ap (λ o. shown (written t o)) fits.ran ∙ rw (Fits-in_buf fits) refl,
        record {
          valid = (con_print_lem str v).0;
          screen = con_print-SameScreen str v;
          outside = λ b outside. con_print-Outside str b v outside;
          reads = refl;
        },
      )

  pub short-Shows :
      (fmt args : List ℕ)
      → text_bound (length fmt + 1) fmt args ≤ 1000
      → Shows (say strings fmt args)
  short-Shows fmt args bound = say-Shows fmt args (short-Fits strings fmt args bound)

  word-Shows : (w : ℕ) → Shows (say strings word_format (w ∷ []))
  unfolding skip_flags read_width read_precision skip_qualifier skip_atoi
  word-Shows w = short-Shows word_format (w ∷ []) (omega arith)

  byte-Shows : (w : ℕ) → Shows (say strings byte_format (w ∷ []))
  unfolding skip_flags read_width read_precision skip_qualifier skip_atoi
  byte-Shows w = short-Shows byte_format (w ∷ []) (omega arith)

  stack_words-Shows :
      (n i : ℕ) (view : View) (esp : ℕ)
      → i + n ≤ 4
      → ((i : ℕ)
          → i < 4
          → (w : ℕ) × (view.get_seg_long 0x17 (add32 (at_esp view esp 3) (i * 4)) ≡ some w))
      → Shows (stack_words strings n i view esp)
  unfolding stack_words
  stack_words-Shows zero i view esp small readable t v = (t, refl, nothing v)
  stack_words-Shows (suc n) i view esp small readable t v =
      let (w, read) = readable i (omega arith) in
      rw read (
        bind-Shows (word-Shows w) (stack_words-Shows n (i + 1) view esp (omega arith) readable) t v)

  code_bytes-Shows :
      (n i : ℕ) (view : View) (esp : ℕ)
      → i + n ≤ 10
      → IsReadable view esp
      → Shows (code_bytes strings n i view esp)
  unfolding code_bytes
  code_bytes-Shows zero i view esp small readable t v = (t, refl, nothing v)
  code_bytes-Shows (suc n) i view esp small readable t v =
      let (b, read) = readable.code i (omega arith) in
      rw read (
        bind-Shows (byte-Shows (bit_and 0xff b))
          (code_bytes-Shows n (i + 1) view esp (omega arith) readable) t v)

  newline-Shows : Shows (say strings newline_format [])
  newline-Shows = short-Shows newline_format [] (omega arith)

  stack_dump-Shows :
      (view : View) (esp : ℕ) → IsReadable view esp → Shows (stack_dump strings view esp)
  unfolding stack_dump
  stack_dump-Shows view esp readable t v = elim (Bool-cases (at_esp view esp 4 == 0x17)) [
    | inl user ↦
        let seg : at_esp view esp 4 ≡ 0x17 = ground arith in
        rw user (
          bind-Shows (short-Shows stack_format [] (omega arith))
            (bind-Shows (stack_words-Shows 4 0 view esp (omega arith) (readable.stack seg))
              newline-Shows)
            t v)
    | inr kernel ↦ rw kernel (t, refl, nothing v)
  ]

  title-Shows :
      (str n w : ℕ)
      → IsString strings str n
      → n ≤ 900
      → Shows (say strings title_format (str ∷ w ∷ []))
  unfolding skip_flags read_width read_precision skip_qualifier skip_atoi
  title-Shows str n w text small = say-Shows title_format (str ∷ w ∷ []) (
      string-Fits strings (10 ∷ 13 ∷ []) (drop 4 title_format) (w ∷ []) str n
        (is_literal-Literal (10 ∷ 13 ∷ []) refl) text (omega arith) (omega arith))

  registers-Shows : (a b c d e : ℕ) → Shows (say strings registers_format (a ∷ b ∷ c ∷ d ∷ e ∷ []))
  unfolding skip_flags read_width read_precision skip_qualifier skip_atoi
  registers-Shows a b c d e = short-Shows registers_format _ (omega arith)

  fs-Shows : (a : ℕ) → Shows (say strings fs_format (a ∷ []))
  unfolding skip_flags read_width read_precision skip_qualifier skip_atoi
  fs-Shows a = short-Shows fs_format _ (omega arith)

  base-Shows : (a b : ℕ) → Shows (say strings base_format (a ∷ b ∷ []))
  unfolding skip_flags read_width read_precision skip_qualifier skip_atoi
  base-Shows a b = short-Shows base_format _ (omega arith)

  report-Shows :
      (view : View) (str esp nr n : ℕ)
      → IsString strings str n
      → n ≤ 900
      → IsReadable view esp
      → Shows (report strings view str esp nr)
  unfolding report
  report-Shows view str esp nr n text small readable = bind-Shows (title-Shows str n _ text small) (
      bind-Shows (registers-Shows _ _ _ _ _) (
        bind-Shows (fs-Shows _) (
          bind-Shows (base-Shows _ _) (
            bind-Shows (stack_dump-Shows view esp readable)
              (bind-Shows (code_bytes-Shows 10 0 view esp (omega arith) readable) newline-Shows)))))

  -- On a valid screen, for a message of at most 900 bytes, where the ten bytes of code and, for
  -- a user program, the four words of the stack can be read: die gets as far as its endless
  -- loop, whatever else the registers and the memory hold; the screen is still valid and in its
  -- place, no byte outside video memory has changed, and the read queue is as before.
  pub die-IsShown :
      (view : View) (str esp nr n : ℕ) (t : Tty)
      → IsString strings str n
      → n ≤ 900
      → IsReadable view esp
      → IsValid t.console
      → (t' : Tty) × (die strings view str esp nr t ≡ some (loops t')) × IsShown t t'
  unfolding die
  die-IsShown view str esp nr n t text small readable v =
      let (t', ran, shows) = report-Shows view str esp nr n text small readable t v in
      (t', ap (ended loops) ran, shows)
