-- ===== src/Keyboard/Scan.antt =====
-- kernel/chr_drv/kboard.c: the scan code that keyboard_handler reads, and the one that do_self uses.
use my_linux_kernel.Common.{
  ℕ, ◌==◌, ◌≡◌, ◌≢◌, ◌∷◌, ◌∙◌, sym, ap, refl, inl, inr, true, Bool-cases, some, get_or, arith,
}
use my_linux_kernel.Tty.Queue.{empty}
use my_linux_kernel.Tty.Cooked.{Tty, copy_loop, copy_to_cooked, do_tty_interrupt}
use my_linux_kernel.Keyboard.{Kboard, out, do_self, tests, call, take_code, keyboard_handler}
use my_linux_kernel.Keyboard.Table.{Key, key_table}

idle_interrupt : (t : Tty) → empty t.read_q ≡ true → do_tty_interrupt t ≡ some t
unfolding do_tty_interrupt copy_to_cooked copy_loop
idle_interrupt t e = rw e refl

no_key-ne-do_self : ◌≢◌ {A = Key} Key.no_key Key.do_self
no_key-ne-do_self e = cc

has_no_key :
    (code other : ℕ)
    → get_or key_table other Key.no_key ≡ Key.no_key
    → (code == other) ≡ true
    → get_or key_table code Key.no_key ≢ Key.do_self
has_no_key code other none_there e plain =
    let same : other ≡ code = ground arith in
    no_key-ne-do_self (sym none_there ∙ ap (λ c. get_or key_table c Key.no_key) same ∙ plain)

take_code-do_self :
    (code : ℕ) (k : Kboard)
    → get_or key_table code Key.no_key ≡ Key.do_self
    → take_code code k ≡ some (do_self k)
unfolding take_code call
take_code-do_self code k plain = elim (Bool-cases (code == 0xe0)) [
  | inl e ↦ absurd (has_no_key code 0xe0 refl e plain)
  | inr e ↦ elim (Bool-cases (code == 0xe1)) [
    | inl f ↦ absurd (has_no_key code 0xe1 refl f plain)
    | inr f ↦ rw (e, f, plain) refl
  ]
]

do_self-zero : (k : Kboard) → k.scan_code ≡ 0 → do_self k ≡ k
unfolding do_self
do_self-zero k z = elim (Bool-cases (tests k.mode 0x3)) [
  | inl e ↦ rw (z, e) refl
  | inr e ↦ rw (z, e) refl
]

-- do_self looks at the variable `scan_code` of the file, which keyboard_handler does not set.
-- While it is 0 and nothing waits to be read, a key that key_table gives to do_self changes
-- nothing but the interrupt controller: no character is typed.
pub keyboard_handler-do_self :
    (code : ℕ) (k : Kboard)
    → get_or key_table code Key.no_key ≡ Key.do_self
    → k.scan_code ≡ 0
    → empty k.tty.read_q ≡ true
    → keyboard_handler code k ≡ some (out 0x20 0x20 k)
unfolding keyboard_handler out
keyboard_handler-do_self code k plain z idle =
    let k₁ : Kboard = record k { ports = (0x20, 0x20) ∷ k.ports } in
    let same : do_self k₁ ≡ k₁ = do_self-zero k₁ z in
    rw (take_code-do_self code k₁ plain, same, idle_interrupt k.tty idle) refl
