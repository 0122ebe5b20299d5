-- ===== src/Panic.antt =====
-- kernel/panic.c: panic shows its message and loops for ever.
pub mod Shown
mod Tests
use my_linux_kernel.Common.{ℕ, ◌==◌, List, [], ◌∷◌, Option, some, if◌then◌else◌}
use my_linux_kernel.Strings.Memory.{Memory}
use my_linux_kernel.Tty.Cooked.{Tty}
use my_linux_kernel.Traps.Die.{After, loops, bind, ended, say}

abbrev pub panic_title : List ℕ
panic_title =
    b'K' ∷ b'e' ∷ b'r' ∷ b'n' ∷ b'e' ∷ b'l' ∷ 32 ∷ b'p' ∷ b'a' ∷ b'n' ∷ b'i' ∷ b'c' ∷ b':' ∷ 32 ∷ []

abbrev pub panic_format : List ℕ
panic_format =
    b'K' ∷ b'e' ∷ b'r' ∷ b'n' ∷ b'e' ∷ b'l' ∷ 32 ∷ b'p' ∷ b'a' ∷ b'n' ∷ b'i' ∷ b'c' ∷ b':' ∷ 32
    ∷ b'%' ∷ b's' ∷ 10 ∷ 13 ∷ []

abbrev pub swapper_format : List ℕ
swapper_format =
    b'I' ∷ b'n' ∷ 32 ∷ b's' ∷ b'w' ∷ b'a' ∷ b'p' ∷ b'p' ∷ b'e' ∷ b'r' ∷ 32 ∷ b't' ∷ b'a' ∷ b's'
    ∷ b'k' ∷ 32 ∷ b'-' ∷ 32 ∷ b'n' ∷ b'o' ∷ b't' ∷ 32 ∷ b's' ∷ b'y' ∷ b'n' ∷ b'c' ∷ b'i' ∷ b'n'
    ∷ b'g' ∷ 10 ∷ 13 ∷ []

-- `current == task[0]`
abbrev pub in_swapper : Memory → ℕ → ℕ → Tty → Option Tty
in_swapper strings current first_task t =
    if current == first_task then say strings swapper_format [] t else some t

-- `strings` is where printk finds the message, at `s`.
unfoldable pub panic : Memory → ℕ → ℕ → ℕ → Tty → Option After
panic strings current first_task s t =
    ended loops (bind (say strings panic_format (s ∷ []) t) (in_swapper strings current first_task))
