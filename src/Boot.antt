-- ===== src/Boot.antt =====
-- main of kernel/main.c up to move_to_user_mode: the parts of the kernel are set up one after the
-- other, and the bounds of the memory are printed.
pub mod Booted
pub mod Paging
pub mod Identity
pub mod Mapped
pub mod First
mod Tests
use my_linux_kernel.Common.{ℕ, List, [], ◌∷◌, Option, none, some}
use my_linux_kernel.Mm.Run.{Mm}
use my_linux_kernel.Mm.Layout.{memory_end, buffer_memory_end, init_memory}
use my_linux_kernel.Traps.{Handler, Machine, trap_init}
use my_linux_kernel.Sched.Init.{Boot, sched_init}
use my_linux_kernel.Console.Init.{keyboard_gate}
use my_linux_kernel.Tty.Cooked.{Tty}
use my_linux_kernel.Tty.Init.{tty_init}
use my_linux_kernel.Strings.Memory.{Memory}
use my_linux_kernel.Printk.{printk}

-- What the boot sectors, the linker and the ports give: the size of the extended memory in kB, the
-- other bytes that setup.S has left, the addresses of the assembler's entries and of init_task, and
-- what is read from port 0x21 in trap_init, sched_init and con_init, 0xA1 and 0x61.
pub record Given : Type 0 where
  pub ext_mem_k : ℕ
  pub bios : ℕ → ℕ
  pub handler : Handler → ℕ
  pub timer_interrupt : ℕ
  pub system_call : ℕ
  pub keyboard_interrupt : ℕ
  pub init_task : ℕ
  pub mask_1 : ℕ
  pub mask_2 : ℕ
  pub mask_3 : ℕ
  pub mask_4 : ℕ
  pub bell : ℕ

-- The state of the parts: the memory, the tables and the ports, and the terminal.
pub record System : Type 0 where
  pub memory : Mm
  pub boot : Boot
  pub tty : Tty

-- "\n\rmemory start: %d, end: %d\n\r"
abbrev pub memory_message : List ℕ
memory_message =
    10 ∷ 13 ∷ b'm' ∷ b'e' ∷ b'm' ∷ b'o' ∷ b'r' ∷ b'y' ∷ 32 ∷ b's' ∷ b't' ∷ b'a' ∷ b'r' ∷ b't' ∷ b':'
    ∷ 32 ∷ b'%' ∷ b'd' ∷ b',' ∷ 32 ∷ b'e' ∷ b'n' ∷ b'd' ∷ b':' ∷ 32 ∷ b'%' ∷ b'd' ∷ 10 ∷ 13 ∷ []

-- `trap_init` on the tables and the ports.
unfoldable pub init_traps : Given → Boot → Boot
init_traps g b =
    let t = trap_init g.handler g.mask_1 g.mask_2 (record { idt = b.idt; ports = b.ports }) in
    record b { idt = t.idt; ports = t.ports }

-- The calls of mem_init, trap_init, sched_init and tty_init, in their order. The gate of the
-- keyboard is the last call but the ports' of con_init, which tty_init calls.
unfoldable pub init_parts : Given → System → System
init_parts g s =
    let memory = init_memory g.ext_mem_k s.memory in
    let trapped = init_traps g s.boot in
    let b = sched_init g.init_task g.timer_interrupt g.system_call g.mask_3 trapped in
    record {
      memory = memory;
      boot = record b { idt = keyboard_gate g.keyboard_interrupt b.idt };
      tty = tty_init g.bios g.mask_4 g.bell s.tty;
    }

abbrev pub with_tty : System → Option (ℕ × Tty) → Option System
with_tty s none = none
with_tty s (some (n, t)) = some (record s { tty = t })

-- `strings` is where printk finds the strings of its arguments.
unfoldable pub main : Memory → Given → System → Option System
main strings g s =
    let s₁ = init_parts g s in
    let end_mem = memory_end g.ext_mem_k in
    with_tty s₁ (printk strings memory_message (buffer_memory_end end_mem ∷ end_mem ∷ []) s₁.tty)
