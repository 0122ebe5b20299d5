-- ===== src/Sched/Init.antt =====
-- sched_init of kernel/sched.c.
pub mod Cleared
use my_linux_kernel.Common.{ℕ, zero, suc, ◌+◌, ◌/◌, List, [], ◌∷◌, set, u8, bit_and}
use my_linux_kernel.Sched.{nr_tasks}
use my_linux_kernel.Segments.{
  Desc, no_desc, put_desc, set_tss_desc, set_ldt_desc, set_intr_gate, set_system_gate,
  first_tss_entry, first_ldt_entry, tss_selector, ldt_selector,
}

-- The task array, the tables, the two registers of the running task, and the port writes, the newest
-- first.
pub record Boot : Type 0 where
  pub task : List ℕ
  pub gdt : ℕ → Desc
  pub idt : ℕ → Desc
  pub tr : ℕ
  pub ldtr : ℕ
  pub ports : List (ℕ × ℕ)

-- LATCH
abbrev pub latch : ℕ
latch = 1193180 / 100

-- One round of the loop: `p` is moved twice in the body and by 2 at its end.
abbrev pub clear_slot : ℕ → ℕ → Boot → Boot
clear_slot i p b = record b {
  task = set b.task i 0;
  gdt = put_desc (p + 1) no_desc (put_desc p no_desc b.gdt);
}

-- The loop, for `n` rounds from slot `i` and descriptor `p` on.
unfoldable pub clear_slots : ℕ → ℕ → ℕ → Boot → Boot
clear_slots zero i p b = b
clear_slots (suc n) i p b = clear_slots n (i + 1) (p + 4) (clear_slot i p b)

-- The tss of the first task stands 44 bytes behind the start of its structure, the ldt 20 bytes.
-- `mask` is what port 0x21 reads; `timer_interrupt` and `system_call` are addresses of the assembler's.
unfoldable pub sched_init : ℕ → ℕ → ℕ → ℕ → Boot → Boot
sched_init init_task timer_interrupt system_call mask b =
    let first =
      put_desc first_ldt_entry (set_ldt_desc (init_task + 20))
        (put_desc first_tss_entry (set_tss_desc (init_task + 44)) b.gdt) in
    let c = clear_slots nr_tasks 0 (2 + first_tss_entry) (record b { gdt = first }) in
    record c {
      idt =
          put_desc 0x80 (set_system_gate system_call)
            (put_desc 0x20 (set_intr_gate timer_interrupt) c.idt);
      tr = tss_selector 0;
      ldtr = ldt_selector 0;
      ports =
          (bit_and mask 0xfe, 0x21)
          ∷ (u8 (latch / 256), 0x40)
          ∷ (bit_and latch 0xff, 0x40)
          ∷ (0x36, 0x43)
          ∷ c.ports;
    }
