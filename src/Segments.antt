-- ===== src/Segments.antt =====
-- The descriptors of include/linux/head.h, and the macros of include/asm/system.h and
-- include/linux/sched.h that write and read them. A descriptor is two 32-bit words.
pub mod Base
use my_linux_kernel.Common.{ℕ, ◌+◌, ◌*◌, ◌/◌, ◌%◌, ◌==◌, add32, if◌then◌else◌}

pub record Desc : Type 0 where
  pub a : ℕ
  pub b : ℕ

abbrev pub no_desc : Desc
no_desc = record { a = 0; b = 0 }

-- _set_tssldt_desc: the limit 104, the four bytes of the address, the type, and no flags.
unfoldable pub set_tssldt_desc : ℕ → ℕ → Desc
set_tssldt_desc addr type = record {
  a = 104 + addr % 0x10000 * 0x10000;
  b = addr / 0x10000 % 256 + type * 256 + addr / 0x1000000 % 256 * 0x1000000;
}

abbrev pub set_tss_desc : ℕ → Desc
set_tss_desc addr = set_tssldt_desc addr 0x89

abbrev pub set_ldt_desc : ℕ → Desc
set_ldt_desc addr = set_tssldt_desc addr 0x82

-- A descriptor that is written into a table.
abbrev pub put_desc : ℕ → Desc → (ℕ → Desc) → ℕ → Desc
put_desc i d table j = if i == j then d else table j

-- _set_gate: the selector 8 and the low half of the address, then its high half and the flags.
unfoldable pub set_gate : ℕ → ℕ → ℕ → Desc
set_gate type dpl addr = record {
  a = 0x00080000 + addr % 0x10000;
  b = addr / 0x10000 * 0x10000 + (0x8000 + dpl * 0x2000 + type * 0x100);
}

abbrev pub set_intr_gate : ℕ → Desc
set_intr_gate addr = set_gate 14 0 addr

abbrev pub set_trap_gate : ℕ → Desc
set_trap_gate addr = set_gate 15 0 addr

abbrev pub set_system_gate : ℕ → Desc
set_system_gate addr = set_gate 15 3 addr

-- FIRST_TSS_ENTRY and FIRST_LDT_ENTRY
abbrev pub first_tss_entry : ℕ
first_tss_entry = 5

abbrev pub first_ldt_entry : ℕ
first_ldt_entry = first_tss_entry + 1

-- _TSS and _LDT
abbrev pub tss_selector : ℕ → ℕ
tss_selector n = n * 16 + first_tss_entry * 8

abbrev pub ldt_selector : ℕ → ℕ
ldt_selector n = n * 16 + first_ldt_entry * 8

-- The low half of the base stands in the high half of the first word, its other bytes at the ends of
-- the second.
unfoldable pub set_base : Desc → ℕ → Desc
set_base d base = record {
  a = d.a % 0x10000 + base % 0x10000 * 0x10000;
  b = base / 0x10000 % 256 + d.b / 256 % 0x10000 * 256 + base / 0x1000000 % 256 * 0x1000000;
}

unfoldable pub get_base : Desc → ℕ
get_base d = d.b / 0x1000000 * 0x1000000 + d.b % 256 * 0x10000 + d.a / 0x10000

-- `lsll` and `incl`: the limit in bytes, in pages of 4 KB where the bit of granularity is set.
unfoldable pub get_limit : Desc → ℕ
get_limit d =
    let limit = d.a % 0x10000 + d.b / 0x10000 % 16 * 0x10000 in
    add32 (if d.b / 0x800000 % 2 == 1 then limit * 0x1000 + 0xfff else limit) 1
