-- ===== src/Traps.antt =====
-- trap_init of kernel/traps.c: the gates of the processor's exceptions.
pub mod Gates
pub mod Die
mod Tests
use my_linux_kernel.Common.{ℕ, zero, suc, ◌+◌, List, [], ◌∷◌, bit_and}
use my_linux_kernel.Segments.{Desc, put_desc, set_trap_gate, set_system_gate}

-- The entries in kernel/asm.S and mm/page.S, whose addresses the linker fixes.
pub data Handler : Type 0 where
  divide_error : Handler
  debug : Handler
  nmi : Handler
  int3 : Handler
  overflow : Handler
  bounds : Handler
  invalid_op : Handler
  double_fault : Handler
  coprocessor_segment_overrun : Handler
  invalid_tss : Handler
  segment_not_present : Handler
  stack_segment : Handler
  page_fault : Handler
  general_protection : Handler
  reserved : Handler
  alignment_check : Handler

pub record Machine : Type 0 where
  pub idt : ℕ → Desc
  pub ports : List (ℕ × ℕ)

module _ (address : Handler → ℕ) where
  abbrev trap : ℕ → Handler → (ℕ → Desc) → ℕ → Desc
  trap n h = put_desc n (set_trap_gate (address h))

  abbrev system : ℕ → Handler → (ℕ → Desc) → ℕ → Desc
  system n h = put_desc n (set_system_gate (address h))

  -- The loop, for `n` vectors from `i` on.
  unfoldable pub reserve : ℕ → ℕ → (ℕ → Desc) → ℕ → Desc
  reserve zero i idt = idt
  reserve (suc n) i idt = reserve n (i + 1) (trap i reserved idt)

  -- The gates before the loop, the last one first.
  abbrev pub first_gates : (ℕ → Desc) → ℕ → Desc
  first_gates idt = trap 17 alignment_check (
      trap 15 reserved (
        trap 14 page_fault (
          trap 13 general_protection (
            trap 12 stack_segment (
              trap 11 segment_not_present (
                trap 10 invalid_tss (
                  trap 9 coprocessor_segment_overrun (
                    trap 8 double_fault (
                      trap 6 invalid_op (
                        system 5 bounds (
                          system 4 overflow (
                            system 3 int3
                              (trap 2 nmi (trap 1 debug (trap 0 divide_error idt)))))))))))))))

  -- `mask_1` and `mask_2` are what the ports 0x21 and 0xA1 read.
  unfoldable pub trap_init : ℕ → ℕ → Machine → Machine
  trap_init mask_1 mask_2 m = record {
    idt = reserve 30 18 (first_gates m.idt);
    ports = (bit_and mask_2 0xdf, 0xa1) ∷ (bit_and mask_1 0xfb, 0x21) ∷ m.ports;
  }
