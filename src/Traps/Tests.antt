-- ===== src/Traps/Tests.antt =====
-- A witness of the theorem on kernel/traps.c, and the gate of the page fault.
use my_linux_kernel.Common.{ℕ, ◌<◌, arith, []}
use my_linux_kernel.Segments.{no_desc}
use my_linux_kernel.Traps.{Handler, divide_error, page_fault, Machine, trap_init}
use my_linux_kernel.Traps.Gates.{Gated, trap_init-Gated}

abbrev address : Handler → ℕ
address divide_error = 0x7000
address page_fault = 0x7040
address h = 0x7100

abbrev machine : Machine
machine = record { idt = λ v. no_desc; ports = [] }

address_word : (h : Handler) → address h < 4294967296
address_word divide_error = omega arith
address_word page_fault = omega arith
address_word h = omega arith

trap_init-Gated_example : Gated address machine (trap_init address 0xff 0xff machine)
trap_init-Gated_example = trap_init-Gated address 0xff 0xff machine address_word
