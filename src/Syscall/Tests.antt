-- ===== src/Syscall/Tests.antt =====
-- Witnesses of the theorems on the system calls: the numbers, and the fork of the task in
-- slot 1.
use my_linux_kernel.Common.{ℕ, ◌%◌, ◌≡◌, ◌==◌, ◌≤◌, length, if◌then◌else◌}
use my_linux_kernel.Common.Int.{pos}
use my_linux_kernel.Fork.{sys_fork}
use my_linux_kernel.Fork.Tests.{kernel, regs}
use my_linux_kernel.Fork.Tests.Shared.{kernel-CanFork}
use my_linux_kernel.Mm.Tables.Copy.Tests.{sharing}
use my_linux_kernel.Syscall.Table.{Call, number_of, nr_fork, sys_call_table}
use my_linux_kernel.Syscall.{ran, at_zero, outside_table, system_call, fork}
use my_linux_kernel.Syscall.Dispatch.{system_call_lem, Returns, fork-Returns}

system_call_lem_example :
    ((c : Call) (eax : ℕ)
      → eax % 0x40000000 ≡ number_of c
      → system_call eax regs kernel sharing ≡ (
          if number_of c == number_of nr_fork then ran (sys_fork regs kernel sharing) else at_zero))
    × ((eax : ℕ)
        → length sys_call_table ≤ eax % 0x40000000
        → system_call eax regs kernel sharing ≡ outside_table)
system_call_lem_example = system_call_lem regs kernel sharing

fork-Returns_example : Returns (pos 0) regs kernel sharing (fork (pos 0) regs kernel sharing)
fork-Returns_example = fork-Returns (pos 0) regs kernel 2 kernel-CanFork
