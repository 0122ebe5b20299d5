-- ===== src/Panic/Tests.antt =====
-- A witness of the theorem on panic of kernel/panic.c: the message "A" stands at 16, and the first task
-- is running.
use my_linux_kernel.Common.{◌==◌, ◌≡◌, refl, arith, some, if◌then◌else◌}
use my_linux_kernel.Strings.Memory.{Memory, IsString}
use my_linux_kernel.Printk.Tests.{terminal}
use my_linux_kernel.Traps.Die.{loops}
use my_linux_kernel.Panic.{panic}
use my_linux_kernel.Panic.Shown.{panicked, panic_lem}

abbrev message : Memory
message a = if a == 16 then 65 else 0

message-IsString : IsString message 16 1
message-IsString = record {
  before = λ i small. let at : i ≡ 0 = omega arith in rw at (omega arith);
  here = refl;
}

panic_lem_example :
    panic message 8192 8192 16 terminal ≡ some (loops (panicked message 8192 8192 16 1 terminal))
panic_lem_example = panic_lem message 8192 8192 16 1 terminal message-IsString (omega arith)
