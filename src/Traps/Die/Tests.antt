-- ===== src/Traps/Die/Tests.antt =====
-- Witnesses of the theorem on die of kernel/traps.c: a page of zeros, and a stack of a user program.
use my_linux_kernel.Common.{◌≡◌, ◌==◌, refl, arith, some, if◌then◌else◌}
use my_linux_kernel.Tty.Cooked.{Tty}
use my_linux_kernel.Printk.Tests.{terminal, screen-IsValid, no_strings}
use my_linux_kernel.Strings.Memory.{IsString}
use my_linux_kernel.Traps.Die.{View, loops, die}
use my_linux_kernel.Traps.Die.Loops.{IsShown, IsReadable, die-IsShown}

abbrev view : View
view = record {
  peek = λ a. if a == 0x1010 then 0x17 else a;
  get_seg_long = λ seg a. some a;
  get_seg_byte = λ seg a. some 0x90;
  fs = 0x17;
  tr = 0x28;
  code = record { a = 0xfff; b = 0x04c0fa00 };
  data_desc = record { a = 0xfff; b = 0x04c0f200 };
}

message-IsString : IsString no_strings 0x5000 0
message-IsString = record { before = λ i small. absurd (omega arith); here = refl }

view-IsReadable : IsReadable view 0x1000
view-IsReadable = record { stack = λ user i small. (_, refl); code = λ i small. (_, refl) }

die-IsShown_example :
    (t' : Tty) × (die no_strings view 0x5000 0x1000 13 terminal ≡ some (loops t'))
    × IsShown terminal t'
die-IsShown_example =
    die-IsShown no_strings view 0x5000 0x1000 13 0 terminal message-IsString (omega arith)
      view-IsReadable screen-IsValid
