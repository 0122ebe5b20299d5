-- ===== src/Syscall.antt =====
-- The system calls: system_call of kernel/sys_call.S over sys_call_table of include/linux/sys.h, and
-- fork of kernel/main.c, which _syscall0 of include/unistd.h makes.
pub mod Table
pub mod Dispatch
mod Tests
use my_linux_kernel.Common.{ℕ, ◌+◌, ◌%◌, Option, none, some, get_elem?}
use my_linux_kernel.Common.Int.{ℤ, pos, negsuc}
use my_linux_kernel.Mm.Run.{Mm, Run, done, panic, hang}
use my_linux_kernel.Fork.{Regs, Kernel, sys_fork}
use my_linux_kernel.Syscall.Table.{
  Entry, no_entry, sys_fork_entry, sys_call_table, number_of, nr_fork,
}

-- What `call sys_call_table(, %eax, 4)` does: it runs sys_fork, calls address 0, or calls the address
-- that a word outside the table holds.
pub data Called : Type 0 where
  ran : Run (ℤ × Kernel) → Called
  at_zero : Called
  outside_table : Called

abbrev pub called : Regs → Kernel → Mm → Option Entry → Called
called r k m none = outside_table
called r k m (some no_entry) = at_zero
called r k m (some sys_fork_entry) = ran (sys_fork r k m)

-- The address is added up modulo 2^32, and so the number counts modulo 2^30.
unfoldable pub system_call : ℕ → Regs → Kernel → Mm → Called
system_call eax r k m = called r k m (get_elem? sys_call_table (eax % 0x40000000))

-- What _syscall0 makes of the result: the value and errno.
abbrev pub syscall0 : ℤ → ℤ → ℤ × ℤ
syscall0 errno (pos n) = (pos n, errno)
syscall0 errno (negsuc n) = (negsuc 0, pos (n + 1))

-- The state of a program that goes on behind its system call.
pub record Program : Type 0 where
  pub value : ℤ
  pub errno : ℤ
  pub kernel : Kernel
  pub memory : Mm

abbrev pub finished : ℤ → Run (ℤ × Kernel) → Option Program
finished errno (done (res, k') m') = some (record {
  value = (syscall0 errno res).0;
  errno = (syscall0 errno res).1;
  kernel = k';
  memory = m';
})
finished errno (panic p) = none
finished errno hang = none

abbrev pub back : ℤ → Called → Option Program
back errno (ran run) = finished errno run
back errno at_zero = none
back errno outside_table = none

-- fork, as the parent sees it.
unfoldable pub fork : ℤ → Regs → Kernel → Mm → Option Program
fork errno r k m = back errno (system_call (number_of nr_fork) r k m)
