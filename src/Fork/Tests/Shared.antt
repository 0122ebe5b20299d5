-- ===== src/Fork/Tests/Shared.antt =====
-- A witness of the theorem on sys_fork: the task in slot 1 has one page table, which maps one page, and
-- two pages are free.
use my_linux_kernel.Common.{ℕ, zero, suc, ◌+◌, ◌*◌, ◌/◌, ◌%◌, ◌≤◌, ◌<◌, ◌≡◌, ◌≢◌, inl, refl, arith}
use my_linux_kernel.Mm.Run.{low_mem}
use my_linux_kernel.Mm.Tables.Copy.Tests.{sharing, sharing-IsCopyable}
use my_linux_kernel.Segments.{get_base, get_limit}
use my_linux_kernel.Sched.{slot}
use my_linux_kernel.Fork.{sys_fork}
use my_linux_kernel.Fork.Copied.{base_of, tables_of, IsForkableMemory}
use my_linux_kernel.Fork.Call.{CanFork, Forks, sys_fork-Forks}
use my_linux_kernel.Fork.Tests.{tasks, parent, kernel, regs, parent-IsForkable}

parent_base : base_of parent ≡ 0x4000000
unfolding get_base
parent_base = refl

parent_tables : tables_of parent ≡ 4
unfolding get_limit
parent_tables = refl

behind_1 : (nr : ℕ) → 0 < nr → slot tasks nr ≡ 0 → 2 ≤ nr
behind_1 zero positive free = absurd (omega arith)
behind_1 (suc zero) positive free = absurd (omega arith)
behind_1 (suc (suc nr)) positive free = omega arith

dir_of_slot : (nr : ℕ) → nr * 0x4000000 / 0x400000 % 1024 ≡ nr * 16 % 1024
dir_of_slot nr = omega arith

memory_lem : (nr : ℕ) → 0 < nr → nr < 64 → slot tasks nr ≡ 0 → IsForkableMemory nr parent sharing
memory_lem nr positive small free =
    let behind = behind_1 nr positive free in
    rw (parent_base, parent_tables)
      (sharing-IsCopyable (nr * 0x4000000 / 0x400000 % 1024) (inl (place nr behind small).0)
        (place nr behind small).1)
  where
    place :
        (nr : ℕ)
        → 2 ≤ nr
        → nr < 64
        → (20 ≤ nr * 0x4000000 / 0x400000 % 1024) × (nr * 0x4000000 / 0x400000 % 1024 + 4 ≤ 1024)
    place nr behind small = (omega arith, omega arith)

above_8192 : (i : ℕ) → i * 4096 + low_mem ≢ 8192
above_8192 i = omega arith

pub kernel-CanFork : CanFork 2 kernel sharing
kernel-CanFork = record {
  at_last = refl;
  word = omega arith;
  tasks = refl;
  parent = parent-IsForkable;
  aligned = rw parent_base refl;
  memory = memory_lem;
  other = λ i small free. above_8192 i;
}

sys_fork-Forks_example : Forks regs kernel sharing (sys_fork regs kernel sharing)
sys_fork-Forks_example = sys_fork-Forks regs kernel 2 kernel-CanFork
