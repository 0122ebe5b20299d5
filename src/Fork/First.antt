-- ===== src/Fork/First.antt =====
-- The first task of include/linux/sched.h as kernel/fork.c reads it: its memory starts at 0, and has 16 MB,
-- which takes four page tables.
use my_linux_kernel.Common.{ℕ, ◌≡◌, refl, arith}
use my_linux_kernel.Segments.{get_base, get_limit}
use my_linux_kernel.Sched.InitTask.{init_task}
use my_linux_kernel.Fork.Child.{IsForkable}
use my_linux_kernel.Fork.Copied.{base_of, limit_of, tables_of}

pub init_base : (address pg_dir : ℕ) → base_of (init_task address pg_dir) ≡ 0
unfolding get_base
init_base address pg_dir = refl

init_limit : (address pg_dir : ℕ) → limit_of (init_task address pg_dir) ≡ 0x1000000
unfolding get_limit
init_limit address pg_dir = refl

pub init_tables : (address pg_dir : ℕ) → tables_of (init_task address pg_dir) ≡ 4
init_tables address pg_dir = rw (init_limit address pg_dir) refl

pub init_task-IsForkable : (address pg_dir : ℕ) → IsForkable (init_task address pg_dir)
unfolding get_base get_limit
init_task-IsForkable address pg_dir = record { entries = refl; bases = refl; limits = omega arith }
