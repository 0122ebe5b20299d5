-- ===== src/Fork/Call.antt =====
-- sys_fork of kernel/sys_call.S with the functions of kernel/fork.c that it calls.
use my_linux_kernel.Common.{ℕ, ◌+◌, ◌*◌, ◌%◌, ◌≤◌, ◌<◌, ◌≡◌, ◌≢◌, refl, ap, ◌∙◌, length, some}
use my_linux_kernel.Common.Int.{ℤ, pos}
use my_linux_kernel.Mm.Run.{low_mem, Mm, Run, done}
use my_linux_kernel.Mm.Pages.{get_free_page}
use my_linux_kernel.Mm.Pages.Alloc.{count}
use my_linux_kernel.Mm.Tables.Copy.{needed, spare}
use my_linux_kernel.Mm.Tables.Copy.Total.{shared_entries}
use my_linux_kernel.Sched.{nr_tasks, slot}
use my_linux_kernel.Fork.{eagain, Regs, Kernel, find_empty_process, sys_fork}
use my_linux_kernel.Fork.Empty.{IsNew, free, full, find_empty_process-IsNew}
use my_linux_kernel.Fork.Process.{IsUndone}
use my_linux_kernel.Fork.Child.{IsForkable}
use my_linux_kernel.Fork.Copied.{
  base_of, tables_of, dir_word, IsForkableMemory, IsForked, IsKept, IsSpare, made, refused,
  copy_process-Makes,
}

abbrev pub with_pid : Kernel → ℕ → Kernel
with_pid k w = record k { last_pid = pos w }

-- What the system call does: it returns -EAGAIN where all slots are taken, or where too few pages are
-- free, of which it then keeps none; or the new pid of a child in the first slot that was free.
pub data Forks (r : Regs) (k : Kernel) (m : Mm) (run : Run (ℤ × Kernel)) : Type 0 where
  no_slot :
      (w : ℕ)
      → ((j : ℕ) → 0 < j → j < nr_tasks → slot k.sched j ≢ 0)
      → run ≡ done (eagain, with_pid k w) m
      → Forks r k m run
  no_memory :
      (nr w p : ℕ) (m' : Mm) (k' : Kernel)
      → spare
          (shared_entries (base_of (k.sched.tcb k.sched.current)))
          (tables_of (k.sched.tcb k.sched.current))
          (dir_word (k.sched.tcb k.sched.current))
          m
        ≤ needed
            (tables_of (k.sched.tcb k.sched.current))
            (dir_word (k.sched.tcb k.sched.current))
            m.ram
      → run ≡ done (eagain, k') m'
      → IsSpare p m
      → IsUndone p (with_pid k w) k'
      → slot k.sched nr ≡ 0
      → IsKept nr (k.sched.tcb k.sched.current) m m'
      → Forks r k m run
  forks :
      (nr w p : ℕ) (m₁ m' : Mm) (k' : Kernel)
      → 0 < nr
      → nr < nr_tasks
      → slot k.sched nr ≡ 0
      → ((j : ℕ) → 0 < j → j < nr → slot k.sched j ≢ 0)
      → IsNew k.sched w
      → get_free_page m ≡ done p m₁
      → run ≡ done (pos w, k') m'
      → IsForked nr p r (with_pid k w) k' m₁ m'
      → Forks r k m run

-- A kernel that can fork: 64 slots, a last_pid that is not negative, a running task whose memory can
-- be copied into every free slot, and a page of its own that is not free.
pub record CanFork (last : ℕ) (k : Kernel) (m : Mm) : Type 0 where
  pub at_last : k.last_pid ≡ pos last
  pub word : last < 0x80000000
  pub tasks : length k.sched.task ≡ nr_tasks
  pub parent : IsForkable (k.sched.tcb k.sched.current)
  pub aligned : base_of (k.sched.tcb k.sched.current) % 0x400000 ≡ 0
  pub memory :
      (nr : ℕ)
      → 0 < nr
      → nr < nr_tasks
      → slot k.sched nr ≡ 0
      → IsForkableMemory nr (k.sched.tcb k.sched.current) m
  pub other : (i : ℕ) → i < 3840 → count m i ≡ 0 → i * 4096 + low_mem ≢ k.sched.current

-- Where the kernel can fork (64 slots, a last_pid that is not negative, a running task whose
-- memory can be copied into every free slot, and whose own page is not free), sys_fork ends in
-- one of three ways: with -EAGAIN where all slots are taken, and only last_pid changed; with
-- -EAGAIN where of the free pages no more are led to by no table of the running task than page
-- tables are copied, when every slot and page count is as before; or with a new positive pid,
-- and a child in the first free slot with as many page tables as the running task has: each
-- shares the first 1024 entries of the running task's table or, where the running task's memory
-- starts at 0, the first 160, and its other entries are 0.
pub sys_fork-Forks :
    (r : Regs) (k : Kernel) (last : ℕ) {m : Mm} → CanFork last k m → Forks r k m (sys_fork r k m)
unfolding sys_fork
sys_fork-Forks r k last {m} c =
    let (result, w, found, new, empty) = find_empty_process-IsNew k.sched last c.tasks c.word in
    let ran : find_empty_process k.sched k.last_pid ≡ some (result, pos w) =
      ap (find_empty_process k.sched) c.at_last ∙ found in
    rw ran (elim empty [
      | free nr positive small is_free before at ↦
          elim (copy_process-Makes nr r (with_pid k w) positive small is_free c.tasks c.parent
            c.aligned (c.memory nr positive small is_free) c.other) [
              | made p m₁ m' k' page run child ↦
                  forks nr w p m₁ m' k' positive small is_free before new page (rw at run) child
              | refused p m' k' few run page undone kept ↦
                  no_memory nr w p m' k' few (rw at run) page undone is_free kept
            ]
      | full taken at ↦ no_slot w taken (rw at refl)
    ])
