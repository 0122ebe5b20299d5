-- ===== src/Fork/Copied.antt =====
-- copy_process of kernel/fork.c with the page tables that it copies.
use my_linux_kernel.Common.{
  ℕ, ◌+◌, ◌*◌, ◌/◌, ◌%◌, ◌<◌, ◌≡◌, ◌≢◌, ◌≤◌, ◌⊎◌, inl, inr, refl, arith, length, set,
}
use my_linux_kernel.Common.Int.{ℤ}
use my_linux_kernel.Mm.Run.{low_mem, Mm, Run, done}
use my_linux_kernel.Mm.Pages.{get_free_page}
use my_linux_kernel.Mm.Pages.Alloc.{count, out_of_memory, allocated, get_free_page-Alloc}
use my_linux_kernel.Mm.Tables.{tables_for}
use my_linux_kernel.Mm.Tables.Copy.{IsCopyable, Copied, copied, needed, spare}
use my_linux_kernel.Mm.Tables.Copy.Spare.{spare-full}
use my_linux_kernel.Mm.Tables.Copy
use my_linux_kernel.Mm.Tables.Copy.Back.{GivenBack, GivenBack-refl, undo-GivenBack, page-GivenBack}
use my_linux_kernel.Mm.Tables.Free.Total.{free_page_tables_run}
use my_linux_kernel.Mm.Tables.Copy.Total.{shared_entries, shared_entries_lem}
use my_linux_kernel.Mm.Tables.Copy.Page.{
  page-IsCopyable, page_needed, page_spare, copy_page_tables-Copies,
}
use my_linux_kernel.Sched.{TaskStruct, slot}
use my_linux_kernel.Segments.{get_base, get_limit}
use my_linux_kernel.Fork.{eagain, ldt_entry, Regs, Kernel, copy_process}
use my_linux_kernel.Fork.Child.{IsForkable, IsChild}
use my_linux_kernel.Fork.Process.{
  copy_process-IsChild, copy_process-IsUndone, copy_process-no_page, IsUndone, nothing-IsUndone,
}

-- Where the memory of a task starts, how many bytes it has, and how many tables that takes.
abbrev pub base_of : TaskStruct → ℕ
base_of t = get_base (ldt_entry t 2)

abbrev pub limit_of : TaskStruct → ℕ
limit_of t = get_limit (ldt_entry t 2)

abbrev pub tables_of : TaskStruct → ℕ
tables_of t = tables_for (limit_of t)

-- The number of the directory's entry for the start of a task's memory.
abbrev pub dir_word : TaskStruct → ℕ
dir_word t = base_of t / 0x400000 % 1024

-- Memory of which task `t` can be copied into slot `nr`.
abbrev pub IsForkableMemory : ℕ → TaskStruct → Mm → Type 0
IsForkableMemory nr t m =
    IsCopyable (shared_entries (base_of t)) (tables_of t) (dir_word t)
      (nr * 0x4000000 / 0x400000 % 1024) m

-- A child at `p` in slot `nr`, whose page tables share what those of the running task lead to; `m₁`
-- is the memory with the page `p` taken.
pub record IsForked (nr p : ℕ) (r : Regs) (k k' : Kernel) (m₁ m' : Mm) : Type 0 where
  pub child : IsChild nr p r k k'
  pub memory :
      Copied
        (shared_entries (base_of (k.sched.tcb k.sched.current)))
        (tables_of (k.sched.tcb k.sched.current))
        (dir_word (k.sched.tcb k.sched.current))
        (nr * 0x4000000 / 0x400000 % 1024)
        m₁
        m'

-- The memory `m'` is as good as `m` to the tasks that there were.
abbrev pub IsKept : ℕ → TaskStruct → Mm → Mm → Type 0
IsKept nr t m m' = GivenBack (tables_of t) (nr * 0x4000000 / 0x400000 % 1024) m m'

-- A page that was free, or none.
abbrev pub IsSpare : ℕ → Mm → Type 0
IsSpare p m = (p ≡ 0) ⊎ ((i : ℕ) × (i < 3840) × (count m i ≡ 0) × (p ≡ i * 4096 + low_mem))

-- What copy_process does in slot `nr`: it makes a child, or it finds too few free pages, returns
-- -EAGAIN, and gives back what it has taken.
pub data Makes (nr : ℕ) (r : Regs) (k : Kernel) (m : Mm) (run : Run (ℤ × Kernel)) : Type 0 where
  made :
      (p : ℕ) (m₁ m' : Mm) (k' : Kernel)
      → get_free_page m ≡ done p m₁
      → run ≡ done (k.last_pid, k') m'
      → IsForked nr p r k k' m₁ m'
      → Makes nr r k m run
  refused :
      (p : ℕ) (m' : Mm) (k' : Kernel)
      → spare
          (shared_entries (base_of (k.sched.tcb k.sched.current)))
          (tables_of (k.sched.tcb k.sched.current))
          (dir_word (k.sched.tcb k.sched.current))
          m
        ≤ needed
            (tables_of (k.sched.tcb k.sched.current))
            (dir_word (k.sched.tcb k.sched.current))
            m.ram
      → run ≡ done (eagain, k') m'
      → IsSpare p m
      → IsUndone p k k'
      → IsKept nr (k.sched.tcb k.sched.current) m m'
      → Makes nr r k m run

module _ (nr : ℕ) (r : Regs) (k : Kernel) {m : Mm} where
  -- In a free slot
  pub copy_process-Makes :
      0 < nr
      → nr < 64
      → slot k.sched nr ≡ 0
      → length k.sched.task ≡ 64
      → IsForkable (k.sched.tcb k.sched.current)
      → base_of (k.sched.tcb k.sched.current) % 0x400000 ≡ 0
      → IsForkableMemory nr (k.sched.tcb k.sched.current) m
      → ((i : ℕ) → i < 3840 → count m i ≡ 0 → i * 4096 + low_mem ≢ k.sched.current)
      → Makes nr r k m (copy_process nr r k m)
  copy_process-Makes positive small empty tasks f aligned can other =
      elim (get_free_page-Alloc can.managed) [
        | out_of_memory run all ↦
            refused 0 m k
              (omega (
                arith,
                spare-full (shared_entries (base_of (k.sched.tcb k.sched.current)))
                    (tables_of (k.sched.tcb k.sched.current))
                    (dir_word (k.sched.tcb k.sched.current)) m all,
              ))
              (copy_process-no_page nr r k can.managed all) (inl refl) (nothing-IsUndone k)
              (GivenBack-refl can)
        | allocated i cleared run below free above words ↦
            let t = k.sched.tcb k.sched.current in
            let fits = shared_entries_lem (base_of t) in
            let inside : i < 3840 = omega (arith, can.managed.to) in
            let page = i * 4096 + low_mem in
            let first = page-IsCopyable can fits i cleared below free words in
            let not_current = other i inside free in
            elim (copy_page_tables-Copies (base_of t) (nr * 0x4000000) (limit_of t) aligned
              (omega arith) first) [
                | copied m' copy_run all_copied ↦
                    let (k', forked, child) =
                      copy_process-IsChild nr page r k can.managed run (omega arith) not_current f
                        small tasks copy_run in
                    made page (record m { mem_map = set m.mem_map i 1; ram = cleared }) m' k' run
                      forked (record { child = child; memory = all_copied })
                | Copy.out_of_memory n m' copy_run less some_copied all few ↦
                    let (m₂, freed, back) = undo-GivenBack first fits (omega arith) some_copied in
                    let (m₃, given, kept) =
                      page-GivenBack can fits i cleared below free words back in
                    let freed_tables =
                      free_page_tables_run (nr * 0x4000000) (limit_of t) m' (omega arith)
                        (omega arith) freed in
                    let (k', run', undone) =
                      copy_process-IsUndone nr page r k can.managed run (omega arith) not_current f
                        small empty copy_run freed_tables given in
                    refused page m₃ k'
                      (omega (
                        arith,
                        page_needed can fits i cleared below free words,
                        page_spare can fits i cleared below free words,
                      ))
                      run' (inr (i, inside, free, refl)) undone kept
              ]
      ]
