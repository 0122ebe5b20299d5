-- ===== src/Boot/First.antt =====
-- The first call of sys_fork of kernel/sys_call.S, by the task that main of kernel/main.c has set up, in the
-- memory that kernel/head.S has mapped.
use my_linux_kernel.Common.{
  ltb, inl, inr, Bool-cases, ℕ, ◌+◌, ◌*◌, ◌/◌, ◌%◌, ◌≤◌, ◌<◌, ◌≡◌, ◌≢◌, ◌∙◌, refl, ap, arith,
  length, some,
}
use my_linux_kernel.Common.Int.{pos}
use my_linux_kernel.Mm.Run.{Ram, Mm, low_mem, done}
use my_linux_kernel.Mm.Pages.{get_free_page}
use my_linux_kernel.Mm.Layout.{init_memory}
use my_linux_kernel.Mm.Tables.Copy.{IsCopyable, needed, spare}
use my_linux_kernel.Sched.{TaskStruct, slot}
use my_linux_kernel.Sched.InitTask.{init_task}
use my_linux_kernel.Fork.{Regs, Kernel, sys_fork}
use my_linux_kernel.Fork.Call.{CanFork, with_pid, no_slot, no_memory, forks, sys_fork-Forks}
use my_linux_kernel.Fork.Copied.{IsForked}
use my_linux_kernel.Fork.Empty.{IsNew}
use my_linux_kernel.Fork.First.{init_base, init_tables, init_task-IsForkable}
use my_linux_kernel.Strings.Memory.{Memory}
use my_linux_kernel.Traps.{Handler}
use my_linux_kernel.Console.Init.Screen.{IsUsable}
use my_linux_kernel.Boot.{Given, System, main}
use my_linux_kernel.Boot.Booted.{main-IsBooted}
use my_linux_kernel.Boot.Paging.{setup_paging}
use my_linux_kernel.Boot.Mapped.{first_memory, first-IsCopyable, first_needed, first_spare}

-- The kernel that main leaves, with the first task running.
abbrev pub first_kernel : Given → System → (ℕ → TaskStruct) → Kernel
first_kernel g s tcb = record {
  sched = record { task = s.boot.task; tcb = tcb; current = g.init_task };
  gdt = s.boot.gdt;
  last_pid = pos 0;
}

-- sys_fork makes a child in slot 1.
pub data HasForked (r : Regs) (k : Kernel) (m : Mm) : Type 0 where
  child :
      (w p : ℕ) (m₁ m' : Mm) (k' : Kernel)
      → IsNew k.sched w
      → get_free_page m ≡ done p m₁
      → sys_fork r k m ≡ done (pos w, k') m'
      → IsForked 1 p r (with_pid k w) k' m₁ m'
      → HasForked r k m

first-CanFork :
    (k : Kernel) (m : Mm)
    → k.last_pid ≡ pos 0
    → length k.sched.task ≡ 64
    → k.sched.current < low_mem
    → k.sched.tcb k.sched.current ≡ init_task k.sched.current 0
    → ((t : ℕ) → 4 ≤ t → t + 4 ≤ 1024 → IsCopyable 160 4 0 t m)
    → CanFork 0 k m
first-CanFork k m pid tasks low first copyable =
    let address = k.sched.current in
    record {
      at_last = pid;
      word = omega arith;
      tasks = tasks;
      parent = rw first (init_task-IsForkable address 0);
      aligned = rw (first, init_base address 0) refl;
      memory = λ nr positive small free.
          rw (first, init_base address 0, init_tables address 0)
            (copyable (nr * 0x4000000 / 0x400000 % 1024) (omega arith) (omega arith));
      other = λ i in_map free. outside i address low;
    }
  where
    outside : (i address : ℕ) → address < low_mem → i * 4096 + low_mem ≢ address
    outside i address low = omega arith

first-HasForked :
    (r : Regs) (k : Kernel) (m : Mm)
    → CanFork 0 k m
    → slot k.sched 1 ≡ 0
    → k.sched.tcb k.sched.current ≡ init_task k.sched.current 0
    → needed 4 0 m.ram ≡ 4
    → 4 < spare 160 4 0 m
    → HasForked r k m
first-HasForked r k m can empty first there room =
    let address = k.sched.current in
    elim (sys_fork-Forks r k 0 can) [
      | no_slot w taken ran ↦ absurd (taken 1 (omega arith) (omega arith) empty)
      | no_memory nr w p m' k' few ran page undone free kept ↦
          let at : spare 160 4 0 m ≤ needed 4 0 m.ram =
            rw (first, init_base address 0, init_tables address 0) at few in
          absurd (omega (arith, at, there, room))
      | forks nr w p m₁ m' k' positive small free before new page ran born ↦
          let at = only_slot nr positive before in child w p m₁ m' k' new page ran (rw at at born)
    ]
  where
    only_slot : (nr : ℕ) → 0 < nr → ((j : ℕ) → 0 < j → j < nr → slot k.sched j ≢ 0) → nr ≡ 1
    only_slot nr positive before = elim (Bool-cases (ltb 1 nr)) [
      | inl later ↦ absurd (before 1 (omega arith) (ground arith) empty)
      | inr first_free ↦ ground arith
    ]

-- For 15 MB of extended memory or more, a usable display, handlers at 32-bit addresses, 64
-- slots, memory that setup_paging has left, and the first task's structure below LOW_MEM as
-- INIT_TASK makes it: main gets as far as move_to_user_mode, and a sys_fork that the first task
-- then calls always makes a child, in slot 1, with a new positive pid, and with four page
-- tables that each share the first 160 entries of one of the first task's, whose other entries
-- are 0.
pub main-HasForked :
    (strings : Memory) (g : Given) (s : System) (ram : Ram) (r : Regs) (tcb : ℕ → TaskStruct)
    → 15360 ≤ g.ext_mem_k
    → g.ext_mem_k < 65536
    → ((h : Handler) → g.handler h < 4294967296)
    → length s.boot.task ≡ 64
    → IsUsable g.bios
    → s.memory.ram ≡ setup_paging ram
    → ((x : ℕ) → ram x < 4294967296)
    → g.init_task < low_mem
    → tcb g.init_task ≡ init_task g.init_task 0
    → (s' : System) × (main strings g s ≡ some s') × HasForked r (first_kernel g s' tcb) s'.memory
main-HasForked strings g s ram r tcb from size handlers long usable mapped words low first =
    let (s', ran, b) = main-IsBooted strings g s size handlers long usable in
    let memory : s'.memory ≡ first_memory g.ext_mem_k ram s.memory =
      b.divided ∙ ap (λ ram. init_memory g.ext_mem_k (record s.memory { ram = ram })) mapped in
    let k = first_kernel g s' tcb in
    let m = first_memory g.ext_mem_k ram s.memory in
    (
      s',
      ran,
      rw memory (
          first-HasForked r k m
            (first-CanFork k m refl b.tasks low first
              (first-IsCopyable g.ext_mem_k ram s.memory from size words))
            (b.slots 1 (omega arith)) first (first_needed g.ext_mem_k ram s.memory from size words)
            (first_spare g.ext_mem_k ram s.memory from size words)),
    )
