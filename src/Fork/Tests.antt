-- ===== src/Fork/Tests.antt =====
-- Witnesses of the theorems on kernel/fork.c: the task in slot 1, whose memory starts at 64 MB, forks
-- into slot 2.
mod Refused
pub mod Shared
use my_linux_kernel.Common.{
  ℕ, ◌*◌, ◌≡◌, ◌≢◌, ◌<◌, ◌==◌, refl, arith, List, [], ◌∷◌, replicate, length, some, set, get_or,
  get_or-set_self, get_or-set_ne, length-set, if◌then◌else◌, Bool-cases, inl, inr, ◌∙◌, ap,
}
use my_linux_kernel.Common.Int.{ℤ, pos, negsuc}
use my_linux_kernel.Mm.Run.{Mm, done, store, read, write}
use my_linux_kernel.Mm.Pages.{
  free_page, scan_free, clear_words, grab, take_page, get_free_loop, get_free_page,
}
use my_linux_kernel.Mm.Pages.Alloc.{IsManaged, out_of_memory, allocated, count, get_free_page-Alloc}
use my_linux_kernel.Mm.Pages.Init.{get_or-replicate}
use my_linux_kernel.Mm.Tables.{
  copy_page_tables, copy_tables, free_tables, free_table, copy_entries, copy_entry,
  free_page_tables,
}
use my_linux_kernel.Sched.{TaskStruct, TssStruct, Sched}
use my_linux_kernel.Segments.{no_desc, get_base, get_limit}
use my_linux_kernel.Fork.{eagain, ldt_entry, Regs, Kernel, find_empty_process, copy_process}
use my_linux_kernel.Fork.Empty.{IsNew, EmptySlot, find_empty_process-IsNew}
use my_linux_kernel.Fork.Child.{IsForkable, IsChild}
use my_linux_kernel.Fork.Process.{
  copy_process-IsChild, copy_process-IsUndone, IsUndone, copy_process-no_page,
}

abbrev tss_0 : TssStruct
tss_0 = record {
  back_link = 0;
  esp0 = 0;
  ss0 = 0;
  esp1 = 0;
  ss1 = 0;
  esp2 = 0;
  ss2 = 0;
  cr3 = 0;
  eip = 0;
  eflags = 0;
  eax = 0;
  ecx = 0;
  edx = 0;
  ebx = 0;
  esp = 0;
  ebp = 0;
  esi = 0;
  edi = 0;
  es = 0;
  cs = 0;
  ss = 0;
  ds = 0;
  fs = 0;
  gs = 0;
  ldt = 0;
  trace_bitmap = 0;
}

abbrev parent : TaskStruct
parent = record {
  state = 0;
  counter = pos 15;
  priority = pos 15;
  pid = pos 1;
  p_pptr = 4096;
  ldt = no_desc ∷ record { a = 0xfff; b = 0x04c0fa00 } ∷ record { a = 0xfff; b = 0x04c0f200 } ∷ [];
  tss = tss_0;
}

abbrev tasks : Sched
tasks = record { task = 4096 ∷ 8192 ∷ replicate 62 0; tcb = λ q. parent; current = 8192 }

find_empty_process-IsNew_example :
    (r : ℤ) × (w : ℕ) × (find_empty_process tasks (pos 0) ≡ some (r, pos w))
    × IsNew tasks w
    × EmptySlot tasks.task r
find_empty_process-IsNew_example = find_empty_process-IsNew tasks 0 refl (omega arith)

abbrev pub kernel : Kernel
kernel = record { sched = tasks; gdt = λ i. no_desc; last_pid = pos 2 }

abbrev pub regs : Regs
regs = record {
  ebp = 0;
  edi = 0;
  esi = 0;
  gs = 0x17;
  ebx = 0;
  ecx = 0;
  edx = 0;
  fs = 0x17;
  es = 0x17;
  ds = 0x17;
  eip = 0x1234;
  cs = 0xf;
  eflags = 0x202;
  esp = 0x3fffff0;
  ss = 0x17;
}

-- The last two pages are free, and the parent has one page table, at 0x100000, which maps nothing.
abbrev memory : Mm
memory = record {
  high_memory = 0x1000000;
  mem_map = set (set (replicate 3840 100) 3839 0) 3838 0;
  ram = λ w. if w == 16 then 0x100007 else 0;
}

memory-IsManaged : IsManaged memory
memory-IsManaged = record {
  entries = refl;
  from = omega arith;
  to = omega arith;
  above = λ i small over. absurd (omega arith);
}

abbrev taken : Mm
taken = record memory {
  mem_map = set memory.mem_map 3839 1;
  ram = clear_words 1024 0x3fffff memory.ram;
}

child_page : get_free_page memory ≡ done 0xfff000 taken
unfolding get_free_page get_free_loop take_page grab scan_free
child_page = refl

parent-IsForkable : IsForkable parent
parent-IsForkable = record {
  entries = refl;
  bases = unfold get_base in refl;
  limits = unfold get_limit in omega arith;
}
