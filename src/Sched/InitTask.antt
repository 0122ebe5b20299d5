-- ===== src/Sched/InitTask.antt =====
-- INIT_TASK of include/linux/sched.h: the structure of the first task, which stands at `address` with its
-- stack behind it, and works with the page directory at `pg_dir`.
use my_linux_kernel.Common.{ℕ, [], ◌∷◌, add32}
use my_linux_kernel.Common.Int.{pos}
use my_linux_kernel.Segments.{ldt_selector}
use my_linux_kernel.Sched.{TaskStruct, TssStruct}

abbrev pub init_tss : ℕ → ℕ → TssStruct
init_tss address pg_dir = record {
  back_link = 0;
  esp0 = add32 4096 address;
  ss0 = 0x10;
  esp1 = 0;
  ss1 = 0;
  esp2 = 0;
  ss2 = 0;
  cr3 = pg_dir;
  eip = 0;
  eflags = 0;
  eax = 0;
  ecx = 0;
  edx = 0;
  ebx = 0;
  esp = 0;
  ebp = 0;
  esi = 0;
  edi = 0;
  es = 0x17;
  cs = 0x17;
  ss = 0x17;
  ds = 0x17;
  fs = 0x17;
  gs = 0x17;
  ldt = ldt_selector 0;
  trace_bitmap = 0x80000000;
}

abbrev pub init_task : ℕ → ℕ → TaskStruct
init_task address pg_dir = record {
  state = 0;
  counter = pos 15;
  priority = pos 15;
  pid = pos 0;
  p_pptr = address;
  ldt =
      record { a = 0; b = 0 }
      ∷ record { a = 0xfff; b = 0xc0fa00 }
      ∷ record { a = 0xfff; b = 0xc0f200 }
      ∷ [];
  tss = init_tss address pg_dir;
}
