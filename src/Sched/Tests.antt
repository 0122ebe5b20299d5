-- ===== src/Sched/Tests.antt =====
-- Runs of the scheduler, and witnesses of its theorems. Slot 0 holds the first task; the tasks at
-- 8192 and 12288 stand in the slots 1 and 2, and only the latter is runnable.
use my_linux_kernel.Common.{◌≡◌, ◌==◌, refl, arith, [], ◌∷◌, replicate, if◌then◌else◌}
use my_linux_kernel.Common.Int.{pos, negsuc, ◌+ℤ◌}
use my_linux_kernel.Sched.{do_timer, Sched, TssStruct, pick, recharge, schedule, charge}
use my_linux_kernel.Segments.{no_desc}
use my_linux_kernel.Sched.Init.{Boot, sched_init}
use my_linux_kernel.Sched.Init.Cleared.{Cleared, sched_init-Cleared}
use my_linux_kernel.Sched.Timer.{Ticked, do_timer-Ticked}
use my_linux_kernel.Sched.Recharge.{Scheduled, HasPriority, schedule-Scheduled}

abbrev pub no_registers : TssStruct
no_registers = record {
  back_link = 0;
  esp0 = 0;
  ss0 = 0;
  esp1 = 0;
  ss1 = 0;
  esp2 = 0;
  ss2 = 0;
  cr3 = 0;
  eip = 0;
  eflags = 0;
  eax = 0;
  ecx = 0;
  edx = 0;
  ebx = 0;
  esp = 0;
  ebp = 0;
  esi = 0;
  edi = 0;
  es = 0;
  cs = 0;
  ss = 0;
  ds = 0;
  fs = 0;
  gs = 0;
  ldt = 0;
  trace_bitmap = 0;
}

abbrev pub three : Sched
three = record {
  task = 4096 ∷ 8192 ∷ 12288 ∷ replicate 61 0;
  tcb = λ q. record {
    state = if q == 8192 then 1 else 0;
    counter = pos 0;
    priority = pos 15;
    pid = pos 0;
    p_pptr = 4096;
    ldt = [];
    tss = no_registers;
  };
  current = 4096;
}

three-HasPriority : HasPriority three
three-HasPriority i a small run = omega arith

second_chosen : pick (recharge 63 three) 63 (negsuc 0) 0 ≡ (pos 22, 2)
unfolding pick recharge charge ◌+ℤ◌
second_chosen = refl

schedule-Scheduled_example : Scheduled three (schedule three)
schedule-Scheduled_example = schedule-Scheduled three three-HasPriority

abbrev boot : Boot
boot = record {
  task = three.task;
  gdt = λ i. record { a = i; b = i };
  idt = λ i. no_desc;
  tr = 0;
  ldtr = 0;
  ports = [];
}

sched_init-Cleared_example : Cleared 4096 boot (sched_init 4096 0x7000 0x7100 0xff boot)
sched_init-Cleared_example = sched_init-Cleared 4096 0x7000 0x7100 0xff boot refl

do_timer-Ticked_example : Ticked 3 three (do_timer 3 three)
do_timer-Ticked_example = do_timer-Ticked 3 three three-HasPriority
