-- ===== src/Sched.antt =====
-- kernel/sched.c and include/linux/sched.h: tasks, the scheduler and the timer.
-- A task is the address of its `task_struct`; `tcb` gives the structure at an address, and address
-- 0 is NULL. The structures stand in `tcb`, apart from the memory of mm/.
pub mod Init
pub mod Sleep
pub mod Pick
pub mod Recharge
pub mod Timer
pub mod InitTask
mod Tests
use my_linux_kernel.Common.{
  ℕ, zero, suc, ◌+◌, ◌-◌, ◌/◌, ◌==◌, ◌&&◌, not, false, Bool, List, Option, none, some, get_or,
  if◌then◌else◌,
}
use my_linux_kernel.Common.Int.{ℤ, pos, negsuc, ◌+ℤ◌, ◌-ℤ◌, ltb_ℤ}
use my_linux_kernel.Segments.{Desc}

abbrev pub nr_tasks : ℕ
nr_tasks = 64

pub record TssStruct : Type 0 where
  pub back_link : ℕ
  pub esp0 : ℕ
  pub ss0 : ℕ
  pub esp1 : ℕ
  pub ss1 : ℕ
  pub esp2 : ℕ
  pub ss2 : ℕ
  pub cr3 : ℕ
  pub eip : ℕ
  pub eflags : ℕ
  pub eax : ℕ
  pub ecx : ℕ
  pub edx : ℕ
  pub ebx : ℕ
  pub esp : ℕ
  pub ebp : ℕ
  pub esi : ℕ
  pub edi : ℕ
  pub es : ℕ
  pub cs : ℕ
  pub ss : ℕ
  pub ds : ℕ
  pub fs : ℕ
  pub gs : ℕ
  pub ldt : ℕ
  pub trace_bitmap : ℕ

-- `counter`, `priority` and `pid` are signed longs; `p_pptr` is the parent's address.
pub record TaskStruct : Type 0 where
  pub state : ℕ
  pub counter : ℤ
  pub priority : ℤ
  pub pid : ℤ
  pub p_pptr : ℕ
  pub ldt : List Desc
  pub tss : TssStruct

pub record Sched : Type 0 where
  pub task : List ℕ
  pub tcb : ℕ → TaskStruct
  pub current : ℕ

abbrev pub slot : Sched → ℕ → ℕ
slot s i = get_or s.task i 0

abbrev pub put_tcb : ℕ → TaskStruct → Sched → Sched
put_tcb p t s = record s { tcb = λ q. if p == q then t else s.tcb q }

-- `>> 1` on a signed long
abbrev pub half : ℤ → ℤ
half (pos n) = pos (n / 2)
half (negsuc n) = negsuc (n / 2)

abbrev pub is_zero : ℤ → Bool
is_zero (pos n) = n == 0
is_zero (negsuc n) = false

-- Slot `i` holds a task that is runnable and has more time left than `c`.
abbrev pub better : Sched → ℕ → ℤ → Bool
better s i c =
    let p = slot s i in not (p == 0) && ((s.tcb p).state == 0 && ltb_ℤ c (s.tcb p).counter)

-- The inner loop of schedule, from slot `i` down to slot 1.
unfoldable pub pick : Sched → ℕ → ℤ → ℕ → ℤ × ℕ
pick s zero c next = (c, next)
pick s (suc i) c next =
    let b = better s (suc i) c in
    pick s i (if b then (s.tcb (slot s (suc i))).counter else c) (if b then suc i else next)

-- `(priority >> 1) + priority`
abbrev pub fresh_counter : TaskStruct → ℤ
fresh_counter t = half t.priority +ℤ t.priority

unfoldable pub charge : ℕ → Sched → Sched
charge i s =
    let p = slot s i in
    if p == 0 then s else put_tcb p (record (s.tcb p) { counter = fresh_counter (s.tcb p) }) s

-- All tasks get their time anew, from slot `i` down to slot 1.
unfoldable pub recharge : ℕ → Sched → Sched
recharge zero s = s
recharge (suc i) s = recharge i (charge (suc i) s)

-- The outer loop on fuel, with the slot that it chooses; `none` means that the fuel ran out.
unfoldable pub schedule_loop : ℕ → Sched → Option (ℕ × Sched)
schedule_loop zero s = none
schedule_loop (suc fuel) s =
    let choice = pick s (nr_tasks - 1) (negsuc 0) 0 in
    let again = schedule_loop fuel (recharge (nr_tasks - 1) s) in
    if is_zero choice.0 then again else some (choice.1, s)

-- switch_to: the processor goes on with the task of slot `n`.
unfoldable pub switch_to : ℕ → Sched → Sched
switch_to n s = if slot s n == s.current then s else record s { current = slot s n }

abbrev pub go_on : Option (ℕ × Sched) → Option Sched
go_on none = none
go_on (some choice) = some (switch_to choice.0 choice.1)

-- Two rounds of the loop: `none` means that the second would not be the last.
unfoldable pub schedule : Sched → Option Sched
schedule s = go_on (schedule_loop 2 s)

-- do_timer, with `cpl` the privilege level that the timer has interrupted.
unfoldable pub do_timer : ℕ → Sched → Option Sched
do_timer cpl s =
    let t = s.tcb s.current in
    let left = t.counter -ℤ pos 1 in
    let ticked = put_tcb s.current (record t { counter = left }) s in
    let out = put_tcb s.current (record t { counter = pos 0 }) s in
    if ltb_ℤ (pos 0) left then some ticked else if cpl == 0 then some out else schedule out
