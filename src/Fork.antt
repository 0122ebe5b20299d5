-- ===== src/Fork.antt =====
-- kernel/fork.c: find_empty_process, copy_mem and copy_process, over the tasks of Sched, the pages of
-- Mm, and the table `gdt` with its descriptors.
pub mod Pid
pub mod Empty
pub mod Child
pub mod Process
pub mod Copied
pub mod Call
pub mod First
pub mod Tests
use my_linux_kernel.Common.{
  ℕ, zero, suc, ◌+◌, ◌*◌, ◌%◌, ◌==◌, ◌&&◌, ◌||◌, not, Bool, true, false, List, [], ◌∷◌, Option,
  none, some, ltb, get_or, set, add32, if◌then◌else◌,
}
use my_linux_kernel.Common.Int.{ℤ, pos, negsuc}
use my_linux_kernel.Mm.Run.{
  M, pure, fail, ◌>>=◌, ◌>>◌, done, hang, different_bases, data_below_code,
}
use my_linux_kernel.Mm.Pages.{free_page, get_free_page}
use my_linux_kernel.Mm.Tables.{task_size, copy_page_tables, free_page_tables}
use my_linux_kernel.Sched.{TaskStruct, TssStruct, Sched, nr_tasks, slot, put_tcb, is_zero}
use my_linux_kernel.Segments.{
  Desc, no_desc, put_desc, set_tss_desc, set_ldt_desc, first_tss_entry, first_ldt_entry,
  ldt_selector, set_base, get_base, get_limit,
}

abbrev pub eq_ℤ : ℤ → ℤ → Bool
eq_ℤ (pos a) (pos b) = a == b
eq_ℤ (negsuc a) (negsuc b) = a == b
eq_ℤ a b = false

-- `if ((++last_pid)<0) last_pid=1;` on a signed 32-bit long
abbrev pub next_pid : ℤ → ℤ
next_pid (pos p) = if p == 0x7fffffff then pos 1 else pos (p + 1)
next_pid (negsuc zero) = pos 0
next_pid (negsuc (suc n)) = pos 1

-- The test of the first loop on one entry of `task`, and on all of them.
abbrev pub has_pid : (ℕ → TaskStruct) → ℤ → ℕ → Bool
has_pid tcb pid p = not (p == 0) && eq_ℤ (tcb p).pid pid

unfoldable pub in_use : (ℕ → TaskStruct) → ℤ → List ℕ → Bool
in_use tcb pid [] = false
in_use tcb pid (p ∷ task) = has_pid tcb pid p || in_use tcb pid task

-- `repeat`: `none` means that the fuel ran out.
unfoldable pub find_pid : ℕ → (ℕ → TaskStruct) → List ℕ → ℤ → Option ℤ
find_pid zero tcb task last_pid = none
find_pid (suc fuel) tcb task last_pid =
    let pid = next_pid last_pid in
    let again = find_pid fuel tcb task pid in if in_use tcb pid task then again else some pid

-- The second loop, over the slots from number `i` on.
unfoldable pub find_slot : ℕ → List ℕ → Option ℕ
find_slot i [] = none
find_slot i (p ∷ task) = let rest = find_slot (i + 1) task in if p == 0 then some i else rest

abbrev pub from_one : List ℕ → List ℕ
from_one [] = []
from_one (p ∷ task) = task

-- -EAGAIN and -ENOMEM
abbrev pub eagain : ℤ
eagain = negsuc 10

abbrev pub enomem : ℤ
enomem = negsuc 11

abbrev pub slot_or_eagain : Option ℕ → ℤ
slot_or_eagain none = eagain
slot_or_eagain (some i) = pos i

abbrev pub with_slot : List ℕ → Option ℤ → Option (ℤ × ℤ)
with_slot task none = none
with_slot task (some pid) = some (slot_or_eagain (find_slot 1 (from_one task)), pid)

-- The result and last_pid, with a round of `repeat` for each task and one more.
unfoldable pub find_empty_process : Sched → ℤ → Option (ℤ × ℤ)
find_empty_process s last_pid = with_slot s.task (find_pid (nr_tasks + 1) s.tcb s.task last_pid)

-- The entries 1 and 2 of the local descriptor table are those of the code and of the data.
abbrev pub ldt_entry : TaskStruct → ℕ → Desc
ldt_entry t i = get_or t.ldt i no_desc

abbrev pub move_base : ℕ → ℕ → TaskStruct → TaskStruct
move_base i base t = record t { ldt = set t.ldt i (set_base (ldt_entry t i) base) }

abbrev pub new_base : ℕ → ℕ
new_base nr = nr * task_size % 4294967296

abbrev pub rebased : ℕ → ℕ → Sched → Sched
rebased nr p s = put_tcb p (move_base 2 (new_base nr) (move_base 1 (new_base nr) (s.tcb p))) s

-- The selectors 0x0f and 0x17 of get_limit name the entries 1 and 2 of the running task.
unfoldable pub copy_mem : ℕ → ℕ → Sched → M (ℤ × Sched)
copy_mem nr p s =
    let t = s.tcb s.current in
    let code_limit = get_limit (ldt_entry t 1) in
    let data_limit = get_limit (ldt_entry t 2) in
    let old_code_base = get_base (ldt_entry t 1) in
    let old_data_base = get_base (ldt_entry t 2) in
    let s' = rebased nr p s in
    if not (old_data_base == old_code_base)
    then fail different_bases
    else (if ltb data_limit code_limit then fail data_below_code else (do
      failed ← copy_page_tables old_data_base (new_base nr) data_limit
      if is_zero failed
          then pure (pos 0, s')
          else (do free_page_tables (new_base nr) data_limit; pure (enomem, s'))))

-- The registers that the system call has pushed, which are the arguments of copy_process but `none`
-- and `orig_eax`, which it does not use.
pub record Regs : Type 0 where
  pub ebp : ℕ
  pub edi : ℕ
  pub esi : ℕ
  pub gs : ℕ
  pub ebx : ℕ
  pub ecx : ℕ
  pub edx : ℕ
  pub fs : ℕ
  pub es : ℕ
  pub ds : ℕ
  pub eip : ℕ
  pub cs : ℕ
  pub eflags : ℕ
  pub esp : ℕ
  pub ss : ℕ

-- The registers that the child at `p` in slot `nr` starts with; `old` are those of the parent.
abbrev pub child_tss : ℕ → ℕ → Regs → TssStruct → TssStruct
child_tss nr p r old = record old {
  back_link = 0;
  esp0 = add32 4096 p;
  ss0 = 0x10;
  eip = r.eip;
  eflags = r.eflags;
  eax = 0;
  ecx = r.ecx;
  edx = r.edx;
  ebx = r.ebx;
  esp = r.esp;
  ebp = r.ebp;
  esi = r.esi;
  edi = r.edi;
  es = r.es % 0x10000;
  cs = r.cs % 0x10000;
  ss = r.ss % 0x10000;
  ds = r.ds % 0x10000;
  fs = r.fs % 0x10000;
  gs = r.gs % 0x10000;
  ldt = ldt_selector nr;
  trace_bitmap = 0x80000000;
}

pub record Kernel : Type 0 where
  pub sched : Sched
  pub gdt : ℕ → Desc
  pub last_pid : ℤ

-- copy_process up to copy_mem: the slot, and the copy of the structure with what is changed in it.
abbrev pub new_task : ℕ → ℕ → Regs → Kernel → Sched
new_task nr p r k =
    let s = k.sched in
    let t = s.tcb s.current in
    let tss' = child_tss nr p r t.tss in
    let child = record t { pid = k.last_pid; p_pptr = s.current; tss = tss' } in
    put_tcb p child (record s { task = set s.task nr p })

-- The tss stands 44 bytes behind the start of a task_struct, the ldt 20 bytes.
abbrev pub describe : ℕ → ℕ → (ℕ → Desc) → ℕ → Desc
describe nr p gdt =
    put_desc (nr * 2 + first_ldt_entry) (set_ldt_desc (add32 p 20))
      (put_desc (nr * 2 + first_tss_entry) (set_tss_desc (add32 p 44)) gdt)

unfoldable pub copy_process : ℕ → Regs → Kernel → M (ℤ × Kernel)
copy_process nr r k = do
  p ← get_free_page
  if p == 0 then pure (eagain, k) else (do
    let s = new_task nr p r k
    (failed, s') ← copy_mem nr p s
    if is_zero failed
        then pure (k.last_pid, record k { sched = s'; gdt = describe nr p k.gdt })
        else (do
          free_page p
          pure (eagain, record k { sched = record s' { task = set s'.task nr 0 } })))

-- sys_fork of kernel/sys_call.S: `js` goes past copy_process where find_empty_process has found no
-- slot, and what that has written to last_pid stays.
abbrev pub into_slot : Regs → Kernel → Option (ℤ × ℤ) → M (ℤ × Kernel)
into_slot r k none m = hang
into_slot r k (some (negsuc n, pid)) m = done (negsuc n, record k { last_pid = pid }) m
into_slot r k (some (pos nr, pid)) m = copy_process nr r (record k { last_pid = pid }) m

unfoldable pub sys_fork : Regs → Kernel → M (ℤ × Kernel)
sys_fork r k = into_slot r k (find_empty_process k.sched k.last_pid)
