-- ===== src/Syscall/Dispatch.antt =====
-- system_call of kernel/sys_call.S and fork of kernel/main.c: what each number does, and what fork
-- returns.
use my_linux_kernel.Common.{
  ℕ, ◌%◌, zero, suc, ◌≤◌, ◌<◌, ◌==◌, ◌≡◌, ◌≢◌, inl, inr, refl, ap, ◌∙◌, arith, List, [], ◌∷◌,
  length, replicate, ltb, lt→ltb, ltb_of_le, Bool-cases, true, false, Option, none, some, get_elem?,
  if◌then◌else◌,
}
use my_linux_kernel.Common.Int.{ℤ, pos, negsuc}
use my_linux_kernel.Mm.Run.{Mm, Run}
use my_linux_kernel.Fork.{Regs, Kernel, sys_fork}
use my_linux_kernel.Syscall.Table.{Call, Entry, no_entry, sys_call_table, number_of, nr_fork}
use my_linux_kernel.Fork.Empty.{IsNew}
use my_linux_kernel.Mm.Tables.Copy.{needed, spare}
use my_linux_kernel.Mm.Tables.Copy.Total.{shared_entries}
use my_linux_kernel.Fork.Copied.{base_of, tables_of, dir_word, IsForked, IsKept, IsSpare}
use my_linux_kernel.Fork.Process.{IsUndone}
use my_linux_kernel.Fork.Call.{CanFork, Forks, no_slot, no_memory, forks, with_pid, sys_fork-Forks}
use my_linux_kernel.Sched.{nr_tasks, slot}
use my_linux_kernel.Syscall.{
  ran, at_zero, outside_table, called, system_call, Program, finished, fork,
}

-- The numbers behind a table.
get_elem?-behind : (table : List Entry) (i : ℕ) → length table ≤ i → get_elem? table i ≡ none
get_elem?-behind [] i far = refl
get_elem?-behind (e ∷ table) zero far = absurd (omega arith)
get_elem?-behind (e ∷ table) (suc i) far = get_elem?-behind table i (omega arith)

all_empty : (n j : ℕ) → j < n → get_elem? (replicate n no_entry) j ≡ some no_entry
all_empty zero j small = absurd (omega arith)
all_empty (suc n) zero small = refl
all_empty (suc n) (suc j) small = all_empty n j (omega arith)

entry-called :
    (eax : ℕ) (r : Regs) (k : Kernel) (m : Mm)
    → called r k m (get_elem? sys_call_table eax)
      ≡ (if eax == 2 then ran (sys_fork r k m) else if ltb eax 87 then at_zero else outside_table)
entry-called zero r k m = refl
entry-called (suc zero) r k m = refl
entry-called (suc (suc zero)) r k m = refl
entry-called (suc (suc (suc j))) r k m = elim (Bool-cases (ltb j 84)) [
  | inl inside ↦
      let other : (suc (suc (suc j)) == 2) ≡ false = ground arith in
      let low : ltb (suc (suc (suc j))) 87 ≡ true = ground arith in
      let entry : get_elem? sys_call_table (suc (suc (suc j))) ≡ some no_entry =
        all_empty 84 j (ground arith) in
      rw (entry, other, low) refl
  | inr behind ↦
      let other : (suc (suc (suc j)) == 2) ≡ false = ground arith in
      let high : ltb (suc (suc (suc j))) 87 ≡ false = ground arith in
      let entry : get_elem? sys_call_table (suc (suc (suc j))) ≡ none =
        get_elem?-behind sys_call_table (suc (suc (suc j))) (ground arith) in
      rw (entry, other, high) refl
]

system_call-dispatched :
    (eax : ℕ) (r : Regs) (k : Kernel) (m : Mm)
    → let word = eax % 0x40000000 in
      system_call eax r k m
      ≡ (if word == 2 then ran (sys_fork r k m) else if ltb word 87 then at_zero else outside_table)
unfolding system_call
system_call-dispatched eax r k m = entry-called (eax % 0x40000000) r k m

-- Every number of include/unistd.h has an entry in the table.
number_of-lt : (c : Call) → number_of c < length sys_call_table
number_of-lt c = ground arith

-- A word whose remainder by 2^30 is a number of include/unistd.h runs sys_fork where that is
-- the number of fork, and else calls address 0. A word whose remainder by 2^30 is not below the
-- length of the table calls what a word outside the table holds.
pub system_call_lem :
    (r : Regs) (k : Kernel) (m : Mm)
    → ((c : Call) (eax : ℕ)
        → eax % 0x40000000 ≡ number_of c
        → system_call eax r k m
          ≡ (if number_of c == number_of nr_fork then ran (sys_fork r k m) else at_zero))
      × ((eax : ℕ)
          → length sys_call_table ≤ eax % 0x40000000
          → system_call eax r k m ≡ outside_table)
system_call_lem r k m = (
  λ c eax at.
      let named = lt→ltb (number_of c) 87 (number_of-lt c) in
      system_call-dispatched eax r k m ∙ rw (at, named) refl,
  λ eax high.
      let other : (eax % 0x40000000 == 2) ≡ false = ground arith in
      let far : ltb (eax % 0x40000000) 87 ≡ false = ltb_of_le (eax % 0x40000000) 87 high in
      system_call-dispatched eax r k m ∙ rw (other, far) refl,
)

-- What fork returns to the parent: -1 with errno EAGAIN where all slots are taken or too few pages are
-- free, or the new pid of a child, with errno as it was.
pub data Returns (errno : ℤ) (r : Regs) (k : Kernel) (m : Mm) (o : Option Program) : Type 0 where
  fails :
      (w : ℕ)
      → ((j : ℕ) → 0 < j → j < nr_tasks → slot k.sched j ≢ 0)
      → o ≡ some (record { value = negsuc 0; errno = pos 11; kernel = with_pid k w; memory = m })
      → Returns errno r k m o
  fails_for_memory :
      (nr w p : ℕ) (m' : Mm) (k' : Kernel)
      → spare
          (shared_entries (base_of (k.sched.tcb k.sched.current)))
          (tables_of (k.sched.tcb k.sched.current))
          (dir_word (k.sched.tcb k.sched.current))
          m
        ≤ needed
            (tables_of (k.sched.tcb k.sched.current))
            (dir_word (k.sched.tcb k.sched.current))
            m.ram
      → o ≡ some (record { value = negsuc 0; errno = pos 11; kernel = k'; memory = m' })
      → IsSpare p m
      → IsUndone p (with_pid k w) k'
      → slot k.sched nr ≡ 0
      → IsKept nr (k.sched.tcb k.sched.current) m m'
      → Returns errno r k m o
  returns_pid :
      (nr w p : ℕ) (m₁ m' : Mm) (k' : Kernel)
      → 0 < nr
      → nr < nr_tasks
      → slot k.sched nr ≡ 0
      → ((j : ℕ) → 0 < j → j < nr → slot k.sched j ≢ 0)
      → IsNew k.sched w
      → o ≡ some (record { value = pos w; errno = errno; kernel = k'; memory = m' })
      → IsForked nr p r (with_pid k w) k' m₁ m'
      → Returns errno r k m o

Forks-Returns :
    (errno : ℤ) (r : Regs) (k : Kernel) (m : Mm) {run : Run (ℤ × Kernel)}
    → Forks r k m run
    → Returns errno r k m (finished errno run)
Forks-Returns errno r k m (no_slot w taken run) = fails w taken (ap (finished errno) run)
Forks-Returns errno r k m (no_memory nr w p m' k' few run page undone free kept) =
    fails_for_memory nr w p m' k' few (ap (finished errno) run) page undone free kept
Forks-Returns errno r k m (forks nr w p m₁ m' k' positive small free before new page run child) =
    returns_pid nr w p m₁ m' k' positive small free before new (ap (finished errno) run) child

-- Where the kernel can fork, the parent's fork returns -1 and sets errno to 11, EAGAIN, where
-- all slots are taken, or where of the free pages no more are led to by no table of the parent
-- than page tables are copied, with every slot and page count as before; or it returns the new
-- pid of a child in the first free slot with errno as it was, whose page tables each share the
-- first 1024 entries of the parent's table or, where the parent's memory starts at 0, the first
-- 160.
pub fork-Returns :
    (errno : ℤ) (r : Regs) (k : Kernel) (last : ℕ) {m : Mm}
    → CanFork last k m
    → Returns errno r k m (fork errno r k m)
unfolding fork
fork-Returns errno r k last {m} can =
    rw (system_call-dispatched 2 r k m) (Forks-Returns errno r k m (sys_fork-Forks r k last can))
