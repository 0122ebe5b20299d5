-- ===== src/Fork/Empty.antt =====
-- find_empty_process of kernel/fork.c: the pid and the slot that it returns.
use my_linux_kernel.Common.{
  ℕ, zero, suc, ◌+◌, ◌<◌, ◌==◌, ◌≡◌, ◌≢◌, false, Bool-cases, inl, inr, arith, List, [], ◌∷◌, length,
  refl, ap, ◌∙◌, Option, none, some, get_or,
}
use my_linux_kernel.Common.Int.{ℤ, pos}
use my_linux_kernel.Sched.{TaskStruct, Sched, nr_tasks, slot}
use my_linux_kernel.Fork.{
  eagain, in_use, find_slot, from_one, slot_or_eagain, with_slot, find_empty_process,
}
use my_linux_kernel.Fork.Pid.{find_pid_total}

-- No task has the pid `w`, which is a positive long.
pub record IsNew (s : Sched) (w : ℕ) : Type 0 where
  pub positive : 0 < w
  pub long : w < 0x80000000
  pub unused : (i : ℕ) → i < nr_tasks → slot s i ≢ 0 → (s.tcb (slot s i)).pid ≢ pos w

-- The first free slot behind slot 0, or -EAGAIN where all are taken.
pub data EmptySlot (task : List ℕ) (r : ℤ) : Type 0 where
  free :
      (i : ℕ)
      → 0 < i
      → i < nr_tasks
      → get_or task i 0 ≡ 0
      → ((j : ℕ) → 0 < j → j < i → get_or task j 0 ≢ 0)
      → r ≡ pos i
      → EmptySlot task r
  full : ((j : ℕ) → 0 < j → j < nr_tasks → get_or task j 0 ≢ 0) → r ≡ eagain → EmptySlot task r

unused-in_use :
    (tcb : ℕ → TaskStruct) (task : List ℕ) (w : ℕ)
    → in_use tcb (pos w) task ≡ false
    → (i : ℕ) → i < length task
    → get_or task i 0 ≢ 0
    → (tcb (get_or task i 0)).pid ≢ pos w
unfolding in_use
unused-in_use tcb [] w e i small live = absurd (omega arith)
unused-in_use tcb (p ∷ task) w e zero small live = λ q. ground arith
unused-in_use tcb (p ∷ task) w e (suc i) small live =
    unused-in_use tcb task w (ground arith) i (omega arith) live

-- The same for the slots from number `i` on.
data FreeSlot (i : ℕ) (task : List ℕ) (r : Option ℕ) : Type 0 where
  at :
      (j : ℕ)
      → j < length task
      → get_or task j 0 ≡ 0
      → ((k : ℕ) → k < j → get_or task k 0 ≢ 0)
      → r ≡ some (i + j)
      → FreeSlot i task r
  nowhere : ((k : ℕ) → k < length task → get_or task k 0 ≢ 0) → r ≡ none → FreeSlot i task r

behind :
    (p : ℕ) (task : List ℕ) (n : ℕ)
    → p ≢ 0
    → ((k : ℕ) → k < n → get_or task k 0 ≢ 0)
    → (k : ℕ) → k < suc n
    → get_or (p ∷ task) k 0 ≢ 0
behind p task n live rest zero small = live
behind p task n live rest (suc k) small = rest k (omega arith)

FreeSlot-cons :
    (i p : ℕ) (task : List ℕ) {r : Option ℕ}
    → p ≢ 0
    → FreeSlot (i + 1) task r
    → FreeSlot i (p ∷ task) r
FreeSlot-cons i p task live (at j small z before e) =
    at (suc j) (omega arith) z (behind p task j live before)
      (e ∙ ap (λ (k : ℕ). some k) (omega arith))
FreeSlot-cons i p task live (nowhere taken e) = nowhere (behind p task (length task) live taken) e

find_slot-FreeSlot : (i : ℕ) (task : List ℕ) → FreeSlot i task (find_slot i task)
unfolding find_slot
find_slot-FreeSlot i [] = nowhere (λ k h. absurd (omega arith)) refl
find_slot-FreeSlot i (p ∷ task) = elim (Bool-cases (p == 0)) [
  | inl z ↦ rw z (
      at 0 (omega arith) (ground arith) (λ k h. absurd (omega arith))
        (ap (λ (k : ℕ). some k) (omega arith)))
  | inr live ↦ rw live (FreeSlot-cons i p task (ground arith) (find_slot-FreeSlot (i + 1) task))
]

after_first :
    (p : ℕ) (task : List ℕ) (n : ℕ)
    → ((k : ℕ) → k < n → get_or task k 0 ≢ 0)
    → (j : ℕ) → 0 < j
    → j < suc n
    → get_or (p ∷ task) j 0 ≢ 0
after_first p task n h zero positive small = absurd (omega arith)
after_first p task n h (suc j) positive small = h j (omega arith)

found-EmptySlot :
    (task : List ℕ)
    → length task ≡ nr_tasks
    → EmptySlot task (slot_or_eagain (find_slot 1 (from_one task)))
found-EmptySlot [] e = absurd (omega arith)
found-EmptySlot (p ∷ task) e = elim (find_slot-FreeSlot 1 task) [
  | at j small z before r ↦
      free (suc j) (omega arith) (omega arith) z (after_first p task j before)
        (ap slot_or_eagain r ∙ ap pos (omega arith))
  | nowhere taken r ↦
      full (λ j positive small. after_first p task (length task) taken j positive (omega arith))
        (ap slot_or_eagain r)
]

-- With 64 slots and last_pid not negative find_empty_process ends within 65 rounds; last_pid is
-- then positive and no task has it, and it returns the first free slot from 1 on, or -EAGAIN
-- exactly where those are all taken.
pub find_empty_process-IsNew :
    (s : Sched) (last_pid : ℕ)
    → length s.task ≡ nr_tasks
    → last_pid < 0x80000000
    → (r : ℤ) × (w : ℕ) × (find_empty_process s (pos last_pid) ≡ some (r, pos w))
      × IsNew s w
      × EmptySlot s.task r
unfolding find_empty_process
find_empty_process-IsNew s last_pid tasks word =
    let (w, found, positive, long, unused) =
      find_pid_total s.tcb 65 s.task last_pid word (omega arith) (omega arith) in
    (
      slot_or_eagain (find_slot 1 (from_one s.task)),
      w,
      ap (with_slot s.task) found,
      record {
        positive = positive;
        long = long;
        unused = λ i small. unused-in_use s.tcb s.task w unused i (omega arith);
      },
      found-EmptySlot s.task tasks,
    )
