-- ===== src/Sched/Timer.antt =====
-- do_timer of kernel/sched.c: what a tick of the timer does to the running task.
use my_linux_kernel.Common.{
  ℕ, zero, suc, ◌==◌, ◌≡◌, ◌≢◌, refl, ap, sym, inl, inr, true, false, Bool-cases, arith, Option,
  some,
}
use my_linux_kernel.Common.Int.{ℤ, pos, negsuc, ◌-ℤ◌, ◌≤ℤ◌, ltb_ℤ}
use my_linux_kernel.Sched.{Sched, slot, put_tcb, do_timer}
use my_linux_kernel.Sched.Recharge.{Scheduled, HasPriority, schedule-Scheduled}

-- The state in which the running task has `c` ticks left.
abbrev pub with_counter : ℤ → Sched → Sched
with_counter c s = put_tcb s.current (record (s.tcb s.current) { counter = c }) s

-- A tick takes one from the counter, and the task goes on while some is left; it goes on too where
-- the kernel was interrupted, with no time left; and else the scheduler chooses among the tasks.
pub data Ticked (cpl : ℕ) (s : Sched) (r : Option Sched) : Type 0 where
  time_left :
      (n : ℕ)
      → (s.tcb s.current).counter ≡ pos (suc (suc n))
      → r ≡ some (with_counter (pos (suc n)) s)
      → Ticked cpl s r
  in_kernel :
      (s.tcb s.current).counter ≤ℤ pos 1
      → cpl ≡ 0
      → r ≡ some (with_counter (pos 0) s)
      → Ticked cpl s r
  in_user :
      (s.tcb s.current).counter ≤ℤ pos 1
      → cpl ≢ 0
      → Scheduled (with_counter (pos 0) s) r
      → Ticked cpl s r

false-ne-true : false ≢ true
false-ne-true e = cc

-- A new counter changes neither who can run nor the priorities.
with_counter-HasPriority : (c : ℤ) (s : Sched) → HasPriority s → HasPriority (with_counter c s)
with_counter-HasPriority c s h i low high run = elim (Bool-cases (s.current == slot s i)) [
  | inl own ↦
      let at : s.current ≡ slot s i = ground arith in
      let is_running : (s.tcb s.current).state ≡ 0 = rw own at run.running in
      let old = h i low high (record { exists = run.exists; running = rw at at is_running }) in
      rw own (rw (sym at) at old)
  | inr other ↦
      let is_running : (s.tcb (slot s i)).state ≡ 0 = rw other at run.running in
      rw other (h i low high (record { exists = run.exists; running = is_running }))
]

counter_left :
    (c : ℤ)
    → ltb_ℤ (pos 0) (c -ℤ pos 1) ≡ true
    → (n : ℕ) × (c ≡ pos (suc (suc n))) × (c -ℤ pos 1 ≡ pos (suc n))
unfolding ◌-ℤ◌
counter_left (pos zero) more = absurd (false-ne-true more)
counter_left (pos (suc zero)) more = absurd (false-ne-true more)
counter_left (pos (suc (suc n))) more = (n, refl, ground arith)
counter_left (negsuc n) more = ground arith

counter_over : (c : ℤ) → ltb_ℤ (pos 0) (c -ℤ pos 1) ≡ false → c ≤ℤ pos 1
unfolding ◌-ℤ◌
counter_over c over = ground arith

-- Where every runnable task has a priority of at least 1, do_timer returns: with one tick less
-- where more than one was left; else the running task has none left, and it goes on where the
-- kernel was interrupted, and schedule's choice goes on where a user program was.
pub do_timer-Ticked : (cpl : ℕ) (s : Sched) → HasPriority s → Ticked cpl s (do_timer cpl s)
unfolding do_timer
do_timer-Ticked cpl s h =
    let t = s.tcb s.current in
    elim (Bool-cases (ltb_ℤ (pos 0) (t.counter -ℤ pos 1))) [
      | inl some_left ↦
          let (n, counter, left) = counter_left t.counter some_left in
          rw some_left (time_left n counter (ap (λ c. some (with_counter c s)) left))
      | inr none ↦ rw none (elim (Bool-cases (cpl == 0)) [
        | inl kernel ↦ rw kernel (in_kernel (counter_over t.counter none) (ground arith) refl)
        | inr user ↦ rw user (
            in_user (counter_over t.counter none) (ground arith)
              (schedule-Scheduled _ (with_counter-HasPriority (pos 0) s h)))
      ])
    ]
