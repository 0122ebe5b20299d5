-- ===== src/Sched/Sleep.antt =====
-- __sleep_on and wake_up of kernel/sched.c. `q` is `*p`, the task at the head of the queue, and `tmp`
-- the variable in which a sleeping task keeps the head before it. `p` itself is not null: both return
-- at once where it is. What printk shows has no counterpart.
pub mod Queue
mod Tests
use my_linux_kernel.Common.{
  ℕ, ◌==◌, ◌&&◌, not, Bool, true, false, Option, none, some, if◌then◌else◌,
}
use my_linux_kernel.Sched.{Sched, put_tcb}

abbrev pub task_interruptible : ℕ
task_interruptible = 1

abbrev pub task_uninterruptible : ℕ
task_uninterruptible = 2

abbrev pub set_state : ℕ → ℕ → Sched → Sched
set_state p state s = put_tcb p (record (s.tcb p) { state = state }) s

-- __sleep_on up to `repeat`: the new head and the tasks, or none for the panic of the first task. The
-- old head is what the task keeps in `tmp`.
abbrev pub asleep : ℕ → Sched → ℕ × Sched
asleep state s = (s.current, set_state s.current state s)

unfoldable pub fall_asleep : ℕ → ℕ → Sched → Option (ℕ × Sched)
fall_asleep init_task state s = if s.current == init_task then none else some (asleep state s)

abbrev pub interruptible_sleep_on : ℕ → Sched → Option (ℕ × Sched)
interruptible_sleep_on init_task s = fall_asleep init_task task_interruptible s

abbrev pub sleep_on : ℕ → Sched → Option (ℕ × Sched)
sleep_on init_task s = fall_asleep init_task task_uninterruptible s

-- __sleep_on behind the call of schedule: whether it goes back to `repeat`, the head, and the tasks.
unfoldable pub resume : ℕ → ℕ → Sched → Bool × ℕ × Sched
resume tmp q s =
    let again = set_state s.current task_uninterruptible (set_state q 0 s) in
    let woken = if tmp == 0 then s else set_state tmp 0 s in
    if not (q == 0) && not (q == s.current) then (true, q, again) else (false, tmp, woken)

unfoldable pub wake_up : ℕ → Sched → Sched
wake_up q s = if q == 0 then s else set_state q 0 s
