-- ===== src/Sched/Sleep/Tests.antt =====
-- A queue of two sleepers of kernel/sched.c: the task at 12288 fell asleep after the one at 8192.
use my_linux_kernel.Common.{◌==◌, refl, arith, [], ◌∷◌, if◌then◌else◌}
use my_linux_kernel.Sched.Tests.{three}
use my_linux_kernel.Sched.Sleep.{set_state, wake_up}
use my_linux_kernel.Sched.Sleep.Queue.{
  Waiting, Among, first, later, Chain, Steps, start, falls, waits, is_woken, goes_on, sleeps,
  Served, wake_up-Served,
}

abbrev two_asleep : Waiting
two_asleep = record {
  sched = set_state 8192 2 (set_state 12288 1 three);
  q = 12288;
  tmp = λ x. if x == 12288 then 8192 else 0;
}

two_asleep-Chain : Chain two_asleep.tmp two_asleep.q (12288 ∷ 8192 ∷ [])
two_asleep-Chain = (refl, omega arith, head_once, (refl, omega arith, tail_once, refl))
  where
    head_once : ¬ Among 12288 (8192 ∷ [])
    head_once (later e) = elim e [ ]

    tail_once : ¬ Among 8192 []
    tail_once e = elim e [ ]

-- The task at 16384 falls asleep behind the call of wake_up, and the old head goes on.
abbrev three_asleep : Waiting
three_asleep = sleeps 16384 2 (is_woken two_asleep)

behind :
    Steps
      (is_woken two_asleep)
      (12288 ∷ 8192 ∷ [])
      (goes_on 12288 three_asleep)
      (16384 ∷ 12288 ∷ 8192 ∷ [])
unfolding wake_up
behind = waits first refl (falls 16384 2 (omega arith) new start)
  where
    new : ¬ Among 16384 (12288 ∷ 8192 ∷ [])
    new (later (later e)) = elim e [ ]

wake_up-Served_example :
    Served (goes_on 12288 three_asleep) (16384 ∷ 12288 ∷ 8192 ∷ [])
    × ((w'' : Waiting) × Steps (goes_on 12288 three_asleep) (16384 ∷ 12288 ∷ 8192 ∷ []) w'' [])
wake_up-Served_example =
    wake_up-Served two_asleep (goes_on 12288 three_asleep) (12288 ∷ 8192 ∷ [])
      (16384 ∷ 12288 ∷ 8192 ∷ []) two_asleep-Chain behind
