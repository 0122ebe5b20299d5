-- ===== src/Fork/Pid.antt =====
-- find_empty_process of kernel/fork.c: the pids that it tries.
use my_linux_kernel.Common.{
  ℕ, zero, suc, ◌+◌, ◌-◌, ◌≤◌, ◌<◌, ◌≡◌, ◌≢◌, ◌||◌, true, false, Bool-cases, inl, inr, arith, ltb,
  List, [], ◌∷◌, length, refl, ap, sym, ◌∙◌, some, if◌then◌else◌,
}
use my_linux_kernel.Common.Int.{ℤ, pos}
use my_linux_kernel.Sched.{TaskStruct}
use my_linux_kernel.Fork.{eq_ℤ, next_pid, has_pid, in_use, find_pid}

-- The pid after `k` steps from `v`: 0x7fffffff is followed by 1.
abbrev pub pid_after : ℕ → ℕ → ℕ
pid_after k v = if ltb (v + k) 0x80000000 then v + k else v + k - 0x7fffffff

eq_ℤ-eq : (z w : ℤ) → eq_ℤ z w ≡ true → z ≡ w
eq_ℤ-eq z w e = ground arith

next_pid-pid_after : (v : ℕ) → v < 0x80000000 → next_pid (pos v) ≡ pos (pid_after 1 v)
next_pid-pid_after v small = ground arith

module _ (tcb : ℕ → TaskStruct) where
  -- The tasks that do not have the pid.
  abbrev without : ℤ → List ℕ → List ℕ
  without pid [] = []
  without pid (p ∷ task) = if has_pid tcb pid p then without pid task else p ∷ without pid task

  length-without_le : (pid : ℤ) (task : List ℕ) → length (without pid task) ≤ length task
  length-without_le pid [] = omega arith
  length-without_le pid (p ∷ task) = ground (arith, length-without_le pid task)

  length-without :
      (pid : ℤ) (task : List ℕ)
      → in_use tcb pid task ≡ true
      → length (without pid task) < length task
  unfolding in_use
  length-without pid [] e = absurd (ground arith)
  length-without pid (p ∷ task) e = elim (Bool-cases (has_pid tcb pid p)) [
    | inl h ↦ rw h (omega (arith, length-without_le pid task))
    | inr h ↦ rw h (omega (arith, length-without pid task (rw h at e)))
  ]

  has_pid-once :
      (pid other : ℤ) (p : ℕ) → pid ≢ other → has_pid tcb pid p ≡ true → has_pid tcb other p ≡ false
  has_pid-once pid other p ne e = elim (Bool-cases (has_pid tcb other p)) [
    | inl both ↦
        let a : eq_ℤ (tcb p).pid pid ≡ true = ground arith in
        let b : eq_ℤ (tcb p).pid other ≡ true = ground arith in
        absurd (ne (sym (eq_ℤ-eq (tcb p).pid pid a) ∙ eq_ℤ-eq (tcb p).pid other b))
    | inr no_other ↦ no_other
  ]

  in_use-without :
      (pid other : ℤ) (task : List ℕ)
      → pid ≢ other
      → in_use tcb other (without pid task) ≡ in_use tcb other task
  unfolding in_use
  in_use-without pid other [] ne = refl
  in_use-without pid other (p ∷ task) ne = elim (Bool-cases (has_pid tcb pid p)) [
    | inl h ↦ rw (h, has_pid-once pid other p ne h) (in_use-without pid other task ne)
    | inr h ↦ rw h (ap (λ b. has_pid tcb other p || b) (in_use-without pid other task ne))
  ]

  -- Among more pids in a row than there are tasks one is not in use.
  unused_pid :
      (fuel : ℕ) (task : List ℕ) (v : ℕ)
      → v < 0x80000000
      → length task < fuel
      → fuel < 0x7fffffff
      → (k : ℕ) × (k < fuel) × (in_use tcb (pos (pid_after (suc k) v)) task ≡ false)
  unused_pid zero task v word enough few = absurd (omega arith)
  unused_pid (suc fuel) task v word enough few =
      let next = pid_after 1 v in
      elim (Bool-cases (in_use tcb (pos next) task)) [
        | inl used ↦
            let shorter = length-without (pos next) task used in
            let (k, small, unused) =
              unused_pid fuel (without (pos next) task) next (ground arith) (omega arith)
                (omega arith) in
            let e : pid_after (suc k) next ≡ pid_after (suc (suc k)) v = ground arith in
            let ne : pos next ≢ pos (pid_after (suc (suc k)) v) = λ q. ground arith in
            (
              suc k,
              omega arith,
              sym (in_use-without (pos next) (pos (pid_after (suc (suc k)) v)) task ne)
                  ∙ ap (λ (w : ℕ). in_use tcb (pos w) (without (pos next) task)) (sym e)
                  ∙ unused,
            )
        | inr unused ↦ (0, omega arith, unused)
      ]

  find_pid-unused :
      (k fuel : ℕ) (task : List ℕ) (v : ℕ)
      → v < 0x80000000
      → k < fuel
      → fuel < 0x7fffffff
      → in_use tcb (pos (pid_after (suc k) v)) task ≡ false
      → (w : ℕ) × (find_pid fuel tcb task (pos v) ≡ some (pos w))
        × (0 < w)
        × (w < 0x80000000)
        × (in_use tcb (pos w) task ≡ false)
  unfolding find_pid
  find_pid-unused k zero task v word enough few unused = absurd (omega arith)
  find_pid-unused zero (suc fuel) task v word enough few unused =
      rw (next_pid-pid_after v word, unused)
        (pid_after 1 v, refl, ground arith, ground arith, unused)
  find_pid-unused (suc k) (suc fuel) task v word enough few unused =
      let next = pid_after 1 v in
      let e : pid_after (suc (suc k)) v ≡ pid_after (suc k) next = ground arith in
      let later =
        find_pid-unused k fuel task next (ground arith) (omega arith) (omega arith)
          (ap (λ (w : ℕ). in_use tcb (pos w) task) (sym e) ∙ unused) in
      elim (Bool-cases (in_use tcb (pos next) task)) [
        | inl used ↦ rw (next_pid-pid_after v word, used) later
        | inr stop ↦
            rw (next_pid-pid_after v word, stop) (next, refl, ground arith, ground arith, stop)
      ]

  pub find_pid_total :
      (fuel : ℕ) (task : List ℕ) (v : ℕ)
      → v < 0x80000000
      → length task < fuel
      → fuel < 0x7fffffff
      → (w : ℕ) × (find_pid fuel tcb task (pos v) ≡ some (pos w))
        × (0 < w)
        × (w < 0x80000000)
        × (in_use tcb (pos w) task ≡ false)
  find_pid_total fuel task v word enough few =
      let (k, small, unused) = unused_pid fuel task v word enough few in
      find_pid-unused k fuel task v word small few unused
