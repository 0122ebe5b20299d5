-- ===== src/Sched/Recharge.antt =====
-- The outer loop of schedule in kernel/sched.c: new counters, and the choice after them.
use my_linux_kernel.Common.{
  ℕ, zero, suc, ◌≤◌, ◌≡◌, ◌≢◌, ◌⊎◌, inl, inr, refl, ap, sym, ◌∙◌, ◌==◌, true, false, Bool-cases,
  arith, subst, Option, some, get_or,
}
use my_linux_kernel.Common.Int.{ℤ, pos, negsuc, ◌≤ℤ◌, ◌+ℤ◌}
use my_linux_kernel.Sched.{
  Sched, TaskStruct, slot, is_zero, pick, fresh_counter, charge, recharge, schedule_loop, switch_to,
  go_on, schedule,
}
use my_linux_kernel.Sched.Pick.{IsRunnable, counter_of, Best, pick-Best}

-- `t` is `s` where the tasks of the slots 1 to `k` have their time anew.
pub record Recharged (s : Sched) (k : ℕ) (t : Sched) : Type 0 where
  pub task : t.task ≡ s.task
  pub current : t.current ≡ s.current
  pub state : (q : ℕ) → (t.tcb q).state ≡ (s.tcb q).state
  pub priority : (q : ℕ) → (t.tcb q).priority ≡ (s.tcb q).priority
  pub counter :
      (q : ℕ)
      → ((t.tcb q).counter ≡ (s.tcb q).counter) ⊎ ((t.tcb q).counter ≡ fresh_counter (s.tcb q))
  pub charged :
      (i : ℕ)
      → 1 ≤ i
      → i ≤ k
      → slot s i ≢ 0
      → (t.tcb (slot s i)).counter ≡ fresh_counter (s.tcb (slot s i))

-- the effect of one round of the loop
record Charged (s : Sched) (i : ℕ) (t : Sched) : Type 0 where
  pub task : t.task ≡ s.task
  pub current : t.current ≡ s.current
  pub state : (q : ℕ) → (t.tcb q).state ≡ (s.tcb q).state
  pub priority : (q : ℕ) → (t.tcb q).priority ≡ (s.tcb q).priority
  pub counter :
      (q : ℕ)
      → ((t.tcb q).counter ≡ (s.tcb q).counter) ⊎ ((t.tcb q).counter ≡ fresh_counter (s.tcb q))
  pub here : slot s i ≢ 0 → (t.tcb (slot s i)).counter ≡ fresh_counter (s.tcb (slot s i))

charge-Charged : (i : ℕ) (s : Sched) → Charged s i (charge i s)
unfolding charge
charge-Charged i s = elim (Bool-cases (slot s i == 0)) [
  | inl e ↦ rw e (record {
    task = refl;
    current = refl;
    state = λ q. refl;
    priority = λ q. refl;
    counter = λ q. inl refl;
    here = λ h. ground arith;
  })
  | inr e ↦ rw e (record {
    task = refl;
    current = refl;
    state = λ q. elim (Bool-cases (slot s i == q)) [
      | inl b ↦ rw b (ap (λ k. (s.tcb k).state) (ground arith))
      | inr b ↦ rw b refl
    ];
    priority = λ q. elim (Bool-cases (slot s i == q)) [
      | inl b ↦ rw b (ap (λ k. (s.tcb k).priority) (ground arith))
      | inr b ↦ rw b refl
    ];
    counter = λ q. elim (Bool-cases (slot s i == q)) [
      | inl b ↦ rw b (inr (ap (λ k. fresh_counter (s.tcb k)) (ground arith)))
      | inr b ↦ rw b (inl refl)
    ];
    here = λ h. let same : (slot s i == slot s i) ≡ true = ground arith in rw same refl;
  })
]

fresh_eq : (t u : TaskStruct) → t.priority ≡ u.priority → fresh_counter t ≡ fresh_counter u
fresh_eq t u e = rw e refl

round_then :
    (k : ℕ) (s : Sched) {mid t : Sched}
    → Charged s (suc k) mid
    → Recharged mid k t
    → Recharged s (suc k) t
round_then k s {mid} {t} one rest = record {
  task = rest.task ∙ one.task;
  current = rest.current ∙ one.current;
  state = λ q. rest.state q ∙ one.state q;
  priority = λ q. rest.priority q ∙ one.priority q;
  counter = λ q. elim (rest.counter q) [
    | inl e ↦ elim (one.counter q) [ inl f ↦ inl (e ∙ f) | inr f ↦ inr (e ∙ f) ]
    | inr e ↦ inr (e ∙ same q)
  ];
  charged = λ i a small h. elim (Bool-cases (i == suc k)) [
    | inl b ↦
        let at : i ≡ suc k = ground arith in
        rw at (elim (rest.counter (slot s (suc k))) [
          | inl e ↦ e ∙ one.here (subst (λ j. slot s j ≢ 0) at h)
          | inr e ↦ e ∙ same (slot s (suc k))
        ])
    | inr b ↦ below i a (ground arith) h
  ];
}
  where
    same : (q : ℕ) → fresh_counter (mid.tcb q) ≡ fresh_counter (s.tcb q)
    same q = fresh_eq (mid.tcb q) (s.tcb q) (one.priority q)

    below :
        (i : ℕ)
        → 1 ≤ i
        → i ≤ k
        → slot s i ≢ 0
        → (t.tcb (slot s i)).counter ≡ fresh_counter (s.tcb (slot s i))
    below i a small h =
        let at : slot mid i ≡ slot s i = ap (λ l. get_or l i 0) one.task in
        subst (λ p. (t.tcb p).counter ≡ fresh_counter (mid.tcb p)) at
          (rest.charged i a small (λ e. h (sym at ∙ e)))
        ∙ same (slot s i)

-- The loop over the slots 1 to `k` gives the task of each slot in use the counter (priority >>
-- 1) + priority, and changes nothing but counters, which stay as they are or become that.
pub recharge-Recharged : (k : ℕ) (s : Sched) → Recharged s k (recharge k s)
unfolding recharge
recharge-Recharged zero s = record {
  task = refl;
  current = refl;
  state = λ q. refl;
  priority = λ q. refl;
  counter = λ q. inl refl;
  charged = λ i a b. absurd (omega arith);
}
recharge-Recharged (suc k) s =
    round_then k s (charge-Charged (suc k) s) (recharge-Recharged k (charge (suc k) s))

-- What schedule does: the scheduling state that it has chosen in is the given one or that with new
-- times, and it goes on with the best slot there, whose counter is not 0; slot 0 is the choice
-- where no task is runnable with a counter of 0 or more.
pub data Scheduled (s : Sched) (r : Option Sched) : Type 0 where
  scheduled :
      (t : Sched) (c : ℤ) (n : ℕ)
      → (t ≡ s) ⊎ Recharged s 63 t
      → is_zero c ≡ false
      → Best t 63 (negsuc 0) 0 (c, n)
      → r ≡ some (switch_to n t)
      → Scheduled s r

abbrev pub HasPriority : Sched → Type 0
HasPriority s = (i : ℕ) → 1 ≤ i → i ≤ 63 → IsRunnable s i → pos 1 ≤ℤ (s.tcb (slot s i)).priority

fresh_positive : (t : TaskStruct) → pos 1 ≤ℤ t.priority → is_zero (fresh_counter t) ≡ false
unfolding ◌+ℤ◌
fresh_positive t h = ground arith

-- After a recharge the choice is not a task without time.
second_round :
    (s : Sched) {c : ℤ} {n : ℕ}
    → HasPriority s
    → Best (recharge 63 s) 63 (negsuc 0) 0 (c, n)
    → is_zero c ≡ false
second_round s {c} {n} h b = go (recharge-Recharged 63 s) b.chosen
  where
    go :
        Recharged s 63 (recharge 63 s)
        → (◌≡◌ {A = ℤ × ℕ} (c, n) (negsuc 0, 0))
          ⊎ ((1 ≤ n) × (n ≤ 63) × IsRunnable (recharge 63 s) n × (counter_of (recharge 63 s) n ≡ c))
        → is_zero c ≡ false
    go r (inl e) = let none_left : c ≡ negsuc 0 = ap (λ p. p.0) e in rw none_left refl
    go r (inr (a, small, run, e)) =
        let at : slot (recharge 63 s) n ≡ slot s n = ap (λ l. get_or l n 0) r.task in
        let live : slot s n ≢ 0 = λ z. run.exists (at ∙ z) in
        let before : IsRunnable s n = record {
          exists = live;
          running =
              sym (r.state (slot s n))
              ∙ ap (λ q. ((recharge 63 s).tcb q).state) (sym at)
              ∙ run.running;
        } in
        let fresh : c ≡ fresh_counter (s.tcb (slot s n)) =
          sym e ∙ ap (λ q. ((recharge 63 s).tcb q).counter) at ∙ r.charged n a small live in
        rw fresh (fresh_positive (s.tcb (slot s n)) (h n a small before))

loop_again :
    (fuel : ℕ) (s : Sched)
    → is_zero (pick s 63 (negsuc 0) 0).0 ≡ true
    → schedule_loop (suc fuel) s ≡ schedule_loop fuel (recharge 63 s)
unfolding schedule_loop
loop_again fuel s e = rw e refl

loop_over :
    (fuel : ℕ) (s : Sched)
    → is_zero (pick s 63 (negsuc 0) 0).0 ≡ false
    → schedule_loop (suc fuel) s ≡ some ((pick s 63 (negsuc 0) 0).1, s)
unfolding schedule_loop
loop_over fuel s e = rw e refl

-- Where every runnable task has a priority of at least 1, schedule ends within two rounds. It
-- goes on with the best slot, with a counter other than 0, of the given state or of that state
-- with new counters; slot 0 stands for no runnable task with a counter from 0 on.
pub schedule-Scheduled : (s : Sched) → HasPriority s → Scheduled s (schedule s)
unfolding schedule
schedule-Scheduled s h = elim (Bool-cases (is_zero (pick s 63 (negsuc 0) 0).0)) [
  | inl e ↦
      let first : Best (recharge 63 s) 63 (negsuc 0) 0 (pick (recharge 63 s) 63 (negsuc 0) 0) =
        pick-Best 63 (recharge 63 s) (negsuc 0) 0 in
      let time_left = second_round s h first in
      scheduled (recharge 63 s) _ _ (inr (recharge-Recharged 63 s)) time_left first
        (ap go_on (loop_again 1 s e ∙ loop_over 0 (recharge 63 s) time_left))
  | inr e ↦ scheduled s _ _ (inl refl) e (pick-Best 63 s (negsuc 0) 0) (ap go_on (loop_over 1 s e))
]
