-- ===== src/Sched/Sleep/Queue.antt =====
-- kernel/sched.c: the queue of tasks that sleep in __sleep_on, in every order of their steps.
use my_linux_kernel.Common.{
  ℕ, ◌==◌, ◌≡◌, ◌≢◌, inl, inr, refl, sym, subst, ◌∙◌, Bool, true, false, Bool-cases, arith, List,
  [], ◌∷◌, if◌then◌else◌,
}
use my_linux_kernel.Sched.{Sched}
use my_linux_kernel.Sched.Sleep.{set_state, task_uninterruptible, asleep, resume, wake_up}

-- The tasks, `*p`, and the variable `tmp` of each task in __sleep_on.
pub record Waiting : Type 0 where
  pub sched : Sched
  pub q : ℕ
  pub tmp : ℕ → ℕ

abbrev run_as : ℕ → Sched → Sched
run_as x s = record s { current = x }

-- Task `x`, which is not the first task, runs and falls asleep in the queue.
abbrev pub sleeps : ℕ → ℕ → Waiting → Waiting
sleeps x state w =
    let r = asleep state (run_as x w.sched) in
    record { sched = r.1; q = r.0; tmp = λ y. if x == y then w.q else w.tmp y }

-- schedule has chosen the task `x`, which returns from it inside of __sleep_on.
abbrev pub goes_on : ℕ → Waiting → Waiting
goes_on x w = let r = resume (w.tmp x) w.q (run_as x w.sched) in record w { sched = r.2; q = r.1 }

abbrev pub is_woken : Waiting → Waiting
is_woken w = record w { sched = wake_up w.q w.sched }

abbrev pub Runnable : Waiting → ℕ → Type 0
Runnable w x = (w.sched.tcb x).state ≡ 0

pub data Among (x : ℕ) : List ℕ → Type 0 where
  first : {l : List ℕ} → Among x (x ∷ l)
  later : {y : ℕ} {l : List ℕ} → Among x l → Among x (y ∷ l)

-- The tasks of the queue from its head on: each keeps the next in its `tmp`.
abbrev pub Chain : (ℕ → ℕ) → ℕ → List ℕ → Type 0
Chain tmp q [] = q ≡ 0
Chain tmp q (x ∷ l) = (q ≡ x) × (x ≢ 0) × (¬ Among x l) × Chain tmp (tmp x) l

-- Steps while the queue is not empty, with the tasks that sleep: one more falls asleep, the head or
-- another sleeper that is runnable goes on, or wake_up is called.
pub data Steps : Waiting → List ℕ → Waiting → List ℕ → Type 0 where
  start : {w : Waiting} {l : List ℕ} → Steps w l w l
  falls :
      {w w' : Waiting} {l l' : List ℕ} {y : ℕ} (x state : ℕ)
      → x ≢ 0
      → ¬ Among x (y ∷ l')
      → Steps w l w' (y ∷ l')
      → Steps w l (sleeps x state w') (x ∷ y ∷ l')
  leaves :
      {w w' : Waiting} {l l' : List ℕ} {x : ℕ}
      → Runnable w' x
      → Steps w l w' (x ∷ l')
      → Steps w l (goes_on x w') l'
  waits :
      {w w' : Waiting} {l l' : List ℕ} {x y : ℕ}
      → Among x l'
      → Runnable w' x
      → Steps w l w' (y ∷ l')
      → Steps w l (goes_on x w') (y ∷ l')
  wakes : {w w' : Waiting} {l l' : List ℕ} → Steps w l w' l' → Steps w l (is_woken w') l'

Chain-tmp :
    (tmp : ℕ → ℕ) (x v q : ℕ) (l : List ℕ)
    → ¬ Among x l
    → Chain tmp q l
    → Chain (λ y. if x == y then v else tmp y) q l
Chain-tmp tmp x v q [] out c = c
Chain-tmp tmp x v q (y ∷ l) out (e, live, once, rest) = elim (Bool-cases (x == y)) [
  | inl same ↦ absurd (out (subst (λ (z : ℕ). Among x (z ∷ l)) (ground arith) first))
  | inr far ↦ (e, live, once, rw far (Chain-tmp tmp x v (tmp y) l (λ a. out (later a)) rest))
]

-- What holds at every step: the queue is as it should be, and it is empty or one of its tasks is
-- runnable.
pub data Served (w : Waiting) : List ℕ → Type 0 where
  empty : w.q ≡ 0 → Served w []
  some_runs :
      {y : ℕ} {l : List ℕ} (x : ℕ)
      → Chain w.tmp w.q (y ∷ l)
      → Among x (y ∷ l)
      → Runnable w x
      → Served w (y ∷ l)

-- The state of a task that is set, and of the others.
state_self : (s : Sched) (p state : ℕ) → ((set_state p state s).tcb p).state ≡ state
state_self s p state = let same : (p == p) ≡ true = ground arith in rw same refl

state_other :
    (s : Sched) (p q state : ℕ) → p ≢ q → ((set_state p state s).tcb q).state ≡ (s.tcb q).state
state_other s p q state ne = let far : (p == q) ≡ false = ground arith in rw far refl

Among-ne : {x y : ℕ} {l : List ℕ} → ¬ Among x l → Among y l → x ≢ y
Among-ne {x} {y} {l} out among e = out (subst (λ (z : ℕ). Among z l) (sym e) among)

sleeps-Served :
    {w : Waiting} {y : ℕ} {l : List ℕ} (x state : ℕ)
    → x ≢ 0
    → ¬ Among x (y ∷ l)
    → Served w (y ∷ l)
    → Served (sleeps x state w) (x ∷ y ∷ l)
sleeps-Served {w} {y} {l} x state live out (some_runs z c among run) =
    let self : (x == x) ≡ true = ground arith in
    let kept = Chain-tmp w.tmp x w.q w.q (y ∷ l) out c in
    some_runs z (refl, live, out, rw self kept) (later among)
      (state_other (run_as x w.sched) x z state (Among-ne out among) ∙ run)

abbrev after : Waiting → Bool × ℕ × Sched → Waiting
after w r = record w { sched = r.2; q = r.1 }

resume_head :
    (tmp q : ℕ) (s : Sched)
    → q ≡ s.current
    → resume tmp q s ≡ (false, tmp, if tmp == 0 then s else set_state tmp 0 s)
unfolding resume
resume_head tmp q s e =
    let same : (q == s.current) ≡ true = ground arith in
    elim (Bool-cases (q == 0)) [ inl z ↦ rw z refl | inr live ↦ rw (live, same) refl ]

resume_other :
    (tmp q : ℕ) (s : Sched)
    → q ≢ 0
    → q ≢ s.current
    → resume tmp q s ≡ (true, q, set_state s.current task_uninterruptible (set_state q 0 s))
unfolding resume
resume_other tmp q s live ne =
    let full : (q == 0) ≡ false = ground arith in
    let far : (q == s.current) ≡ false = ground arith in rw (full, far) refl

leaves-Served : (w : Waiting) (x : ℕ) (l : List ℕ) → Served w (x ∷ l) → Served (goes_on x w) l
leaves-Served w x [] (some_runs z (e, live, once, rest) among run) =
    subst (λ r. Served (after w r) []) (sym (resume_head (w.tmp x) w.q (run_as x w.sched) e))
      (empty rest)
leaves-Served w x (y ∷ l) (some_runs z (e, live, once, rest) among run) =
    let full : (w.tmp x == 0) ≡ false = ground (arith, rest.0, rest.1) in
    subst (λ r. Served (after w r) (y ∷ l)) (sym (resume_head (w.tmp x) w.q (run_as x w.sched) e))
      (some_runs y rest first (rw (full, rest.0) (state_self (run_as x w.sched) y 0)))

-- A sleeper that is not the head wakes the head, and waits.
waits-Served :
    (w : Waiting) (x y : ℕ) (l : List ℕ)
    → Among x l
    → Served w (y ∷ l)
    → Runnable (goes_on x w) y × Served (goes_on x w) (y ∷ l)
waits-Served w x y l a (some_runs z c among run) =
    let (e, live, once, rest) = c in
    let ne : y ≢ x = λ s. once (subst (λ (q : ℕ). Among q l) (sym s) a) in
    let s = run_as x w.sched in
    let woken : ((set_state x task_uninterruptible (set_state y 0 s)).tcb y).state ≡ 0 =
      state_other (set_state y 0 s) x y task_uninterruptible (λ q. ne (sym q)) ∙ state_self s y 0 in
    subst (λ r. Runnable (after w r) y × Served (after w r) (y ∷ l))
      (sym (resume_other (w.tmp x) w.q s (ground arith) (ground arith)))
      (rw e woken, some_runs y (e, live, once, rest) first (rw e woken))

Chain-Served : (w : Waiting) (l : List ℕ) → Chain w.tmp w.q l → Served (is_woken w) l
unfolding wake_up
Chain-Served w [] e = empty e
Chain-Served w (y ∷ l) (e, live, once, rest) =
    let full : (y == 0) ≡ false = ground arith in
    some_runs y (e, live, once, rest) first (rw (e, full) (state_self w.sched y 0))

Served-Chain : (w : Waiting) (l : List ℕ) → Served w l → Chain w.tmp w.q l
Served-Chain w [] (empty e) = e
Served-Chain w (y ∷ l) (some_runs z c among run) = c

Steps-Served : {w w' : Waiting} {l l' : List ℕ} → Served w l → Steps w l w' l' → Served w' l'
Steps-Served v start = v
Steps-Served v (falls x state live out steps) =
    sleeps-Served x state live out (Steps-Served v steps)
Steps-Served v (leaves run steps) = leaves-Served _ _ _ (Steps-Served v steps)
Steps-Served v (waits among run steps) = (waits-Served _ _ _ _ among (Steps-Served v steps)).1
Steps-Served v (wakes steps) = Chain-Served _ _ (Served-Chain _ _ (Steps-Served v steps))

-- The head is runnable after one step more at most.
head_runs :
    (w w' : Waiting) (l l' : List ℕ) (y : ℕ)
    → Steps w l w' (y ∷ l')
    → Served w' (y ∷ l')
    → (w'' : Waiting) × Steps w l w'' (y ∷ l') × Runnable w'' y × Served w'' (y ∷ l')
head_runs w w' l l' y steps (some_runs z c first run) = (w', steps, run, some_runs z c first run)
head_runs w w' l l' y steps (some_runs z c (later among) run) =
    let v = waits-Served w' z y l' among (some_runs z c (later among) run) in
    (goes_on z w', waits among run steps, v.0, v.1)

drains :
    (l' : List ℕ) (w w' : Waiting) (l : List ℕ)
    → Steps w l w' l'
    → Served w' l'
    → (w'' : Waiting) × Steps w l w'' []
drains [] w w' l steps v = (w', steps)
drains (y ∷ l') w w' l steps v =
    let (w'', steps', run, v') = head_runs w w' l l' y steps v in
    drains l' w (goes_on y w'') l (leaves run steps') (leaves-Served w'' y l' v')

-- After wake_up on a queue of sleeping tasks, in every order of later steps while it is not
-- empty (another task falls asleep, a runnable sleeper goes on, wake_up is called again): *p
-- and the tmp of each task still link the sleepers in order, one of them is runnable if any is
-- left, and there are further steps that empty the queue.
pub wake_up-Served :
    (w w' : Waiting) (l l' : List ℕ)
    → Chain w.tmp w.q l
    → Steps (is_woken w) l w' l'
    → Served w' l' × ((w'' : Waiting) × Steps w' l' w'' [])
wake_up-Served w w' l l' c steps =
    let v = Steps-Served (Chain-Served w l c) steps in (v, drains l' w' w' l' start v)
