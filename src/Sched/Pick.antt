-- ===== src/Sched/Pick.antt =====
-- The inner loop of schedule in kernel/sched.c: the choice of a slot.
use my_linux_kernel.Common.{
  ℕ, zero, suc, ◌≤◌, ◌≡◌, ◌≢◌, ◌⊎◌, inl, inr, refl, ◌==◌, true, false, Bool-cases, arith, subst,
}
use my_linux_kernel.Common.Int.{ℤ, ◌≤ℤ◌}
use my_linux_kernel.Sched.{Sched, slot, better, pick}

abbrev pub counter_of : Sched → ℕ → ℤ
counter_of s i = (s.tcb (slot s i)).counter

pub record IsRunnable (s : Sched) (i : ℕ) : Type 0 where
  pub exists : slot s i ≢ 0
  pub running : (s.tcb (slot s i)).state ≡ 0

-- Among the slots 1 to `k`, and from the choice `c` and `next` on, `r` is the best.
pub record Best (s : Sched) (k : ℕ) (c : ℤ) (next : ℕ) (r : ℤ × ℕ) : Type 0 where
  pub from : c ≤ℤ r.0
  pub most : (i : ℕ) → 1 ≤ i → i ≤ k → IsRunnable s i → counter_of s i ≤ℤ r.0
  pub chosen :
      (r ≡ (c, next)) ⊎ ((1 ≤ r.1) × (r.1 ≤ k) × IsRunnable s r.1 × (counter_of s r.1 ≡ r.0))

runnable_better :
    (s : Sched) (i : ℕ) (c : ℤ) → IsRunnable s i → better s i c ≡ false → counter_of s i ≤ℤ c
runnable_better s i c h b = ground (arith, h.exists, h.running)

better-IsRunnable :
    (s : Sched) (i : ℕ) (c : ℤ) → better s i c ≡ true → IsRunnable s i × (c ≤ℤ counter_of s i)
better-IsRunnable s i c b =
    (record { exists = λ e. ground arith; running = ground arith }, ground arith)

-- From a better slot `suc k` on.
taken_slot :
    (k : ℕ) (s : Sched) (c : ℤ) (next : ℕ) {r : ℤ × ℕ}
    → better s (suc k) c ≡ true
    → Best s k (counter_of s (suc k)) (suc k) r
    → Best s (suc k) c next r
taken_slot k s c next {r} b rest = record {
  from = omega (arith, here.1, rest.from);
  most = λ i a small h. elim (Bool-cases (i == suc k)) [
    | inl e ↦ let same : i ≡ suc k = ground arith in rw same rest.from
    | inr e ↦ rest.most i a (ground arith) h
  ];
  chosen = elim rest.chosen [
    | inl e ↦ inr (rw e (omega arith, omega arith, here.0, refl))
    | inr (a, small, h, e) ↦ inr (a, omega arith, h, e)
  ];
}
  where
    here : IsRunnable s (suc k) × (c ≤ℤ counter_of s (suc k))
    here = better-IsRunnable s (suc k) c b

passed_slot :
    (k : ℕ) (s : Sched) (c : ℤ) (next : ℕ) {r : ℤ × ℕ}
    → better s (suc k) c ≡ false
    → Best s k c next r
    → Best s (suc k) c next r
passed_slot k s c next b rest = record {
  from = rest.from;
  most = λ i a small h. elim (Bool-cases (i == suc k)) [
    | inl e ↦
        let same : i ≡ suc k = ground arith in
        let worse : counter_of s i ≤ℤ c =
          rw same (runnable_better s (suc k) c (subst (IsRunnable s) same h) b) in
        omega (arith, worse, rest.from)
    | inr e ↦ rest.most i a (ground arith) h
  ];
  chosen = elim rest.chosen [ inl e ↦ inl e | inr (a, small, h, e) ↦ inr (a, omega arith, h, e) ];
}

-- From a choice with counter `c`, the loop over the slots 1 to `k` ends with a counter that is
-- at least `c` and at least that of every runnable task there; the choice is the first one, or
-- a runnable task there with that counter.
pub pick-Best : (k : ℕ) (s : Sched) (c : ℤ) (next : ℕ) → Best s k c next (pick s k c next)
unfolding pick
pick-Best zero s c next = record {
  from = omega arith;
  most = λ i a b h. absurd (omega arith);
  chosen = inl refl;
}
pick-Best (suc k) s c next = elim (Bool-cases (better s (suc k) c)) [
  | inl b ↦ rw b (taken_slot k s c next b (pick-Best k s (counter_of s (suc k)) (suc k)))
  | inr b ↦ rw b (passed_slot k s c next b (pick-Best k s c next))
]
