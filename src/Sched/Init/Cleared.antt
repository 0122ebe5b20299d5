-- ===== src/Sched/Init/Cleared.antt =====
-- sched_init of kernel/sched.c: the descriptors and the slots that its loop clears.
use my_linux_kernel.Common.{
  ℕ, zero, suc, ◌+◌, ◌-◌, ◌*◌, ◌%◌, ◌<◌, ◌≤◌, ◌==◌, ◌&&◌, ◌≡◌, ◌∙◌, refl, Bool, true, false, leb,
  ltb, arith, List, length, get_or, set, length-set, get_or-set, if◌then◌else◌,
}
use my_linux_kernel.Segments.{Desc, no_desc, put_desc, set_tss_desc, set_ldt_desc}
use my_linux_kernel.Sched.Init.{Boot, clear_slot, clear_slots, sched_init}

-- Two descriptors out of four from `p` on, `n` times.
abbrev pub in_pairs : ℕ → ℕ → ℕ → Bool
in_pairs n p j = leb p j && (ltb j (p + n * 4) && ltb ((j - p) % 4) 2)

step :
    (n p : ℕ) (gdt : ℕ → Desc) (j : ℕ)
    → (if in_pairs n (p + 4) j
        then no_desc
        else put_desc (p + 1) no_desc (put_desc p no_desc gdt) j)
      ≡ (if in_pairs (suc n) p j then no_desc else gdt j)
step n p gdt j = ground arith

one :
    (n i : ℕ) (task : List ℕ)
    → i < length task
    → (j : ℕ)
    → (if leb (i + 1) j && ltb j (i + 1 + n) then 0 else get_or (set task i 0) j 0)
      ≡ (if leb i j && ltb j (i + suc n) then 0 else get_or task j 0)
one n i task small j = ground (arith, get_or-set task i j 0 small)

clear_slots-gdt :
    (n i p : ℕ) (b : Boot) (j : ℕ)
    → (clear_slots n i p b).gdt j ≡ (if in_pairs n p j then no_desc else b.gdt j)
unfolding clear_slots
clear_slots-gdt zero i p b j = ground arith
clear_slots-gdt (suc n) i p b j =
    clear_slots-gdt n (i + 1) (p + 4) (clear_slot i p b) j ∙ step n p b.gdt j

clear_slots-task :
    (n i p : ℕ) (b : Boot)
    → i + n ≤ length b.task
    → (length (clear_slots n i p b).task ≡ length b.task)
      × ((j : ℕ)
          → get_or (clear_slots n i p b).task j 0
            ≡ (if leb i j && ltb j (i + n) then 0 else get_or b.task j 0))
unfolding clear_slots
clear_slots-task zero i p b long = (refl, λ j. ground arith)
clear_slots-task (suc n) i p b long =
    let same = length-set b.task i 0 in
    let (kept, rest) = clear_slots-task n (i + 1) (p + 4) (clear_slot i p b) (omega arith) in
    (kept ∙ same, λ j. rest j ∙ one n i b.task (omega arith) j)

-- What sched_init leaves.
pub record Cleared (init_task : ℕ) (b b' : Boot) : Type 0 where
  pub first_tss : b'.gdt 5 ≡ set_tss_desc (init_task + 44)
  pub first_ldt : b'.gdt 6 ≡ set_ldt_desc (init_task + 20)
  pub pairs :
      (j : ℕ) → 7 ≤ j → b'.gdt j ≡ (if ltb j 263 && ltb ((j - 7) % 4) 2 then no_desc else b.gdt j)
  pub slots : (j : ℕ) → j < 64 → get_or b'.task j 0 ≡ 0
  pub tasks : length b'.task ≡ 64

-- With 64 slots sched_init sets the two descriptors of the first task, clears all slots, slot 0
-- among them, and from descriptor 7 on clears two of each four up to number 260, beyond the 256
-- of the table.
pub sched_init-Cleared :
    (init_task timer_interrupt system_call mask : ℕ) (b : Boot)
    → length b.task ≡ 64
    → Cleared init_task b (sched_init init_task timer_interrupt system_call mask b)
unfolding sched_init
sched_init-Cleared init_task timer_interrupt system_call mask b long =
    let tss = set_tss_desc (init_task + 44) in
    let ldt = set_ldt_desc (init_task + 20) in
    let b₁ : Boot = record b { gdt = put_desc 6 ldt (put_desc 5 tss b.gdt) } in
    record {
      first_tss = clear_slots-gdt 64 0 7 b₁ 5;
      first_ldt = clear_slots-gdt 64 0 7 b₁ 6;
      pairs = λ j from.
          let low : leb 7 j ≡ true = ground arith in
          let not_5 : (5 == j) ≡ false = ground arith in
          let not_6 : (6 == j) ≡ false = ground arith in
          clear_slots-gdt 64 0 7 b₁ j ∙ rw (low, not_5, not_6) refl;
      slots = λ j small.
          let here : leb 0 j && ltb j 64 ≡ true = ground arith in
          (clear_slots-task 64 0 7 b₁ (omega arith)).1 j ∙ rw here refl;
      tasks = (clear_slots-task 64 0 7 b₁ (omega arith)).0 ∙ long;
    }
