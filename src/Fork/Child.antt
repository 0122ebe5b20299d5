-- ===== src/Fork/Child.antt =====
-- copy_process of kernel/fork.c: the child that it makes, and what is left where it makes none.
use my_linux_kernel.Common.{
  ℕ, ◌+◌, ◌*◌, ◌≤◌, ◌<◌, ◌==◌, ◌≡◌, ◌≢◌, true, false, Bool-cases, inl, inr, arith, length, refl, ap,
  ◌∙◌, if◌then◌else◌, get_or, set, add32, length-set, get_or-set_self, get_or-set_ne,
}
use my_linux_kernel.Sched.{TaskStruct, slot}
use my_linux_kernel.Segments.{no_desc, set_base, get_base, get_limit}
use my_linux_kernel.Segments.Base.{get_base-set_base, get_base-set_tssldt_desc}
use my_linux_kernel.Fork.{rebased, move_base, ldt_entry, new_base, Regs, Kernel, new_task, describe}

-- What copy_mem asks of the running task: its code and its data start at one address, and the data
-- reach as far as the code.
pub record IsForkable (t : TaskStruct) : Type 0 where
  pub entries : length t.ldt ≡ 3
  pub bases : get_base (ldt_entry t 2) ≡ get_base (ldt_entry t 1)
  pub limits : get_limit (ldt_entry t 1) ≤ get_limit (ldt_entry t 2)

-- The child at `p` in slot `nr`: a copy of its parent with a pid and memory of its own, which goes on
-- behind the system call with the result 0.
pub record IsChild (nr p : ℕ) (r : Regs) (k k' : Kernel) : Type 0 where
  pub slots : (j : ℕ) → slot k'.sched j ≡ (if nr == j then p else slot k.sched j)
  pub others : (q : ℕ) → p ≢ q → k'.sched.tcb q ≡ k.sched.tcb q
  pub running : k'.sched.current ≡ k.sched.current
  pub pid : ((k'.sched.tcb p).pid ≡ k.last_pid) × (k'.last_pid ≡ k.last_pid)
  pub parent : (k'.sched.tcb p).p_pptr ≡ k.sched.current
  pub counter : (k'.sched.tcb p).counter ≡ (k.sched.tcb k.sched.current).counter
  pub result : (k'.sched.tcb p).tss.eax ≡ 0
  pub resumes :
      ((k'.sched.tcb p).tss.eip ≡ r.eip)
      × ((k'.sched.tcb p).tss.esp ≡ r.esp)
      × ((k'.sched.tcb p).tss.cr3 ≡ (k.sched.tcb k.sched.current).tss.cr3)
  pub kernel_stack : (k'.sched.tcb p).tss.esp0 ≡ p + 4096
  pub code : get_base (ldt_entry (k'.sched.tcb p) 1) ≡ nr * 0x4000000
  pub data_base : get_base (ldt_entry (k'.sched.tcb p) 2) ≡ nr * 0x4000000
  pub tss_desc : get_base (k'.gdt (nr * 2 + 5)) ≡ p + 44
  pub ldt_desc : get_base (k'.gdt (nr * 2 + 6)) ≡ p + 20
  pub gdt : (j : ℕ) → nr * 2 + 5 ≢ j → nr * 2 + 6 ≢ j → k'.gdt j ≡ k.gdt j

abbrev pub born : ℕ → ℕ → Regs → Kernel → Kernel
born nr p r k = record k { sched = rebased nr p (new_task nr p r k); gdt = describe nr p k.gdt }

module _ (nr p : ℕ) (r : Regs) (k : Kernel) where
  rebased_entries :
      (t : TaskStruct)
      → length t.ldt ≡ 3
      → nr < 64
      → let t' = move_base 2 (new_base nr) (move_base 1 (new_base nr) t) in
        (get_base (ldt_entry t' 1) ≡ nr * 0x4000000) × (get_base (ldt_entry t' 2) ≡ nr * 0x4000000)
  rebased_entries t three small =
      let base = new_base nr in
      let first = set_base (ldt_entry t 1) base in
      let ldt₁ = set t.ldt 1 first in
      let second = set_base (get_or ldt₁ 2 no_desc) base in
      let word : base ≡ nr * 0x4000000 = omega arith in
      let long : length ldt₁ ≡ 3 = length-set t.ldt 1 first ∙ three in
      (
        ap get_base (
              get_or-set_ne ldt₁ 2 1 second no_desc (omega arith)
              ∙ get_or-set_self t.ldt 1 first no_desc (omega arith))
            ∙ get_base-set_base (ldt_entry t 1) base (omega arith)
            ∙ word,
        ap get_base (get_or-set_self ldt₁ 2 second no_desc (omega arith))
            ∙ get_base-set_base (get_or ldt₁ 2 no_desc) base (omega arith)
            ∙ word,
      )

  pub born-IsChild :
      p < 0x1000000
      → nr < 64
      → length k.sched.task ≡ 64
      → length (k.sched.tcb k.sched.current).ldt ≡ 3
      → IsChild nr p r k (born nr p r k)
  born-IsChild low small tasks three =
      let self : (p == p) ≡ true = ground arith in
      let bases = rebased_entries (k.sched.tcb k.sched.current) three small in
      let at : get_or (set k.sched.task nr p) nr 0 ≡ p =
        get_or-set_self k.sched.task nr p 0 (omega arith) in
      record {
        slots = λ j. elim (Bool-cases (nr == j)) [
          | inl e ↦ let same : j ≡ nr = ground arith in rw (e, same) at
          | inr e ↦ rw e (get_or-set_ne k.sched.task nr j p 0 (ground arith))
        ];
        others = λ q ne. let far : (p == q) ≡ false = ground arith in rw far refl;
        running = refl;
        pid = rw self (refl, refl);
        parent = rw self refl;
        counter = rw self refl;
        result = rw self refl;
        resumes = rw self (refl, refl, refl);
        kernel_stack = rw self (omega arith);
        code = rw self bases.0;
        data_base = rw self bases.1;
        tss_desc =
            let far : (nr * 2 + 6 == nr * 2 + 5) ≡ false = ground arith in
            let here : (nr * 2 + 5 == nr * 2 + 5) ≡ true = ground arith in
            rw (far, here)
              (get_base-set_tssldt_desc (add32 p 44) 0x89 (omega arith) (omega arith)
                ∙ omega arith);
        ldt_desc =
            let here : (nr * 2 + 6 == nr * 2 + 6) ≡ true = ground arith in
            rw here (
              get_base-set_tssldt_desc (add32 p 20) 0x82 (omega arith) (omega arith) ∙ omega arith);
        gdt = λ j a b.
            let x : (nr * 2 + 5 == j) ≡ false = ground arith in
            let y : (nr * 2 + 6 == j) ≡ false = ground arith in rw (y, x) refl;
      }
