-- ===== src/Fork/Process.antt =====
-- copy_process of kernel/fork.c: its results.
use my_linux_kernel.Common.{
  ℕ, zero, suc, ◌+◌, ◌*◌, ◌<◌, ◌==◌, ◌≡◌, ◌≢◌, true, false, Bool-cases, inl, inr, arith, List, [],
  ◌∷◌, length, refl, sym, ◌∙◌, if◌then◌else◌, get_or, set, ltb, get_or-set_ne,
}
use my_linux_kernel.Common.Int.{ℤ, pos, negsuc}
use my_linux_kernel.Mm.Run.{low_mem, Mm, Run, pure, ◌>>◌, done, and_then}
use my_linux_kernel.Mm.Pages.{free_page, get_free_page}
use my_linux_kernel.Mm.Pages.Alloc.{IsManaged, out_of_memory, allocated, count, get_free_page-Alloc}
use my_linux_kernel.Mm.Tables.{copy_page_tables, free_page_tables}
use my_linux_kernel.Sched.{Sched, slot, is_zero}
use my_linux_kernel.Segments.{get_base, get_limit}
use my_linux_kernel.Fork.{
  eagain, enomem, rebased, ldt_entry, new_base, Regs, Kernel, copy_mem, copy_process, new_task,
}
use my_linux_kernel.Fork.Child.{IsForkable, IsChild, born, born-IsChild}

-- What copy_mem returns is decided by copy_page_tables.
abbrev copied : ℕ → ℕ → Sched → Run ℤ → Run (ℤ × Sched)
copied nr p s r = and_then r (λ failed. if is_zero failed then pure (pos 0, rebased nr p s) else (do
  free_page_tables (new_base nr) (get_limit (ldt_entry (s.tcb s.current) 2))
  pure (enomem, rebased nr p s)))

copy_mem_lem :
    (nr p : ℕ) (s : Sched) (m : Mm)
    → IsForkable (s.tcb s.current)
    → copy_mem nr p s m
      ≡ copied nr p s (
          copy_page_tables
            (get_base (ldt_entry (s.tcb s.current) 2))
            (new_base nr)
            (get_limit (ldt_entry (s.tcb s.current) 2))
            m)
unfolding copy_mem
copy_mem_lem nr p s m f =
    let t = s.tcb s.current in
    let same : (get_base (ldt_entry t 2) == get_base (ldt_entry t 1)) ≡ true =
      ground (arith, f.bases) in
    let enough : ltb (get_limit (ldt_entry t 2)) (get_limit (ldt_entry t 1)) ≡ false =
      ground (arith, f.limits) in
    rw (same, enough) refl

get_or-set_zero : (xs : List ℕ) (i : ℕ) → get_or (set xs i 0) i 0 ≡ 0
get_or-set_zero [] i = refl
get_or-set_zero (x ∷ xs) zero = refl
get_or-set_zero (x ∷ xs) (suc i) = get_or-set_zero xs i

-- No slot, no descriptor and no other task has changed.
pub record IsUndone (p : ℕ) (k k' : Kernel) : Type 0 where
  pub slots : (j : ℕ) → slot k'.sched j ≡ slot k.sched j
  pub others : (q : ℕ) → p ≢ q → k'.sched.tcb q ≡ k.sched.tcb q
  pub running : k'.sched.current ≡ k.sched.current
  pub gdt : k'.gdt ≡ k.gdt
  pub last_pid : k'.last_pid ≡ k.last_pid

pub nothing-IsUndone : (k : Kernel) → IsUndone 0 k k
nothing-IsUndone k = record {
  slots = λ j. refl;
  others = λ q other. refl;
  running = refl;
  gdt = refl;
  last_pid = refl;
}

abbrev undone : ℕ → ℕ → Regs → Kernel → Kernel
undone nr p r k =
    let s' = rebased nr p (new_task nr p r k) in
    record k { sched = record s' { task = set s'.task nr 0 } }

undone-IsUndone :
    (nr p : ℕ) (r : Regs) (k : Kernel) → slot k.sched nr ≡ 0 → IsUndone p k (undone nr p r k)
undone-IsUndone nr p r k empty = record {
  slots = λ j. elim (Bool-cases (nr == j)) [
    | inl e ↦
        let same : j ≡ nr = ground arith in
        rw (same, empty) (get_or-set_zero (set k.sched.task nr p) nr)
    | inr e ↦
        get_or-set_ne (set k.sched.task nr p) nr j 0 0 (ground arith)
        ∙ get_or-set_ne k.sched.task nr j p 0 (ground arith)
  ];
  others = λ q ne. let far : (p == q) ≡ false = ground arith in rw far refl;
  running = refl;
  gdt = refl;
  last_pid = refl;
}

page-lt : {m m' : Mm} {p : ℕ} → IsManaged m → get_free_page m ≡ done p m' → p < 0x1000000
page-lt {m} {m'} {p} v e = elim (get_free_page-Alloc v) [
  | out_of_memory r all ↦
      let same : done p m' ≡ done 0 m = sym e ∙ r in let zero_page : p ≡ 0 = cc in omega arith
  | allocated i ram' r below free above words ↦
      let same : done p m'
          ≡ done (i * 4096 + low_mem) (record m { mem_map = set m.mem_map i 1; ram = ram' }) =
        sym e ∙ r in
      let page : p ≡ i * 4096 + low_mem = cc in omega (arith, v.to)
]

module _ (nr p : ℕ) (r : Regs) (k : Kernel) {m m₁ : Mm} (v : IsManaged m)
    (page : get_free_page m ≡ done p m₁) (some_page : p ≢ 0) (other : p ≢ k.sched.current)
    (f : IsForkable (k.sched.tcb k.sched.current)) where
  parent_kept : (new_task nr p r k).tcb k.sched.current ≡ k.sched.tcb k.sched.current
  parent_kept = let far : (p == k.sched.current) ≡ false = ground arith in rw far refl

  -- On a managed map, where get_free_page returns a page that is not the running task, the
  -- running task's code and data have one base and fitting limits, and copy_page_tables
  -- succeeds: copy_process returns last_pid, and the child in slot nr is a copy of its parent
  -- with that pid, its own base nr * 64 MB, stack and descriptors, the result 0, and the given
  -- registers; the other tasks, slots and descriptors stay.
  pub copy_process-IsChild :
      {m₂ : Mm}
      → nr < 64
      → length k.sched.task ≡ 64
      → copy_page_tables
          (get_base (ldt_entry (k.sched.tcb k.sched.current) 2))
          (nr * 0x4000000)
          (get_limit (ldt_entry (k.sched.tcb k.sched.current) 2))
          m₁
        ≡ done (pos 0) m₂
      → (k' : Kernel) × (copy_process nr r k m ≡ done (k.last_pid, k') m₂) × IsChild nr p r k k'
  unfolding copy_process
  copy_process-IsChild {m₂} small tasks done_copy =
      let live : (p == 0) ≡ false = ground arith in
      let word : new_base nr ≡ nr * 0x4000000 = omega arith in
      let mem = copy_mem_lem nr p (new_task nr p r k) m₁ (rw parent_kept f) in
      (
        born nr p r k,
        rw (page, live, mem, parent_kept, word, done_copy) refl,
        born-IsChild nr p r k (page-lt v page) small tasks f.entries,
      )

  -- On a managed map, where get_free_page returns a page that is not the running task, the
  -- running task's code and data have one base and fitting limits, the slot is free,
  -- copy_page_tables fails, and what it has copied and the page can be freed: copy_process
  -- returns -EAGAIN, and all slots, descriptors and other tasks are as before.
  pub copy_process-IsUndone :
      {m₂ m₃ m₄ : Mm} {n : ℕ} {z : ℤ}
      → nr < 64
      → slot k.sched nr ≡ 0
      → copy_page_tables
          (get_base (ldt_entry (k.sched.tcb k.sched.current) 2))
          (nr * 0x4000000)
          (get_limit (ldt_entry (k.sched.tcb k.sched.current) 2))
          m₁
        ≡ done (negsuc n) m₂
      → free_page_tables (nr * 0x4000000) (get_limit (ldt_entry (k.sched.tcb k.sched.current) 2)) m₂
        ≡ done z m₃
      → free_page p m₃ ≡ done tt m₄
      → (k' : Kernel) × (copy_process nr r k m ≡ done (eagain, k') m₄) × IsUndone p k k'
  unfolding copy_process
  copy_process-IsUndone small empty no_copy freed given =
      let live : (p == 0) ≡ false = ground arith in
      let word : new_base nr ≡ nr * 0x4000000 = omega arith in
      let mem = copy_mem_lem nr p (new_task nr p r k) m₁ (rw parent_kept f) in
      (
        undone nr p r k,
        rw (page, live, mem, parent_kept, word, no_copy, freed, given) refl,
        undone-IsUndone nr p r k empty,
      )

pub copy_process-no_page :
    (nr : ℕ) (r : Regs) (k : Kernel) {m : Mm}
    → IsManaged m
    → ((j : ℕ) → j < 3840 → count m j ≢ 0)
    → copy_process nr r k m ≡ done (eagain, k) m
unfolding copy_process
copy_process-no_page nr r k {m} v full = elim (get_free_page-Alloc v) [
  | out_of_memory e all ↦ rw e refl
  | allocated i ram' e below free above words ↦ absurd (full i (omega arith) free)
]
