-- ===== src/Fork/Tests/Refused.antt =====
-- A run of copy_process of kernel/fork.c where memory runs out: the one free page is given back.
use my_linux_kernel.Common.{
  ℕ, ◌*◌, ◌≡◌, ◌≢◌, ◌<◌, ◌==◌, refl, arith, List, replicate, length, set, get_or, get_or-set_self,
  get_or-set_ne, length-set, Bool-cases, inl, inr, ◌∙◌, ap,
}
use my_linux_kernel.Common.Int.{pos, negsuc}
use my_linux_kernel.Mm.Run.{Mm, done, read}
use my_linux_kernel.Mm.Pages.{
  free_page, scan_free, clear_words, grab, take_page, get_free_loop, get_free_page,
}
use my_linux_kernel.Mm.Pages.Alloc.{IsManaged, out_of_memory, allocated, count, get_free_page-Alloc}
use my_linux_kernel.Mm.Pages.Init.{get_or-replicate}
use my_linux_kernel.Mm.Tables.{
  copy_page_tables, copy_tables, free_tables, free_table, free_page_tables,
}
use my_linux_kernel.Segments.{get_base, get_limit}
use my_linux_kernel.Fork.{eagain, ldt_entry, Kernel, copy_process}
use my_linux_kernel.Fork.Process.{copy_process-IsUndone, IsUndone}
use my_linux_kernel.Fork.Tests.{parent, kernel, regs, memory, parent-IsForkable}

-- One page is free: there is none for the page table of the child.
abbrev one_page : Mm
one_page = record memory { mem_map = set (replicate 3840 100) 3839 0 }

one_page-IsManaged : IsManaged one_page
one_page-IsManaged = record {
  entries = refl;
  from = omega arith;
  to = omega arith;
  above = λ i small over. absurd (omega arith);
}

abbrev full : Mm
full = record one_page {
  mem_map = set one_page.mem_map 3839 1;
  ram = clear_words 1024 0x3fffff one_page.ram;
}

full-IsManaged : IsManaged full
full-IsManaged = record {
  entries = refl;
  from = omega arith;
  to = omega arith;
  above = λ i small over. absurd (omega arith);
}

last_page : get_free_page one_page ≡ done 0xfff000 full
unfolding get_free_page get_free_loop take_page grab scan_free
last_page = refl

last_taken :
    (xs : List ℕ) (n : ℕ)
    → n < length xs
    → ((j : ℕ) → j < length xs → get_or xs j 0 ≡ 100)
    → (j : ℕ) → j < length xs
    → get_or (set (set xs n 0) n 1) j 0 ≢ 0
last_taken xs n low all j small z = elim (Bool-cases (n == j)) [
  | inl e ↦
      let last : n ≡ j = ground arith in
      let long = length-set xs n 0 in
      let one = get_or-set_self (set xs n 0) n 1 0 (omega arith) in
      let at : get_or (set (set xs n 0) n 1) n 0 ≡ 0 =
        ap (λ (q : ℕ). get_or (set (set xs n 0) n 1) q 0) last ∙ z in
      omega arith
  | inr e ↦
      let ne : n ≢ j = ground arith in
      let other = get_or-set_ne (set xs n 0) n j 1 0 ne in
      let first = get_or-set_ne xs n j 0 0 ne in let hundred = all j small in omega arith
]

none_free : (j : ℕ) → j < 3840 → count full j ≢ 0
none_free = last_taken (replicate 3840 100) 3839 (omega arith) (get_or-replicate 3840 100)

no_page : get_free_page full ≡ done 0 full
no_page = elim (get_free_page-Alloc full-IsManaged) [
  | out_of_memory e all ↦ e
  | allocated i ram' e below free above words ↦ absurd (none_free i (omega arith) free)
]

no_copy :
    copy_page_tables
      (get_base (ldt_entry parent 2))
      (2 * 0x4000000)
      (get_limit (ldt_entry parent 2))
      full
    ≡ done (negsuc 0) full
unfolding copy_page_tables copy_tables get_base get_limit read clear_words
no_copy = rw no_page refl

nothing_freed :
    free_page_tables (2 * 0x4000000) (get_limit (ldt_entry parent 2)) full ≡ done (pos 0) full
unfolding free_page_tables free_tables free_table get_limit read clear_words
nothing_freed = refl

given_back : free_page 0xfff000 full ≡ done tt (record full { mem_map = set full.mem_map 3839 0 })
unfolding free_page
given_back = refl

one_page_refused :
    (k' : Kernel) × (copy_process 2 regs kernel one_page
      ≡ done (eagain, k') (record full { mem_map = set full.mem_map 3839 0 }))
    × IsUndone 0xfff000 kernel k'
one_page_refused =
    copy_process-IsUndone 2 0xfff000 regs kernel one_page-IsManaged last_page (omega arith)
      (omega arith) parent-IsForkable (omega arith) refl no_copy nothing_freed given_back
