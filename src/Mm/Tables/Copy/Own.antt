-- ===== src/Mm/Tables/Copy/Own.antt =====
-- copy_page_tables of mm/memory.c: the tables of the child's own, and the pages that they take.
use my_linux_kernel.Common.{
  ℕ, zero, suc, ◌+◌, ◌*◌, ◌/◌, ◌≤◌, ◌<◌, ◌==◌, ◌≡◌, ◌≢◌, refl, ◌∙◌, true, false, arith, Bool-cases,
  inl, inr, bit_and,
}
use my_linux_kernel.Common.Bits.{mask_fffff000, bit_and_low, bit_and_shift}
use my_linux_kernel.Mm.Run.{low_mem, Ram}
use my_linux_kernel.Mm.Pages.{map_nr}
use my_linux_kernel.Mm.Tables.{present, page_of}
use my_linux_kernel.Mm.Tables.Copy.{own_pages, table_word, page_word}

-- No page is led to by entries that lead elsewhere.
pub own_pages-none :
    (n t j : ℕ) (r : Ram)
    → ((x : ℕ) → t ≤ x → x < t + n → present (r x) ≡ true → map_nr (page_of (r x)) ≢ j)
    → own_pages n t j r ≡ 0
own_pages-none zero t j r other = refl
own_pages-none (suc n) t j r other =
    let rest = own_pages-none n (t + 1) j r (λ x a b. other x (omega arith) (omega arith)) in
    elim (Bool-cases (present (r t))) [
      | inl there ↦
          let far = other t (omega arith) (omega arith) there in
          let not_own : (map_nr (page_of (r t)) == j) ≡ false = ground arith in
          rw (there, not_own, rest) refl
      | inr absent ↦ rw (absent, rest) refl
    ]

-- The entry that leads to a table of the child's own.
pub child_page : (i : ℕ) → i < 3840 → page_of (i * 4096 + low_mem + 7) ≡ i * 4096 + low_mem
child_page i small = mask_fffff000 (i * 4096 + low_mem + 7) (omega arith) ∙ omega arith

pub child_nr : (i : ℕ) → i < 3840 → map_nr (page_of (i * 4096 + low_mem + 7)) ≡ i
child_nr i small = rw (child_page i small) (omega arith)

pub child_word : (i : ℕ) → i < 3840 → table_word (i * 4096 + low_mem + 7) ≡ page_word i
child_word i small =
    let e = i * 4096 + low_mem + 7 in
    let top = bit_and_low 20 (e / 256) 0xfffff refl in omega (arith, bit_and_shift 8 e 0xfffff, top)

pub child_present : (i : ℕ) → present (i * 4096 + low_mem + 7) ≡ true
child_present i =
    let odd : bit_and (i * 4096 + low_mem + 7) 1 ≡ 1 =
      bit_and_low 1 (i * 4096 + low_mem + 7) 1 refl ∙ omega arith in
    rw odd refl
