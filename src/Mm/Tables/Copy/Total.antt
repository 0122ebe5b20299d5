-- ===== src/Mm/Tables/Copy/Total.antt =====
-- copy_page_tables of mm/memory.c: its loop, run to the end.
use my_linux_kernel.Common.{
  ℕ, zero, suc, ◌+◌, ◌*◌, ◌/◌, ◌≤◌, ◌<◌, ◌≡◌, ◌⊎◌, inl, inr, refl, ap, ap₂, ◌∙◌, ◌==◌, true, false,
  set, arith, Bool-cases, if◌then◌else◌,
}
use my_linux_kernel.Common.Bits.{bit_and_shift}
use my_linux_kernel.Common.Int.{ℤ, negsuc}
use my_linux_kernel.Mm.Run.{low_mem, Ram, Mm, Run, done, and_then, read, write}
use my_linux_kernel.Mm.Pages.{get_free_page}
use my_linux_kernel.Mm.Pages.Alloc.{count, out_of_memory, allocated, get_free_page-Alloc}
use my_linux_kernel.Mm.Tables.{present, table_of, copy_entries, copy_tables}
use my_linux_kernel.Mm.Tables.Share.{copy_entries-Shared}
use my_linux_kernel.Mm.Tables.Alike.{IsAlike-refl}
use my_linux_kernel.Mm.Tables.Copy.{
  IsTable, IsCopyable, Copied, Copies, copied, page_word, table_word, spare, needed, needed_present,
  needed_absent,
}
use my_linux_kernel.Mm.Tables.Copy.Spare.{spare-full}
use my_linux_kernel.Mm.Tables.Copy
use my_linux_kernel.Mm.Tables.Copy.Step.{Stepped, entered, Shared-Stepped}
use my_linux_kernel.Mm.Tables.Copy.Rest.{
  target_absent, first-IsTaken, skip-IsCopyable, prefix-IsCopyable, rest-IsCopyable, one_less,
  skip_spare, later_needed,
}
use my_linux_kernel.Mm.Tables.Copy.Skip.{skip-Copied}
use my_linux_kernel.Mm.Tables.Copy.Loop.{step-Copied}

-- How many entries of each table are copied.
abbrev pub shared_entries : ℕ → ℕ
shared_entries from = if from == 0 then 0xa0 else 1024

pub shared_entries_lem : (from : ℕ) → shared_entries from ≤ 1024
shared_entries_lem from = ground arith

quarter : (a : ℕ) → a * 4 / 4 ≡ a
quarter a = omega arith

fourth : (a : ℕ) → a * 4 + 4 ≡ (a + 1) * 4
fourth a = omega arith

pub table_aligned : (e : ℕ) → table_of e ≡ table_word e * 4
table_aligned e = omega (arith, bit_and_shift 8 e 0xfffff)

module _ (from n d t : ℕ) (m : Mm) where
  -- The rounds in which no page is asked for, and those in which none is found.
  skip_run :
      present (m.ram t) ≡ false
      → present (m.ram d) ≡ false
      → copy_tables from (suc n) (d * 4) (t * 4) m
        ≡ copy_tables from n ((d + 1) * 4) ((t + 1) * 4) m
  unfolding copy_tables read
  skip_run empty absent = rw (quarter t, empty, quarter d, absent, fourth d, fourth t) refl

  full_run :
      present (m.ram t) ≡ false
      → present (m.ram d) ≡ true
      → get_free_page m ≡ done 0 m
      → copy_tables from (suc n) (d * 4) (t * 4) m ≡ done (negsuc 0) m
  unfolding copy_tables read
  full_run empty there none = rw (quarter t, empty, quarter d, there, none) refl

  step_run :
      (i : ℕ) {cleared : Ram} {m₁ : Mm}
      → present (m.ram t) ≡ false
      → present (m.ram d) ≡ true
      → get_free_page m
        ≡ done (i * 4096 + low_mem) (record m { mem_map = set m.mem_map i 1; ram = cleared })
      → copy_entries
          (shared_entries from)
          (table_word (m.ram d) * 4)
          (page_word i * 4)
          (entered t i cleared m)
        ≡ done tt m₁
      → copy_tables from (suc n) (d * 4) (t * 4) m
        ≡ copy_tables from n ((d + 1) * 4) ((t + 1) * 4) m₁
  unfolding copy_tables read write
  step_run i {cleared} {m₁} empty there page shared =
      let some_page : (i * 4096 + low_mem == 0) ≡ false = ground arith in
      let at : i * 4096 + low_mem ≡ page_word i * 4 = omega arith in
      let run =
        ap₂ (λ a b. copy_entries (shared_entries from) a b (entered t i cleared m))
          (table_aligned (m.ram d)) at
        ∙ shared in
      rw (quarter t, empty, quarter d, there, page, some_page, quarter t, fourth d, fourth t)
        (ap (λ r. and_then r (λ _. copy_tables from n ((d + 1) * 4) ((t + 1) * 4))) run)

apart_lem :
    {size a b : ℕ} → size ≤ 1024 → (a + 1024 ≤ b) ⊎ (b + 1024 ≤ a) → (a + size ≤ b) ⊎ (b + size ≤ a)
apart_lem fits apart = omega arith

module _ {size n d t : ℕ} {m : Mm} {r : Run ℤ} (can : IsCopyable size (suc n) d t m) where
  skip-Copies :
      present (m.ram d) ≡ false → Copies size n (d + 1) (t + 1) m r → Copies size (suc n) d t m r
  skip-Copies absent (Copy.out_of_memory k m' run small some_copied all few) =
      Copy.out_of_memory (suc k) m' run (omega arith)
        (skip-Copied (prefix-IsCopyable (suc k) (omega arith) can) absent some_copied) all
        (omega (arith, needed_absent n d m.ram absent, skip_spare can absent))
  skip-Copies absent (copied m' run rest) = copied m' run (skip-Copied can absent rest)

  step-Copies :
      {i : ℕ} {m₁ : Mm}
      → (present (m.ram d) ≡ true)
      → size ≤ 1024
      → i * 4096 + low_mem < m.high_memory
      → count m i ≡ 0
      → Stepped size (table_word (m.ram d)) t i m m₁
      → Copies size n (d + 1) (t + 1) m₁ r
      → Copies size (suc n) d t m r
  step-Copies {i} there fits below free s (Copy.out_of_memory k m' run small some_copied all few) =
      let page : i < 3840 = omega (arith, can.managed.to) in
      let one = one_less can there fits page free s in
      let same = later_needed can there fits page free s in
      let first = prefix-IsCopyable (suc k) (omega arith) can in
      Copy.out_of_memory (suc k) m' run (omega arith)
        (step-Copied first there fits below free s some_copied) all
        (omega (arith, needed_present n d m.ram there))
  step-Copies there fits below free s (copied m' run rest) =
      copied m' run (step-Copied can there fits below free s rest)

-- No round has run.
nothing_copied : {size d t : ℕ} {m : Mm} → IsCopyable size 0 d t m → Copied size 0 d t m m
nothing_copied {size} {d} {t} {m} can = record {
  managed = can.managed;
  high = refl;
  directory = λ x low out. refl;
  alike = λ x above out. IsAlike-refl (m.ram x) (can.words x);
  taken = λ j small none. none;
  counts = λ j small used. omega arith;
  fresh = λ j small none. omega arith;
  single = λ j small. omega arith;
  absent = λ k small. absurd (omega arith);
  children = λ k small. absurd (omega arith);
}

-- On memory of which `n` entries of the directory can be copied, the loop of copy_page_tables
-- ends without a panic: with -1 only where all pages are in use and there were fewer free pages
-- that no table to be copied leads to than entries are present, or with 0. Then each present
-- entry has led to a table of its own in a page that was free, which shares the first 1024
-- entries of the old table read-only or, where the source starts at 0, the first 160, with its
-- other entries 0, and each page is counted once more for each shared entry that leads to it.
pub copy_tables-Copies :
    (from n d t : ℕ) {m : Mm}
    → IsCopyable (shared_entries from) n d t m
    → Copies (shared_entries from) n d t m (copy_tables from n (d * 4) (t * 4) m)
unfolding copy_tables
copy_tables-Copies from zero d t {m} can = copied m refl (nothing_copied can)
copy_tables-Copies from (suc n) d t {m} can = elim (Bool-cases (present (m.ram d))) [
  | inl there ↦ elim (get_free_page-Alloc can.managed) [
    | out_of_memory r all ↦ rw (full_run from n d t m (target_absent can) there r) (
        Copy.out_of_memory 0 m refl (omega arith)
          (nothing_copied (prefix-IsCopyable 0 (omega arith) can)) all
          (omega (
            arith,
            needed_present n d m.ram there,
            spare-full (shared_entries from) (suc n) d m all,
          )))
    | allocated i cleared r below free above words ↦
        let fits = shared_entries_lem from in
        let page : i < 3840 = omega (arith, can.managed.to) in
        let taken = first-IsTaken can there fits below free words in
        let table = taken.table in
        let (m₁, ran, shared) =
          copy_entries-Shared (shared_entries from) (table_word (m.ram d)) (page_word i)
            (entered t i cleared m) (apart_lem fits (table.not_free i page free)) in
        let s = Shared-Stepped taken shared in
        rw (step_run from n d t m i (target_absent can) there r ran) (
          step-Copies can there fits below free s (
            copy_tables-Copies from n (d + 1) (t + 1) (rest-IsCopyable can there fits page free s)))
  ]
  | inr absent ↦ rw (skip_run from n d t m (target_absent can) absent) (
      skip-Copies can absent
        (copy_tables-Copies from n (d + 1) (t + 1) (skip-IsCopyable can absent)))
]
