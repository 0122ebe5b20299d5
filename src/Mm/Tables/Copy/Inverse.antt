-- ===== src/Mm/Tables/Copy/Inverse.antt =====
-- copy_page_tables and then free_page_tables of mm/memory.c, on the same addresses.
use my_linux_kernel.Common.{ℕ, ◌/◌, ◌%◌, ◌≡◌, ◌≢◌, arith}
use my_linux_kernel.Common.Int.{ℤ, pos, negsuc}
use my_linux_kernel.Mm.Run.{Mm, done}
use my_linux_kernel.Mm.Tables.{tables_for, copy_page_tables, free_page_tables}
use my_linux_kernel.Mm.Tables.Free.Total.{free_page_tables_run}
use my_linux_kernel.Mm.Tables.Copy.{IsCopyable, copied, out_of_memory}
use my_linux_kernel.Mm.Tables.Copy.Total.{shared_entries, shared_entries_lem}
use my_linux_kernel.Mm.Tables.Copy.Page.{copy_page_tables-Copies}
use my_linux_kernel.Mm.Tables.Copy.Back.{GivenBack, undo-GivenBack}

-- Between aligned addresses, the target not 0, on memory of which the source's part of the
-- directory can be copied: copy_page_tables returns, with all tables copied or because no page
-- is free, and free_page_tables of the target then returns 0 and leaves every page counted as
-- before, no entry of the target present, and no other word changed, but in pages that were
-- free, and for the write bit of words behind the page directory whose present bit is set.
pub free_page_tables-copy_page_tables :
    (from to size : ℕ) {m : Mm}
    → from % 0x400000 ≡ 0
    → to % 0x400000 ≡ 0
    → to ≢ 0
    → IsCopyable
        (shared_entries from)
        (tables_for size)
        (from / 0x400000 % 1024)
        (to / 0x400000 % 1024)
        m
    → (z : ℤ) × (m₁ : Mm) × (m₂ : Mm) × (copy_page_tables from to size m ≡ done z m₁)
      × (free_page_tables to size m₁ ≡ done (pos 0) m₂)
      × GivenBack (tables_for size) (to / 0x400000 % 1024) m m₂
free_page_tables-copy_page_tables from to size from_aligned to_aligned not_null can =
    let fits = shared_entries_lem from in
    elim (copy_page_tables-Copies from to size from_aligned to_aligned can) [
      | copied m₁ run all_copied ↦
          let (m₂, freed, back) = undo-GivenBack can fits (omega arith) all_copied in
          (pos 0, m₁, m₂, run, free_page_tables_run to size m₁ to_aligned not_null freed, back)
      | out_of_memory k m₁ run less some_copied all few ↦
          let (m₂, freed, back) = undo-GivenBack can fits (omega arith) some_copied in
          (negsuc 0, m₁, m₂, run, free_page_tables_run to size m₁ to_aligned not_null freed, back)
    ]
