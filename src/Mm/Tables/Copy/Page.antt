-- ===== src/Mm/Tables/Copy/Page.antt =====
-- copy_page_tables of mm/memory.c after get_free_page of mm/swap.c, as copy_process calls them.
use my_linux_kernel.Common.{
  ℕ, suc, ◌+◌, ◌-◌, ◌*◌, ◌/◌, ◌%◌, ◌≤◌, ◌<◌, ◌≡◌, ◌≢◌, inl, inr, refl, ◌∙◌, ◌==◌, true, false, set,
  get_or-set, arith, Bool-cases, if◌then◌else◌, bit_and,
}
use my_linux_kernel.Common.Bits.{bit_and_low, mask_ffc}
use my_linux_kernel.Mm.Run.{low_mem, Ram, Mm}
use my_linux_kernel.Mm.Pages.Alloc.{count, in_page}
use my_linux_kernel.Mm.Pages.Free.{set-IsManaged}
use my_linux_kernel.Mm.Tables.{present, unaligned, dir_of, tables_for, copy_page_tables}
use my_linux_kernel.Mm.Tables.Alike.{IsAlike-refl}
use my_linux_kernel.Mm.Tables.Copy.{
  IsTable, IsCopyable, Copies, table_word, tables_added, tables_added-alike, needed, needed-eq,
  spare, is_spare,
}
use my_linux_kernel.Mm.Tables.Copy.Spare.{how_many-step}
use my_linux_kernel.Mm.Tables.Copy.Rest.{both_zero, zeros}
use my_linux_kernel.Mm.Tables.Copy.Total.{shared_entries, copy_tables-Copies}

module _ {size n d t : ℕ} {m : Mm} (can : IsCopyable size n d t m) (fits : size ≤ 1024) (i : ℕ)
    (ram' : Ram) (below : i * 4096 + low_mem < m.high_memory) (free : count m i ≡ 0)
    (cleared : (x : ℕ) → ram' x ≡ (if in_page i x then 0 else m.ram x)) where
  -- The memory with page `i` taken.
  abbrev pub with_page : Mm
  with_page = record m { mem_map = set m.mem_map i 1; ram = ram' }

  pub page_count : (j : ℕ) → count with_page j ≡ (if i == j then 1 else count m j)
  page_count j = get_or-set m.mem_map i j 1 (omega (arith, can.managed.entries, can.managed.to))

  pub page_free : (j : ℕ) → count with_page j ≡ 0 → count m j ≡ 0
  page_free j none = ground (arith, page_count j)

  pub same_word : (x : ℕ) → in_page i x ≡ false → ram' x ≡ m.ram x
  same_word x out = cleared x ∙ rw out refl

  pub same_dir : (x : ℕ) → x < 1024 → ram' x ≡ m.ram x
  same_dir x low = same_word x (ground arith)

  in_table : {w : ℕ} → IsTable size w m → (k : ℕ) → w ≤ k → k < w + 1024 → ram' k ≡ m.ram k
  in_table table k from to =
      let apart = table.not_free i (omega (arith, can.managed.to)) free in
      same_word k (ground arith)

  IsTable-at :
      (x : ℕ) → d ≤ x → x < d + n → present (m.ram x) ≡ true → IsTable size (table_word (m.ram x)) m
  IsTable-at x from to is_present =
      let at : d + (x - d) ≡ x = omega arith in
      rw at at (can.tables (x - d) (omega arith) (rw at is_present))

  page_added : (j : ℕ) → tables_added size n d j ram' ≡ tables_added size n d j m.ram
  page_added j =
      tables_added-alike size n d j m.ram ram'
        (λ x from to. same_dir x (omega (arith, can.directory)))
        (λ x from to is_present k low high.
          let same = in_table (IsTable-at x from to is_present) k low (omega arith) in
          rw same (IsAlike-refl (m.ram k) (can.words k)))

  page-IsTable : {w : ℕ} → IsTable size w m → IsTable size w with_page
  page-IsTable {w} table = record {
    above = table.above;
    not_free = λ j small none. table.not_free j small (page_free j none);
    below = λ k small.
        let same = in_table table (w + k) (omega arith) (omega arith) in
        rw same (table.below k small);
  }

  word_small : (x : ℕ) → ram' x < 4294967296
  word_small x = let old = can.words x in ground (arith, cleared x)

  pub page-IsCopyable : IsCopyable size n d t with_page
  page-IsCopyable = record {
    managed = set-IsManaged i 1 ram' can.managed below;
    words = word_small;
    directory = can.directory;
    apart = can.apart;
    empty = λ k small.
        let same = same_dir (t + k) (omega (arith, can.directory)) in rw same (can.empty k small);
    tables = λ k small is_present.
        let same = same_dir (d + k) (omega (arith, can.directory)) in
        rw same (page-IsTable (can.tables k small (rw same at is_present)));
    room = λ j small used. elim (Bool-cases (i == j)) [
      | inl own ↦
          let at : i ≡ j = ground arith in
          let none : count m j ≡ 0 = rw at at free in
          let one : count with_page j ≡ 1 = page_count j ∙ rw own refl in
          omega (arith, one, page_added j, can.fresh_room j small none)
      | inr other ↦
          let same : count with_page j ≡ count m j = page_count j ∙ rw other refl in
          omega (arith, same, page_added j, can.room j small (rw same at used))
    ];
    fresh_room =
        λ j small none. omega (arith, page_added j, can.fresh_room j small (page_free j none));
  }

  pub page_needed : needed n d ram' ≡ needed n d m.ram
  page_needed = needed-eq n d m.ram ram' (λ x from to. same_dir x (omega (arith, can.directory)))

  page_still_spare :
      (j : ℕ) → j ≢ i → is_spare size n d m j ≡ true → is_spare size n d with_page j ≡ true
  page_still_spare j other is_free =
      let (none, apart) = both_zero (count m j) (tables_added size n d j m.ram) is_free in
      let same : count with_page j ≡ count m j = page_count j ∙ ground arith in
      zeros (count with_page j) (tables_added size n d j ram') (same ∙ none) (page_added j ∙ apart)

  pub page_spare : spare size n d m ≤ suc (spare size n d with_page)
  page_spare =
      how_many-step (is_spare size n d m) (is_spare size n d with_page) 3840 i
        (λ j small. page_still_spare j)

pub aligned_lem : (a : ℕ) → a % 0x400000 ≡ 0 → unaligned a ≡ false
aligned_lem a aligned =
    let low : bit_and a 0x3fffff ≡ 0 = bit_and_low 22 a 0x3fffff refl ∙ aligned in rw low refl

pub dir_of_lem : (a : ℕ) → dir_of a ≡ a / 0x400000 % 1024 * 4
dir_of_lem a = mask_ffc (a / 0x100000) ∙ omega arith

-- Between aligned addresses
pub copy_page_tables-Copies :
    (from to size : ℕ) {m : Mm}
    → from % 0x400000 ≡ 0
    → to % 0x400000 ≡ 0
    → IsCopyable
        (shared_entries from)
        (tables_for size)
        (from / 0x400000 % 1024)
        (to / 0x400000 % 1024)
        m
    → Copies
        (shared_entries from)
        (tables_for size)
        (from / 0x400000 % 1024)
        (to / 0x400000 % 1024)
        m
        (copy_page_tables from to size m)
unfolding copy_page_tables
copy_page_tables-Copies from to size from_aligned to_aligned can =
    rw (aligned_lem from from_aligned, aligned_lem to to_aligned, dir_of_lem from, dir_of_lem to)
      (copy_tables-Copies from (tables_for size) (from / 0x400000 % 1024) (to / 0x400000 % 1024)
        can)
