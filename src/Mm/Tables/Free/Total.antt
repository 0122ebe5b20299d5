-- ===== src/Mm/Tables/Free/Total.antt =====
-- free_page_tables of mm/memory.c, run to the end.
use my_linux_kernel.Common.{
  ℕ, zero, suc, ◌+◌, ◌*◌, ◌/◌, ◌%◌, ◌≤◌, ◌<◌, ◌==◌, ◌&&◌, ◌||◌, ◌≡◌, ◌≢◌, inl, inr, refl, ◌∙◌, Bool,
  ltb, leb, true, false, Bool-cases, arith, if◌then◌else◌,
}
use my_linux_kernel.Common.Int.{pos}
use my_linux_kernel.Mm.Run.{Mm, done, read}
use my_linux_kernel.Mm.Pages.{map_nr}
use my_linux_kernel.Mm.Pages.Alloc.{IsManaged}
use my_linux_kernel.Mm.Tables.{
  present, page_of, tables_for, free_table, free_tables, free_page_tables,
}
use my_linux_kernel.Mm.Tables.Free.Table.{IsFreeableTable, FreedTable, free_table-FreedTable}
use my_linux_kernel.Mm.Tables.Copy.{table_word}
use my_linux_kernel.Mm.Tables.Copy.Total.{table_aligned}
use my_linux_kernel.Mm.Tables.Copy.Page.{aligned_lem, dir_of_lem}
use my_linux_kernel.Mm.Tables.Free.Directory.{
  table_drops, tables_dropped, emptied, IsFreeableDirectory, FreedDirectory, tables_dropped-eq,
  emptied-eq,
}

-- One round and the others, on one word and on the numbers for one page: `own` and `page` of the first
-- entry, `rest` of the others.
two_rounds :
    (x' x₁ x : ℕ) (there here inside rest : Bool)
    → there ≡ true
    → x' ≡ (if rest then 0 else x₁)
    → x₁ ≡ (if here then 0 else if inside then 0 else x)
    → x' ≡ (if (there && (here || inside)) || rest then 0 else x)
two_rounds x' x₁ x there here inside rest is_there last first = ground arith

own_le : (all own page rest c : ℕ) → all ≡ own + page + rest → all ≤ c → own ≤ c
own_le all own page rest c sum enough = omega arith

own_lt : (all own page rest c : ℕ) → all ≡ own + page + rest → page ≡ 1 → all ≤ c → own < c
own_lt all own page rest c sum one enough = omega arith

rest_le :
    (all own page rest rest' c c₁ : ℕ)
    → all ≡ own + page + rest
    → rest' ≡ rest
    → c₁ + own + page ≡ c
    → all ≤ c
    → rest' ≤ c₁
rest_le all own page rest rest' c c₁ sum same left enough = omega arith

both_rounds :
    (all own page rest rest' c c₁ c' : ℕ)
    → all ≡ own + page + rest
    → rest' ≡ rest
    → c₁ + own + page ≡ c
    → c' + rest' ≡ c₁
    → c' + all ≡ c
both_rounds all own page rest rest' c c₁ c' sum same first last = omega arith

module _ (n d : ℕ) (m : Mm) (can : IsFreeableDirectory (suc n) d m) where
  -- An entry that is not present.
  skip-IsFreeableDirectory : present (m.ram d) ≡ false → IsFreeableDirectory n (d + 1) m
  skip-IsFreeableDirectory absent = record {
    inside = omega (arith, can.inside);
    above = λ x from to. can.above x (omega arith) (omega arith);
    apart = λ x y from less to. can.apart x y (omega arith) less (omega arith);
    below = λ x from to. can.below x (omega arith) (omega arith);
    pages = λ x from to. can.pages x (omega arith) (omega arith);
    enough = λ j small.
        let none : tables_dropped (suc n) d j m.ram ≡ tables_dropped n (d + 1) j m.ram =
          rw absent (omega arith) in
        omega (arith, none, can.enough j small);
  }

  module _ (there : present (m.ram d) ≡ true) where
    first_drops :
        (j : ℕ)
        → tables_dropped (suc n) d j m.ram
          ≡ table_drops (m.ram d) j m.ram + tables_dropped n (d + 1) j m.ram
    first_drops j = rw there refl

    first-IsFreeableTable : IsManaged m → IsFreeableTable d (table_word (m.ram d)) m
    first-IsFreeableTable v =
        let page = can.pages d (omega arith) (omega arith) there in
        let i = map_nr (page_of (m.ram d)) in
        let in_map : i < 3840 = omega (arith, page, v.to) in
        record {
          directory = omega (arith, can.inside);
          there = there;
          table = table_aligned (m.ram d);
          above = can.above d (omega arith) (omega arith) there;
          entries = record {
            below = can.below d (omega arith) (omega arith) there;
            enough = λ j small. own_le _ _ _ _ _ (first_drops j) (can.enough j small);
          };
          page = page;
          counted = own_lt _ _ _ _ _ (first_drops i) (ground arith) (can.enough i in_map);
        }

    module _ {m₁ : Mm} (f : FreedTable d (table_word (m.ram d)) m m₁) where
      later_entry : (x : ℕ) → d + 1 ≤ x → x < d + 1 + n → m₁.ram x ≡ m.ram x
      later_entry x from to =
          let above = can.above d (omega arith) (omega arith) there in
          f.words x ∙ ground (arith, can.inside)

      later_word :
          (x : ℕ)
          → d + 1 ≤ x
          → x < d + 1 + n
          → present (m.ram x) ≡ true
          → (k : ℕ) → table_word (m.ram x) ≤ k
          → k < table_word (m.ram x) + 1024
          → m₁.ram k ≡ m.ram k
      later_word x from to is_present k low high =
          let above = can.above x (omega arith) (omega arith) is_present in
          let apart = can.apart d x (omega arith) (omega arith) (omega arith) there is_present in
          f.words k ∙ ground (arith, can.inside)

      later_drops : (j : ℕ) → tables_dropped n (d + 1) j m₁.ram ≡ tables_dropped n (d + 1) j m.ram
      later_drops j = tables_dropped-eq m.ram m₁.ram n (d + 1) j later_entry later_word

      rest-IsFreeableDirectory : IsFreeableDirectory n (d + 1) m₁
      rest-IsFreeableDirectory = record {
        inside = omega (arith, can.inside);
        above = λ x from to. rw (later_entry x from to) (can.above x (omega arith) (omega arith));
        apart = λ x y from less to.
            rw (later_entry x from (omega arith), later_entry y (omega arith) to)
              (can.apart x y (omega arith) less (omega arith));
        below = λ x from to is_present k low high releasing.
            let same = later_entry x from to in
            let there' = rw same at is_present in
            let low' = rw same at low in
            let high' = rw same at high in
            let word = later_word x from to there' k low' high' in
            rw (word, f.high)
              (can.below x (omega arith) (omega arith) there' k low' high' (rw word at releasing));
        pages = λ x from to is_present.
            let same = later_entry x from to in
            rw (same, f.high) (can.pages x (omega arith) (omega arith) (rw same at is_present));
        enough = λ j small.
            rest_le _ _ _ _ _ _ _ (first_drops j) (later_drops j) (f.counts j small)
              (can.enough j small);
      }

      FreedDirectory-step :
          {m' : Mm} → FreedDirectory n (d + 1) m₁ m' → FreedDirectory (suc n) d m m'
      FreedDirectory-step {m'} rest = record {
        managed = rest.managed;
        high = rest.high ∙ f.high;
        words = λ k.
            let same = emptied-eq m.ram m₁.ram n (d + 1) k later_entry in
            let first = table_word (m.ram d) in
            two_rounds (m'.ram k) (m₁.ram k) (m.ram k) (present (m.ram d)) (d == k)
              (leb first k && ltb k (first + 1024)) (emptied n (d + 1) k m.ram) there
              (rest.words k ∙ rw same refl) (f.words k);
        counts = λ j small.
            both_rounds _ _ _ _ _ _ _ _ (first_drops j) (later_drops j) (f.counts j small)
              (rest.counts j small);
      }

absent_run : (d : ℕ) (m : Mm) → present (m.ram d) ≡ false → free_table (d * 4) m ≡ done tt m
unfolding free_table read
absent_run d m absent = let quarter : d * 4 / 4 ≡ d = omega arith in rw (quarter, absent) refl

FreedDirectory-skip :
    (n d : ℕ) (m m' : Mm)
    → present (m.ram d) ≡ false
    → FreedDirectory n (d + 1) m m'
    → FreedDirectory (suc n) d m m'
FreedDirectory-skip n d m m' absent rest = record {
  managed = rest.managed;
  high = rest.high;
  words = λ k. rest.words k ∙ rw absent refl;
  counts = λ j small. rw absent (omega (arith, rest.counts j small));
}

pub free_tables-FreedDirectory :
    (n d : ℕ) (m : Mm)
    → IsManaged m
    → IsFreeableDirectory n d m
    → (m' : Mm) × (free_tables n (d * 4) m ≡ done tt m') × FreedDirectory n d m m'
unfolding free_tables
free_tables-FreedDirectory zero d m v can = (
  m,
  refl,
  record { managed = v; high = refl; words = λ k. refl; counts = λ j small. omega arith },
)
free_tables-FreedDirectory (suc n) d m v can =
    let next : d * 4 + 4 ≡ (d + 1) * 4 = omega arith in
    elim (Bool-cases (present (m.ram d))) [
      | inl there ↦
          let table = first-IsFreeableTable n d m can there v in
          let (m₁, first, f) = free_table-FreedTable d (table_word (m.ram d)) m v table in
          let (m', ran, rest) =
            free_tables-FreedDirectory n (d + 1) m₁ f.managed
              (rest-IsFreeableDirectory n d m can there f) in
          (m', rw (first, next) ran, FreedDirectory-step n d m can there f rest)
      | inr absent ↦
          let (m', ran, rest) =
            free_tables-FreedDirectory n (d + 1) m v (skip-IsFreeableDirectory n d m can absent) in
          (m', rw (absent_run d m absent, next) ran, FreedDirectory-skip n d m m' absent rest)
    ]

-- free_page_tables of an aligned address that is not 0
pub free_page_tables_run :
    (from size : ℕ) (m : Mm) {m' : Mm}
    → from % 0x400000 ≡ 0
    → from ≢ 0
    → free_tables (tables_for size) (from / 0x400000 % 1024 * 4) m ≡ done tt m'
    → free_page_tables from size m ≡ done (pos 0) m'
unfolding free_page_tables
free_page_tables_run from size m aligned not_null ran =
    let some_task : (from == 0) ≡ false = ground arith in
    rw (aligned_lem from aligned, some_task, dir_of_lem from, ran) refl

-- On a managed map, for an aligned address other than 0 whose entries of the page directory
-- lead to separate tables in managed pages, each page counted at least as often as the entries
-- and their tables lead to it: free_page_tables returns 0, the entries and their tables are
-- empty, no other word has changed, and each page is counted once less for each time that it
-- was led to.
pub free_page_tables-FreedDirectory :
    (from size : ℕ) (m : Mm)
    → from % 0x400000 ≡ 0
    → from ≢ 0
    → IsManaged m
    → IsFreeableDirectory (tables_for size) (from / 0x400000 % 1024) m
    → (m' : Mm) × (free_page_tables from size m ≡ done (pos 0) m')
      × FreedDirectory (tables_for size) (from / 0x400000 % 1024) m m'
free_page_tables-FreedDirectory from size m aligned not_null v can =
    let (m', ran, f) =
      free_tables-FreedDirectory (tables_for size) (from / 0x400000 % 1024) m v can in
    (m', free_page_tables_run from size m aligned not_null ran, f)
