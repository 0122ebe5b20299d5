-- ===== src/Mm/Tables/Free/Table.antt =====
-- free_page_tables of mm/memory.c: one entry of the page directory, with its table.
use my_linux_kernel.Common.{
  ℕ, ◌+◌, ◌-◌, ◌*◌, ◌/◌, ◌≤◌, ◌<◌, ◌==◌, ◌&&◌, ◌≡◌, ◌≢◌, refl, ap, ◌∙◌, ltb, leb, true, Bool-cases,
  inl, inr, arith, set, get_or-set, if◌then◌else◌,
}
use my_linux_kernel.Mm.Run.{Mm, done, store, read, write}
use my_linux_kernel.Mm.Pages.{map_nr}
use my_linux_kernel.Mm.Pages.Alloc.{count, IsManaged}
use my_linux_kernel.Mm.Pages.Free.{Managed, free_page-used, set-IsManaged}
use my_linux_kernel.Mm.Tables.{present, page_of, table_of, free_table}
use my_linux_kernel.Mm.Tables.Free.{dropped, IsReleasable, free_entries-Freed}

-- A present entry of the directory, at word `d`, that leads to a table at word `w` whose entries can
-- be given back, and whose own page is counted once more than that.
pub record IsFreeableTable (d w : ℕ) (m : Mm) : Type 0 where
  pub directory : d < 1024
  pub there : present (m.ram d) ≡ true
  pub table : table_of (m.ram d) ≡ w * 4
  pub above : 1024 ≤ w
  pub entries : IsReleasable 1024 w m
  pub page : Managed m (page_of (m.ram d))
  pub counted :
      dropped 1024 w (map_nr (page_of (m.ram d))) m.ram < count m (map_nr (page_of (m.ram d)))

-- The entry and the table are empty, and every page is counted once less for each entry of the table
-- that led to it, and the table's own page once less again.
pub record FreedTable (d w : ℕ) (m m' : Mm) : Type 0 where
  pub managed : IsManaged m'
  pub high : m'.high_memory ≡ m.high_memory
  pub words :
      (k : ℕ)
      → m'.ram k ≡ (if d == k then 0 else if leb w k && ltb k (w + 1024) then 0 else m.ram k)
  pub counts :
      (j : ℕ)
      → j < 3840
      → count m' j + dropped 1024 w j m.ram + (if map_nr (page_of (m.ram d)) == j then 1 else 0)
        ≡ count m j

still_used : (c₁ x c : ℕ) → c₁ + x ≡ c → x < c → c₁ ≢ 0
still_used c₁ x c sum more none = omega arith

last_count :
    (i j c' cᵢ c₁ x c : ℕ)
    → c' ≡ (if i == j then cᵢ - 1 else c₁)
    → (i ≡ j → cᵢ ≡ c₁)
    → cᵢ ≢ 0
    → c₁ + x ≡ c
    → c' + x + (if i == j then 1 else 0) ≡ c
last_count i j c' cᵢ c₁ x c new same used sum = elim (Bool-cases (i == j)) [
  | inl own ↦
      let at : i ≡ j = ground arith in
      let equal = same at in let now : c' ≡ cᵢ - 1 = new ∙ rw own refl in rw own (omega arith)
  | inr other ↦ let now : c' ≡ c₁ = new ∙ rw other refl in rw other (omega arith)
]

-- On a managed map, for a present entry of the page directory whose table's entries can be
-- given back (pages below HIGH_MEMORY, counted often enough) and whose own page is counted once
-- more than that, one round of the loop of free_page_tables ends without a panic: the entry and
-- the table are empty, no other word has changed, and each page is counted once less for each
-- entry that led to it, the table's own page once less again.
pub free_table-FreedTable :
    (d w : ℕ) (m : Mm)
    → IsManaged m
    → IsFreeableTable d w m
    → (m' : Mm) × (free_table (d * 4) m ≡ done tt m') × FreedTable d w m m'
unfolding free_table read write
free_table-FreedTable d w m v can =
    let (m₁, freed, f) = free_entries-Freed 1024 w m v can.entries in
    let e = m.ram d in
    let i = map_nr (page_of e) in
    let quarter : d * 4 / 4 ≡ d = omega arith in
    let in_map : i < 3840 = omega (arith, can.page, v.to) in
    let page : Managed m₁ (page_of e) = omega (arith, can.page, f.high) in
    let used : count m₁ i ≢ 0 = still_used _ _ _ (f.counts i in_map) can.counted in
    let given = free_page-used (page_of e) f.managed page used in
    let here = can.there in
    (
      record m₁ { mem_map = set m₁.mem_map i (count m₁ i - 1); ram = store m₁.ram d 0 },
      rw (quarter, here, can.table, freed, given, quarter) refl,
      record {
        managed =
            set-IsManaged i (count m₁ i - 1) (store m₁.ram d 0) f.managed (omega (arith, page));
        high = f.high;
        words = λ k. ap (λ (x : ℕ). if d == k then 0 else x) (f.words k);
        counts = λ j small.
            let put =
              get_or-set m₁.mem_map i j (count m₁ i - 1) (omega (arith, f.managed.entries)) in
            last_count i j _ (count m₁ i) (count m₁ j) _ _ put (λ at. rw at refl) used
              (f.counts j small);
      },
    )
