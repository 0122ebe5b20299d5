-- ===== src/Mm/Tables/Copy/Tests.antt =====
-- Witnesses of the theorems on the copying and the freeing of page tables: the entry 16 of the page
-- directory leads to a table in page 0, whose first entry leads to page 1; the last two pages are free.
use my_linux_kernel.Common.{
  ℕ, zero, suc, ◌+◌, ◌*◌, ◌≤◌, ◌<◌, ◌≡◌, ◌≢◌, ◌⊎◌, inl, inr, refl, ◌∙◌, ◌==◌, ◌||◌, true, false,
  Bool-cases, arith, replicate, set, get_or, get_or-set, length, length-set, if◌then◌else◌, List,
}
use my_linux_kernel.Common.Int.{ℤ, pos}
use my_linux_kernel.Mm.Run.{Ram, Mm, done}
use my_linux_kernel.Mm.Pages.Alloc.{count, IsManaged}
use my_linux_kernel.Mm.Pages.Init.{get_or-replicate}
use my_linux_kernel.Mm.Tables.{present, page_of, copy_tables, copy_page_tables, free_page_tables}
use my_linux_kernel.Mm.Tables.Share.{added}
use my_linux_kernel.Mm.Tables.Free.{releases, dropped}
use my_linux_kernel.Mm.Tables.Free.Directory.{
  dropped_empty, tables_dropped, IsFreeableDirectory, FreedDirectory,
}
use my_linux_kernel.Mm.Tables.Free.Total.{free_page_tables-FreedDirectory}
use my_linux_kernel.Mm.Tables.Copy.{IsTable, IsCopyable, Copies, tables_added, page_word}
use my_linux_kernel.Mm.Tables.Copy.Total.{copy_tables-Copies}
use my_linux_kernel.Mm.Tables.Copy.Back.{GivenBack}
use my_linux_kernel.Mm.Tables.Copy.Inverse.{free_page_tables-copy_page_tables}

abbrev pub sharing : Mm
sharing = record {
  high_memory = 0x1000000;
  mem_map = set (set (replicate 3840 100) 3839 0) 3838 0;
  ram = λ w. if w == 16 then 0x100007 else if w == 262144 then 0x101007 else 0;
}

sharing-IsManaged : IsManaged sharing
sharing-IsManaged = record {
  entries = refl;
  from = omega arith;
  to = omega arith;
  above = λ i small over. absurd (omega arith);
}

two_free :
    (map : List ℕ) (j : ℕ)
    → length map ≡ 3840
    → j < 3840
    → get_or map j 0 ≡ 100
    → get_or (set (set map 3839 0) 3838 0) j 0 ≡ (if j == 3838 || j == 3839 then 0 else 100)
two_free map j long small old =
    let same = length-set map 3839 0 in
    ground (
      arith,
      get_or-set (set map 3839 0) 3838 j 0 (omega arith),
      get_or-set map 3839 j 0 (omega arith),
    )

sharing-count : (j : ℕ) → j < 3840 → count sharing j ≡ (if j == 3838 || j == 3839 then 0 else 100)
sharing-count j small =
    two_free (replicate 3840 100) j refl small (get_or-replicate 3840 100 j small)

sharing-word : (x : ℕ) → sharing.ram x < 4294967296
sharing-word x = ground arith

false-ne-true : false ≢ true
false-ne-true e = cc

-- Empty entries lead nowhere.
added_empty : (n w j : ℕ) (r : Ram) → ((k : ℕ) → w ≤ k → k < w + n → r k ≡ 0) → added n w j r ≡ 0
added_empty zero w j r empty = refl
added_empty (suc n) w j r empty =
    let here = empty w (omega arith) (omega arith) in
    let rest = added_empty n (w + 1) j r (λ k a b. empty k (omega arith) (omega arith)) in
    rw (here, rest) refl

sharing-added : (j : ℕ) → added 1024 262144 j sharing.ram ≡ (if j == 1 then 1 else 0)
sharing-added j =
    let rest : added 1023 262145 j sharing.ram ≡ 0 =
      added_empty 1023 262145 j sharing.ram (λ k a b. ground arith) in
    rw rest (ground arith)

-- The counts and the entries that lead to a page, as numbers.
few :
    (c a j : ℕ)
    → c ≡ (if j == 3838 || j == 3839 then 0 else 100)
    → a ≡ (if j == 1 then 1 else 0)
    → c + a ≤ 255
few c a j count_of entries_of = ground arith

little : (a j : ℕ) → a ≡ (if j == 1 then 1 else 0) → a ≤ 254
little a j entries_of = ground arith

enough_there :
    (c a j : ℕ)
    → c ≡ (if j == 3838 || j == 3839 then 0 else 100)
    → a ≡ (if j == 1 then 1 else 0)
    → a ≤ c
enough_there c a j count_of entries_of = ground arith

empty_at : (k : ℕ) → 262144 ≤ k → (k == 262144) ≡ false → sharing.ram k ≡ 0
empty_at k from other = ground arith

first_low : (i : ℕ) → (i == 0) ≡ true → i < 3838
first_low i first = ground arith

no_hundred : (c : ℕ) → c ≡ 100 → c ≢ 0
no_hundred c some none = omega arith

empty_behind : (k : ℕ) → (k == 0) ≡ false → sharing.ram (262144 + k) ≡ 0
empty_behind k other = ground arith

behind_first : (i : ℕ) → (i == 0) ≡ false → 262144 + 1024 ≤ page_word i
behind_first i other = ground arith

sharing-tables_added : (j : ℕ) → tables_added 1024 4 16 j sharing.ram ≡ (if j == 1 then 1 else 0)
sharing-tables_added j = rw (sharing-added j) (omega arith)

low_used : (i : ℕ) → i < 3838 → count sharing i ≡ 100
low_used i small = sharing-count i (omega arith) ∙ ground arith

sharing-IsTable : IsTable 1024 262144 sharing
sharing-IsTable = record {
  above = omega arith;
  not_free = λ i small free. elim (Bool-cases (i == 0)) [
    | inl first ↦
        let used : count sharing i ≡ 100 = low_used i (first_low i first) in
        absurd (no_hundred _ used free)
    | inr other ↦ inl (behind_first i other)
  ];
  below = λ k small is_counted. elim (Bool-cases (k == 0)) [
    | inl first ↦ let at : k ≡ 0 = ground arith in rw at (omega arith)
    | inr other ↦ rw (empty_behind k other) (omega arith)
  ];
}

-- Its directory can be copied to every other place.
pub sharing-IsCopyable :
    (t : ℕ) → (20 ≤ t) ⊎ (t + 4 ≤ 16) → t + 4 ≤ 1024 → IsCopyable 1024 4 16 t sharing
sharing-IsCopyable t apart inside = record {
  managed = sharing-IsManaged;
  words = sharing-word;
  directory = (omega arith, inside);
  apart = omega arith;
  empty = λ k small. let none : sharing.ram (t + k) ≡ 0 = ground arith in rw none refl;
  tables = λ k small is_present. elim (Bool-cases (k == 0)) [
    | inl first ↦ let at : k ≡ 0 = ground arith in rw at sharing-IsTable
    | inr other ↦
        let none : sharing.ram (16 + k) ≡ 0 = ground arith in
        absurd (false-ne-true (rw none at is_present))
  ];
  room = λ j small used. few _ _ j (sharing-count j small) (sharing-tables_added j);
  fresh_room = λ j small none. little _ j (sharing-tables_added j);
}

copy_tables-Copies_example :
    Copies 1024 4 16 32 sharing (copy_tables 0x4000000 4 (16 * 4) (32 * 4) sharing)
copy_tables-Copies_example =
    copy_tables-Copies 0x4000000 4 16 32 (sharing-IsCopyable 32 (inl (omega arith)) (omega arith))

free_page_tables-copy_page_tables_example :
    (z : ℤ) × (m₁ : Mm) × (m₂ : Mm) × (copy_page_tables 0x4000000 0x8000000 0xffffff sharing
      ≡ done z m₁)
    × (free_page_tables 0x8000000 0xffffff m₁ ≡ done (pos 0) m₂)
    × GivenBack 4 32 sharing m₂
free_page_tables-copy_page_tables_example =
    free_page_tables-copy_page_tables 0x4000000 0x8000000 0xffffff refl refl (omega arith)
      (sharing-IsCopyable 32 (inl (omega arith)) (omega arith))

sharing-dropped : (j : ℕ) → dropped 1024 262144 j sharing.ram ≡ (if j == 1 then 1 else 0)
sharing-dropped j =
    let rest : dropped 1023 262145 j sharing.ram ≡ 0 =
      dropped_empty 1023 262145 j sharing.ram (λ k a b. ground arith) in
    rw rest (ground arith)

-- The first entry is the only one that is present.
only_first : (x : ℕ) → 16 ≤ x → x < 20 → present (sharing.ram x) ≡ true → x ≡ 16
only_first x from to there = elim (Bool-cases (x == 16)) [
  | inl first ↦ ground arith
  | inr other ↦
      let none : sharing.ram x ≡ 0 = ground arith in absurd (false-ne-true (rw none at there))
]

sharing-tables_dropped :
    (j : ℕ)
    → tables_dropped 4 16 j sharing.ram ≡ (if j == 1 then 1 else 0) + (if 0 == j then 1 else 0)
sharing-tables_dropped j = sum_of _ _ _ (sharing-dropped j)
  where
    sum_of : (a b c : ℕ) → a ≡ b → a + c + 0 ≡ b + c
    sum_of a b c e = omega arith

few_used :
    (c d j : ℕ)
    → c ≡ (if j == 3838 || j == 3839 then 0 else 100)
    → d ≡ (if j == 1 then 1 else 0) + (if 0 == j then 1 else 0)
    → d ≤ c
few_used c d j count_of entries_of = ground arith

sharing-IsFreeableDirectory : IsFreeableDirectory 4 16 sharing
sharing-IsFreeableDirectory = record {
  inside = omega arith;
  above = λ x from to there. rw (only_first x from to there) (omega arith);
  apart = λ x y from less to there there'.
      let last = only_first y (omega arith) to there' in absurd (omega arith);
  below = λ x from to there k low high releasing.
      let first = only_first x from to there in below_table k (rw first at low) releasing;
  pages = λ x from to there. rw (only_first x from to there) (omega arith, omega arith);
  enough = λ j small. few_used _ _ j (sharing-count j small) (sharing-tables_dropped j);
}
  where
    below_table :
        (k : ℕ) → 262144 ≤ k → releases (sharing.ram k) ≡ true → page_of (sharing.ram k) < 0x1000000
    below_table k from releasing = elim (Bool-cases (k == 262144)) [
      | inl first ↦ let at : k ≡ 262144 = ground arith in rw at (omega arith)
      | inr other ↦ rw (empty_at k from other) (omega arith)
    ]

free_page_tables-FreedDirectory_example :
    (m' : Mm) × (free_page_tables 0x4000000 0xffffff sharing ≡ done (pos 0) m')
    × FreedDirectory 4 16 sharing m'
free_page_tables-FreedDirectory_example =
    free_page_tables-FreedDirectory 0x4000000 0xffffff sharing refl (omega arith) sharing-IsManaged
      sharing-IsFreeableDirectory
