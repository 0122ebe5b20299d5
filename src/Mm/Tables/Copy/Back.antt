-- ===== src/Mm/Tables/Copy/Back.antt =====
-- copy_page_tables and then free_page_tables of mm/memory.c: the memory that they leave.
use my_linux_kernel.Common.{
  ℕ, ◌+◌, ◌-◌, ◌*◌, ◌≤◌, ◌<◌, ◌==◌, ◌≡◌, ◌≢◌, ◌⊎◌, inl, inr, refl, sym, ap, ◌∙◌, true, false, set,
  get_or-set, arith, Bool-cases, if◌then◌else◌,
}
use my_linux_kernel.Mm.Run.{low_mem, Ram, Mm, done}
use my_linux_kernel.Mm.Pages.{map_nr, free_page}
use my_linux_kernel.Mm.Pages.Alloc.{count, IsManaged, in_page}
use my_linux_kernel.Mm.Pages.Free.{Managed, free_page-used, set-IsManaged}
use my_linux_kernel.Mm.Tables.{present, free_tables}
use my_linux_kernel.Mm.Tables.Alike.{IsAlike, IsAlike-refl}
use my_linux_kernel.Mm.Tables.Free.Directory.{emptied, emptied-outside, emptied-inside}
use my_linux_kernel.Mm.Tables.Free.Total.{free_tables-FreedDirectory}
use my_linux_kernel.Mm.Tables.Copy.{IsCopyable, Copied, table_word}
use my_linux_kernel.Mm.Tables.Copy.Own.{child_word}
use my_linux_kernel.Mm.Tables.Copy.Page.{with_page, page_count, page_free, same_word, same_dir}
use my_linux_kernel.Mm.Tables.Copy.Undo.{child, page-lt, counted_back, undo-IsFreeableDirectory}

-- Memory from which what was copied has been taken back: every page is counted as before, the entries
-- for the child are not present, and no word has changed but for the write bits of shared entries and
-- in pages that were free and are again.
pub record GivenBack (n t : ℕ) (m m' : Mm) : Type 0 where
  pub managed : IsManaged m'
  pub high : m'.high_memory ≡ m.high_memory
  pub counts : (j : ℕ) → j < 3840 → count m' j ≡ count m j
  pub directory : (x : ℕ) → x < 1024 → (x < t) ⊎ (t + n ≤ x) → m'.ram x ≡ m.ram x
  pub empty : (x : ℕ) → t ≤ x → x < t + n → present (m'.ram x) ≡ false
  pub alike :
      (x : ℕ)
      → 1024 ≤ x
      → ((i : ℕ) → i < 3840 → count m i ≡ 0 → in_page i x ≡ false)
      → IsAlike (m.ram x) (m'.ram x)

pub GivenBack-refl : {size n d t : ℕ} {m : Mm} → IsCopyable size n d t m → GivenBack n t m m
GivenBack-refl {size} {n} {d} {t} {m} can = record {
  managed = can.managed;
  high = refl;
  counts = λ j small. refl;
  directory = λ x low out. refl;
  empty = λ x from to.
      let at : t + (x - t) ≡ x = omega arith in rw at at (can.empty (x - t) (omega arith));
  alike = λ x above out. IsAlike-refl (m.ram x) (can.words x);
}

module _ {size n d t k : ℕ} {m m' : Mm} (can : IsCopyable size n d t m) (fits : size ≤ 1024)
    (less : k ≤ n) (c : Copied size k d t m m') where
  -- A word outside the pages that were free is in no table of the child's.
  far :
      (x y : ℕ)
      → t ≤ y
      → y < t + n
      → present (m'.ram y) ≡ true
      → 1024 ≤ x
      → ((i : ℕ) → i < 3840 → count m i ≡ 0 → in_page i x ≡ false)
      → (x < table_word (m'.ram y)) ⊎ (table_word (m'.ram y) + 1024 ≤ x)
  far x y from to there above out =
      let (l, small, source, b) = child can fits less c y from to there in
      let word = ap table_word b.entry ∙ child_word b.page (page-lt can fits less c b) in
      let outside = out b.page (page-lt can fits less c b) b.was_free in rw word (ground arith)

  pub undo-GivenBack : (m'' : Mm) × (free_tables n (t * 4) m' ≡ done tt m'') × GivenBack n t m m''
  undo-GivenBack =
      let (m'', ran, f) =
        free_tables-FreedDirectory n t m' c.managed (undo-IsFreeableDirectory can fits less c) in
      (
        m'',
        ran,
        record {
          managed = f.managed;
          high = f.high ∙ c.high;
          counts = λ j small.
              same_count _ _ _ _ (f.counts j small) (counted_back can fits less c j small);
          directory = λ x low out.
              let none = emptied-outside n t x m'.ram (omega arith) (λ y from to there. inl (
                let (l, small, source, b) = child can fits less c y from to there in
                let word = ap table_word b.entry ∙ child_word b.page (page-lt can fits less c b) in
                omega (arith, word))) in
              f.words x ∙ rw none (c.directory x low (omega arith));
          empty = λ x from to. elim (Bool-cases (present (m'.ram x))) [
            | inl there ↦
                let gone : m''.ram x ≡ 0 =
                  f.words x ∙ rw (emptied-inside n t x m'.ram from to there) refl in
                rw gone refl
            | inr absent ↦ elim (Bool-cases (emptied n t x m'.ram)) [
              | inl inside ↦ let gone : m''.ram x ≡ 0 = f.words x ∙ rw inside refl in rw gone refl
              | inr other ↦
                  let same : m''.ram x ≡ m'.ram x = f.words x ∙ rw other refl in rw same absent
            ]
          ];
          alike = λ x above out.
              let none =
                emptied-outside n t x m'.ram (omega (arith, can.directory))
                  (λ y from to there. far x y from to there above out) in
              let same : m''.ram x ≡ m'.ram x = f.words x ∙ rw none refl in
              rw same (c.alike x above out);
        },
      )
    where
      same_count : (a b x y : ℕ) → a + x ≡ b → b ≡ y + x → a ≡ y
      same_count a b x y sum back = omega arith

freed_count :
    (i j c' c₁ cᵢ c : ℕ)
    → c' ≡ (if i == j then cᵢ - 1 else c₁)
    → cᵢ ≡ 1
    → c₁ ≡ (if i == j then 1 else c)
    → (i ≡ j → c ≡ 0)
    → c' ≡ c
freed_count i j c' c₁ cᵢ c put one was none = elim (Bool-cases (i == j)) [
  | inl own ↦
      let at : i ≡ j = ground arith in
      let zero_before = none at in let now : c' ≡ cᵢ - 1 = put ∙ rw own refl in omega arith
  | inr other ↦
      let now : c' ≡ c₁ = put ∙ rw other refl in
      let before : c₁ ≡ c = was ∙ rw other refl in omega arith
]

module _ {size n d t : ℕ} {m : Mm} (can : IsCopyable size n d t m) (fits : size ≤ 1024) (i : ℕ)
    (ram' : Ram) (below : i * 4096 + low_mem < m.high_memory) (free : count m i ≡ 0)
    (cleared : (x : ℕ) → ram' x ≡ (if in_page i x then 0 else m.ram x)) where
  -- The page that was taken before is given back as well.
  pub page-GivenBack :
      {m₁ : Mm}
      → GivenBack n t (with_page can fits i ram' below free cleared) m₁
      → (m₂ : Mm) × (free_page (i * 4096 + low_mem) m₁ ≡ done tt m₂) × GivenBack n t m m₂
  page-GivenBack {m₁} g =
      let page = i * 4096 + low_mem in
      let inside : i < 3840 = omega (arith, can.managed.to) in
      let nr : map_nr page ≡ i = omega arith in
      let own = g.counts i inside ∙ page_count can fits i ram' below free cleared i in
      let one : count m₁ i ≡ 1 = own ∙ ground arith in
      let used : count m₁ (map_nr page) ≢ 0 = rw nr (omega arith) in
      let managed : Managed m₁ page = omega (arith, g.high) in
      (
        record m₁ { mem_map = set m₁.mem_map i (count m₁ i - 1) },
        rw nr at (free_page-used page g.managed managed used),
        record {
          managed = set-IsManaged i (count m₁ i - 1) m₁.ram g.managed (omega (arith, managed));
          high = g.high;
          counts = λ j small.
              let put =
                get_or-set m₁.mem_map i j (count m₁ i - 1) (omega (arith, g.managed.entries)) in
              let was = g.counts j small ∙ page_count can fits i ram' below free cleared j in
              freed_count i j _ _ _ _ put one was (λ at. rw at at free);
          directory = λ x low out.
              g.directory x low out ∙ same_dir can fits i ram' below free cleared x low;
          empty = g.empty;
          alike = λ x above out.
              let same = same_word can fits i ram' below free cleared x (out i inside free) in
              rw (sym same) (
                g.alike x above (λ j small none.
                  out j small (page_free can fits i ram' below free cleared j none)));
        },
      )
