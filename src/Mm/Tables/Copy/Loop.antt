-- ===== src/Mm/Tables/Copy/Loop.antt =====
-- copy_page_tables of mm/memory.c: a round of its loop that copies an entry, and the rounds behind it.
use my_linux_kernel.Common.{
  ℕ, zero, suc, ◌+◌, ◌-◌, ◌*◌, ◌==◌, if◌then◌else◌, ◌≤◌, ◌<◌, ◌≡◌, ◌≢◌, inl, inr, refl, sym, ◌∙◌,
  true, false, ltb, arith, Bool-cases,
}
use my_linux_kernel.Mm.Run.{low_mem, Mm}
use my_linux_kernel.Mm.Pages.{map_nr}
use my_linux_kernel.Mm.Pages.Alloc.{count}
use my_linux_kernel.Mm.Tables.{present, page_of, read_only}
use my_linux_kernel.Mm.Tables.Alike.{IsAlike-trans, child-read_only}
use my_linux_kernel.Mm.Tables.Copy.{
  IsCopyable, IsChildTable, Copied, page_word, table_word, own_pages, tables_added,
}
use my_linux_kernel.Mm.Tables.Copy.Step.{Stepped}
use my_linux_kernel.Mm.Tables.Copy.Rest.{
  next, plus_zero, all_added, stepped_taken, later_dir, later-IsTable, table-IsAlike, later_added,
}
use my_linux_kernel.Mm.Tables.Copy.Own.{own_pages-none, child_nr, child_present}
use my_linux_kernel.Mm.Tables.Copy.Skip.{false-ne-true}

module _ {size n d t : ℕ} {m : Mm} (can : IsCopyable size (suc n) d t m) where
  module _ (there : present (m.ram d) ≡ true) {i : ℕ} {m₁ m' : Mm} (fits : size ≤ 1024)
      (below : i * 4096 + low_mem < m.high_memory) (free : count m i ≡ 0)
      (s : Stepped size (table_word (m.ram d)) t i m m₁)
      (rest : Copied size n (d + 1) (t + 1) m₁ m') where
    is_page : i < 3840
    is_page = omega (arith, can.managed.to)

    taken : (j : ℕ) → j < 3840 → count m₁ j ≡ 0 → count m j ≡ 0
    taken = stepped_taken can there fits is_page free s

    first_count : count m' i ≡ 1 + tables_added size (suc n) d i m.ram
    first_count =
        let used : count m₁ i ≢ 0 = omega (arith, s.own) in
        omega (
          arith,
          rest.counts i is_page used,
          s.own,
          later_added can there fits is_page free s i,
          all_added can there i,
        )

    first_child : IsChildTable size (table_word (m.ram d)) t m m'
    first_child = record {
      page = i;
      was_free = free;
      inside = below;
      entry = rest.directory t (omega (arith, can.directory)) (omega arith) ∙ s.entry;
      entries = λ k small. rest_keeps k small ∙ s.child k small;
    }
      where
        fixed : (k : ℕ) → k < 1024 → read_only (m₁.ram (page_word i + k)) ≡ m₁.ram (page_word i + k)
        fixed k small = elim (Bool-cases (ltb k size)) [
          | inl shared ↦
              let entry = s.child k small ∙ rw shared refl in
              rw entry (
                child-read_only (m.ram (table_word (m.ram d) + k))
                  (can.words (table_word (m.ram d) + k)))
          | inr left ↦
              let entry : m₁.ram (page_word i + k) ≡ 0 = s.child k small ∙ rw left refl in
              rw entry refl
        ]

        rest_keeps : (k : ℕ) → k < 1024 → m'.ram (page_word i + k) ≡ m₁.ram (page_word i + k)
        rest_keeps k small =
            let same = rest.alike (page_word i + k) (omega arith) (λ j inside none.
              let other : j ≢ i =
                λ e. let zero_own : count m₁ i ≡ 0 = rw e at none in omega (arith, s.own) in
              ground arith) in
            same.same_read_only (fixed k small)

    later_child :
        (k : ℕ)
        → k < n
        → present (m.ram (d + 1 + k)) ≡ true
        → IsChildTable size (table_word (m.ram (d + 1 + k))) (t + 1 + k) m m'
    later_child k small is_present =
        let same = later_dir can there fits is_page free s k small in
        let c = rest.children k small (rw same is_present) in
        let table = later-IsTable can there fits is_page free s k small is_present in
        record {
          page = c.page;
          was_free = taken c.page (omega (arith, c.inside, s.high, can.managed.to)) c.was_free;
          inside = omega (arith, c.inside, s.high);
          entry = c.entry;
          entries = λ j inside. elim (Bool-cases (ltb j size)) [
            | inl shared ↦
                let alike = table-IsAlike can there fits is_page free s table j inside in
                c.entries j inside ∙ rw (shared, same, alike.same_child) refl
            | inr left ↦ c.entries j inside ∙ rw left refl
          ];
        }

    -- The entries behind the first lead to pages that were still free after it.
    others_at :
        (j : ℕ)
        → count m₁ j ≢ 0
        → (k : ℕ) → k < n
        → present (m'.ram (t + 1 + k)) ≡ true
        → map_nr (page_of (m'.ram (t + 1 + k))) ≢ j
    others_at j used k small is_there = elim (Bool-cases (present (m₁.ram (d + 1 + k)))) [
      | inl copied ↦
          let c = rest.children k small copied in
          let page : c.page < 3840 = omega (arith, c.inside, s.high, can.managed.to) in
          λ same.
            let own : c.page ≡ j = sym (rw c.entry (child_nr c.page page)) ∙ same in
            used (rw own at c.was_free)
      | inr not_copied ↦
          let old =
            rest.absent k small not_copied
            ∙ s.directory (t + 1 + k) (omega (arith, can.directory)) (omega arith) in
          let empty = can.empty (suc k) (omega arith) in
          let none : present (m'.ram (t + 1 + k)) ≡ false = rw old (rw (next t k) at empty) in
          absurd (false-ne-true (sym none ∙ is_there))
    ]

    others : (j : ℕ) → count m₁ j ≢ 0 → own_pages n (t + 1) j m'.ram ≡ 0
    others j used = own_pages-none n (t + 1) j m'.ram (λ x from to is_there.
        let at : t + 1 + (x - (t + 1)) ≡ x = omega arith in
        rw at at (others_at j used (x - (t + 1)) (omega arith) (rw at is_there)))

    first_own :
        (j : ℕ)
        → own_pages (suc n) t j m'.ram ≡ (if i == j then 1 else 0) + own_pages n (t + 1) j m'.ram
    first_own j =
        let entry = rest.directory t (omega (arith, can.directory)) (omega arith) ∙ s.entry in
        rw (entry, child_present i, child_nr i is_page) refl

    own_used : count m₁ i ≢ 0
    own_used = omega (arith, s.own)

    step_fresh :
        (j : ℕ)
        → j < 3840
        → count m j ≡ 0
        → count m' j ≡ own_pages (suc n) t j m'.ram + tables_added size (suc n) d j m.ram
    step_fresh j small unused = elim (Bool-cases (i == j)) [
      | inl same ↦
          let at : i ≡ j = ground arith in
          let one : ◌≡◌ {A = ℕ} (if i == j then 1 else 0) 1 = rw same refl in
          let own = rw at at first_count in
          let none = rw at at (others i own_used) in omega (arith, first_own j, one, own, none)
      | inr other ↦
          let zero_own : ◌≡◌ {A = ℕ} (if i == j then 1 else 0) 0 = rw other refl in
          let first = s.counts j small (ground arith) in
          let later = later_added can there fits is_page free s j in
          elim (Bool-cases (count m₁ j == 0)) [
            | inl still ↦
                let none : count m₁ j ≡ 0 = ground arith in
                omega (
                  arith,
                  first_own j,
                  zero_own,
                  first,
                  later,
                  all_added can there j,
                  rest.fresh j small none,
                )
            | inr used ↦
                let some : count m₁ j ≢ 0 = ground arith in
                omega (
                  arith,
                  first_own j,
                  zero_own,
                  first,
                  later,
                  all_added can there j,
                  rest.counts j small some,
                  others j some,
                )
          ]
    ]

    step_single : (j : ℕ) → j < 3840 → own_pages (suc n) t j m'.ram ≤ 1
    step_single j small = elim (Bool-cases (i == j)) [
      | inl same ↦
          let at : i ≡ j = ground arith in
          let one : ◌≡◌ {A = ℕ} (if i == j then 1 else 0) 1 = rw same refl in
          let none = rw at at (others i own_used) in omega (arith, first_own j, one, none)
      | inr other ↦
          let zero_own : ◌≡◌ {A = ℕ} (if i == j then 1 else 0) 0 = rw other refl in
          omega (arith, first_own j, zero_own, rest.single j small)
    ]

    step_absent :
        (k : ℕ) → k < suc n → present (m.ram (d + k)) ≡ false → m'.ram (t + k) ≡ m.ram (t + k)
    step_absent zero small is_absent =
        absurd (false-ne-true (sym (rw (plus_zero d) at is_absent) ∙ there))
    step_absent (suc k) small is_absent =
        let same = later_dir can there fits is_page free s k (omega arith) in
        let none : present (m₁.ram (d + 1 + k)) ≡ false = rw same (rw (next d k) at is_absent) in
        rw (next t k) (
          rest.absent k (omega arith) none
          ∙ s.directory (t + 1 + k) (omega (arith, can.directory)) (omega arith))

    step_children :
        (k : ℕ)
        → k < suc n
        → present (m.ram (d + k)) ≡ true
        → IsChildTable size (table_word (m.ram (d + k))) (t + k) m m'
    step_children zero small is_present = rw (plus_zero d, plus_zero t) first_child
    step_children (suc k) small is_present =
        rw (next t k, next d k) (later_child k (omega arith) (rw (next d k) at is_present))

    -- One entry that is present, and the others.
    pub step-Copied : Copied size (suc n) d t m m'
    step-Copied = record {
      managed = rest.managed;
      high = rest.high ∙ s.high;
      directory = λ x low out. rest.directory x low (omega arith) ∙ s.directory x low (omega arith);
      alike = λ x above out.
          IsAlike-trans (s.alike x above (out i is_page free))
            (rest.alike x above (λ j small none. out j small (taken j small none)));
      taken = λ j small none. taken j small (rest.taken j small none);
      counts = λ j small used.
          let other : j ≢ i = λ e. used (rw e free) in
          let new = s.counts j small other in
          let still : count m₁ j ≢ 0 = omega arith in
          omega (
            arith,
            rest.counts j small still,
            later_added can there fits is_page free s j,
            all_added can there j,
          );
      fresh = step_fresh;
      single = step_single;
      absent = step_absent;
      children = step_children;
    }
