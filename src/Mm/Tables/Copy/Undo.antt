-- ===== src/Mm/Tables/Copy/Undo.antt =====
-- copy_page_tables of mm/memory.c, and free_page_tables after it: what it left can be freed.
use my_linux_kernel.Common.{
  ℕ, ◌+◌, ◌-◌, ◌≤◌, ◌<◌, ◌==◌, ◌≡◌, ◌≢◌, ◌⊎◌, inl, inr, refl, sym, ap, ◌∙◌, true, false, ltb, arith,
  Bool-cases,
}
use my_linux_kernel.Mm.Run.{Mm}
use my_linux_kernel.Mm.Pages.{map_nr}
use my_linux_kernel.Mm.Pages.Alloc.{count}
use my_linux_kernel.Mm.Tables.{present, page_of}
use my_linux_kernel.Mm.Tables.Share.{child_entry, added}
use my_linux_kernel.Mm.Tables.Free.{releases, dropped}
use my_linux_kernel.Mm.Tables.Free.Directory.{
  tables_dropped, IsFreeableDirectory, dropped_append, dropped_empty,
}
use my_linux_kernel.Mm.Tables.Return.{child_page_lem, dropped-added}
use my_linux_kernel.Mm.Tables.Copy.{
  IsTable, IsCopyable, IsChildTable, Copied, page_word, table_word, tables_added, own_pages,
}
use my_linux_kernel.Mm.Tables.Copy.Own.{
  own_pages-none, child_page, child_nr, child_word, child_present,
}
use my_linux_kernel.Mm.Tables.Copy.Sums.{
  tables_dropped-split, tables_dropped_prefix, own_pages-two, same_terms, no_terms,
}

module _ {size n d t k : ℕ} {m m' : Mm} (can : IsCopyable size n d t m) (fits : size ≤ 1024)
    (less : k ≤ n) (c : Copied size k d t m m') where
  false-ne-true : false ≢ true
  false-ne-true e = cc

  -- Behind the entries that were copied there is none.
  tail_absent : (x : ℕ) → t + k ≤ x → x < t + n → present (m'.ram x) ≡ false
  tail_absent x from to =
      let at : t + (x - t) ≡ x = omega arith in
      let empty = rw at at (can.empty (x - t) (omega arith)) in
      rw (c.directory x (omega (arith, can.directory)) (omega arith)) empty

  -- A present entry of the child's is one that was copied.
  copied_at :
      (x : ℕ)
      → t ≤ x
      → x < t + n
      → present (m'.ram x) ≡ true
      → (l : ℕ) × (l < k) × (t + l ≡ x) × (present (m.ram (d + l)) ≡ true)
  copied_at x from to there =
      let l = x - t in
      let at : t + l ≡ x = omega arith in
      elim (Bool-cases (ltb l k)) [
        | inl small ↦ elim (Bool-cases (present (m.ram (d + l)))) [
          | inl source ↦ (l, ground arith, at, source)
          | inr absent ↦
              let same = c.absent l (ground arith) absent in
              let none : present (m'.ram (t + l)) ≡ false = rw same (can.empty l (omega arith)) in
              absurd (false-ne-true (sym (rw at at none) ∙ there))
        ]
        | inr behind ↦ absurd (false-ne-true (sym (tail_absent x (ground arith) to) ∙ there))
      ]

  pub child :
      (x : ℕ)
      → t ≤ x
      → x < t + n
      → present (m'.ram x) ≡ true
      → (l : ℕ) × (l < k)
        × (present (m.ram (d + l)) ≡ true)
        × IsChildTable size (table_word (m.ram (d + l))) x m m'
  child x from to there =
      let (l, small, at, source) = copied_at x from to there in
      (l, small, source, rw at at (c.children l small source))

  pub page-lt : {w x : ℕ} (b : IsChildTable size w x m m') → b.page < 3840
  page-lt b = omega (arith, b.inside, can.managed.to)

  -- The counts
  child_dropped :
      {x w : ℕ} (j : ℕ)
      → IsTable size w m
      → (b : IsChildTable size w x m m')
      → dropped 1024 (page_word b.page) j m'.ram ≡ added size w j m.ram
  child_dropped {x} {w} j table b =
      let own = page_word b.page in
      let shared =
        dropped-added size w own j m.ram m'.ram (λ l small. can.words (w + l))
          (λ l small.
            let low : ltb l size ≡ true = ground arith in
            b.entries l (omega arith) ∙ rw low refl) in
      let left = dropped_empty (1024 - size) (own + size) j m'.ram (λ x from to.
        let high : ltb (x - own) size ≡ false = ground arith in
        let at : own + (x - own) ≡ x = omega arith in
        let none : m'.ram (own + (x - own)) ≡ 0 =
          b.entries (x - own) (omega arith) ∙ rw high refl in
        rw at at none) in
      let whole : size + (1024 - size) ≡ 1024 = omega arith in
      let parts = rw whole at (dropped_append size (1024 - size) own j m'.ram) in
      parts_lem _ _ _ _ parts shared left
    where
      parts_lem : (a b c x : ℕ) → a ≡ b + c → b ≡ x → c ≡ 0 → a ≡ x
      parts_lem a b c x sum first none = omega arith

  own_zero : (j : ℕ) → count m j ≢ 0 → own_pages k t j m'.ram ≡ 0
  own_zero j used = own_pages-none k t j m'.ram (λ x from to there.
      let (l, small, source, b) = child x from (omega arith) there in
      let nr : map_nr (page_of (m'.ram x)) ≡ b.page = rw b.entry (child_nr b.page (page-lt b)) in
      λ same. used (rw (sym nr ∙ same) at b.was_free))

  all_dropped :
      (j : ℕ) → tables_dropped n t j m'.ram ≡ tables_added size k d j m.ram + own_pages k t j m'.ram
  all_dropped j =
      tables_dropped_prefix k n t j m'.ram less tail_absent
      ∙ tables_dropped-split size k d t j m.ram m'.ram (λ l x y small at_x at_y.
        elim (Bool-cases (present (m.ram (d + l)))) [
          | inl source ↦
              let b = c.children l small source in
              let page = page-lt b in
              let entry = ap m'.ram at_x ∙ b.entry in
              let word = ap table_word entry ∙ child_word b.page page in
              let gone = child_dropped j (can.tables l (omega arith) source) b in
              same_terms (present (m'.ram x)) (present (m.ram y))
                (dropped 1024 (table_word (m'.ram x)) j m'.ram)
                (added size (table_word (m.ram y)) j m.ram)
                (ap present entry ∙ child_present b.page)
                (ap (λ (z : ℕ). present (m.ram z)) at_y ∙ source)
                (ap (λ (w : ℕ). dropped 1024 w j m'.ram) word
                  ∙ gone
                  ∙ ap (λ (z : ℕ). added size (table_word (m.ram z)) j m.ram) (sym at_y))
          | inr absent ↦
              let empty = ap present (c.absent l small absent) ∙ can.empty l (omega arith) in
              no_terms (present (m'.ram x)) (present (m.ram y)) _ _
                (ap (λ (z : ℕ). present (m'.ram z)) at_x ∙ empty)
                (ap (λ (z : ℕ). present (m.ram z)) at_y ∙ absent)
        ])

  -- What is freed is what has been counted since.
  pub counted_back : (j : ℕ) → j < 3840 → count m' j ≡ count m j + tables_dropped n t j m'.ram
  counted_back j small = elim (Bool-cases (count m j == 0)) [
    | inl none ↦
        let unused : count m j ≡ 0 = ground arith in
        omega (arith, all_dropped j, c.fresh j small unused)
    | inr some ↦
        let used : count m j ≢ 0 = ground arith in
        omega (arith, all_dropped j, c.counts j small used, own_zero j used)
  ]

  undo-apart :
      (x y : ℕ)
      → t ≤ x
      → x < y
      → y < t + n
      → present (m'.ram x) ≡ true
      → present (m'.ram y) ≡ true
      → (table_word (m'.ram x) + 1024 ≤ table_word (m'.ram y))
        ⊎ (table_word (m'.ram y) + 1024 ≤ table_word (m'.ram x))
  undo-apart x y from before to there there' =
      let (l, small, source, b) = child x from (omega arith) there in
      let (l', small', source', b') = child y (omega arith) to there' in
      let (g, below_k, at, from_source) = copied_at y (omega arith) to there' in
      let nr = ap (λ e. map_nr (page_of e)) b.entry ∙ child_nr b.page (page-lt b) in
      let nr' = ap (λ e. map_nr (page_of e)) b'.entry ∙ child_nr b'.page (page-lt b') in
      let other : b.page ≢ b'.page = λ same.
        let two =
          own_pages-two k t b.page x y m'.ram from before (omega arith) there there' nr
            (nr' ∙ sym same) in
        omega (arith, c.single b.page (page-lt b), two) in
      let word = ap table_word b.entry ∙ child_word b.page (page-lt b) in
      let word' = ap table_word b'.entry ∙ child_word b'.page (page-lt b') in
      rw (word, word') (omega arith)

  undo-below :
      (x : ℕ)
      → t ≤ x
      → x < t + n
      → present (m'.ram x) ≡ true
      → (z : ℕ) → table_word (m'.ram x) ≤ z
      → z < table_word (m'.ram x) + 1024
      → releases (m'.ram z) ≡ true
      → page_of (m'.ram z) < m'.high_memory
  undo-below x from to there z low high releasing =
      let (l, small, source, b) = child x from to there in
      let word = ap table_word b.entry ∙ child_word b.page (page-lt b) in
      let at : page_word b.page + (z - page_word b.page) ≡ z = omega arith in
      let i = z - page_word b.page in
      let entry = rw at at (b.entries i (omega (arith, word))) in
      let table = can.tables l (omega arith) source in
      elim (Bool-cases (ltb i size)) [
        | inl shared ↦
            let old = m.ram (table_word (m.ram (d + l)) + i) in
            let copy : m'.ram z ≡ child_entry old 0 = entry ∙ rw shared refl in
            let old_below = table.below i (ground arith) in
            rw (copy, c.high)
              (child_page_lem old m.high_memory (can.words _) old_below (rw copy at releasing))
        | inr left ↦
            let none : m'.ram z ≡ 0 = entry ∙ rw left refl in
            rw none (omega (arith, c.high, can.managed.from))
      ]

  pub undo-IsFreeableDirectory : IsFreeableDirectory n t m'
  undo-IsFreeableDirectory = record {
    inside = omega (arith, can.directory);
    above = λ x from to there.
        let (l, small, source, b) = child x from to there in
        let word = ap table_word b.entry ∙ child_word b.page (page-lt b) in omega (arith, word);
    apart = undo-apart;
    below = undo-below;
    pages = λ x from to there.
        let (l, small, source, b) = child x from to there in
        let page = ap page_of b.entry ∙ child_page b.page (page-lt b) in
        let inside = b.inside in (omega (arith, page), omega (arith, page, c.high));
    enough = λ j small. part_le _ _ _ (counted_back j small);
  }
    where
      part_le : (a b x : ℕ) → a ≡ b + x → x ≤ a
      part_le a b x sum = omega arith
