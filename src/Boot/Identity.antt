-- ===== src/Boot/Identity.antt =====
-- The memory that kernel/head.S has mapped to itself, as copy_page_tables of mm/memory.c reads it.
use my_linux_kernel.Common.{
  ℕ, zero, suc, ◌+◌, ◌-◌, ◌*◌, ◌/◌, ◌≤◌, ◌<◌, ◌≡◌, ◌∙◌, refl, ap, ap₂, ◌==◌, ◌&&◌, ltb, leb, arith,
  inl, Bool, true, false, if◌then◌else◌, bit_and,
}
use my_linux_kernel.Common.Bits.{mask_fffff000, bit_and_low, bit_and_shift}
use my_linux_kernel.Mm.Run.{Ram, low_mem, Mm}
use my_linux_kernel.Mm.Pages.{map_nr}
use my_linux_kernel.Mm.Pages.Alloc.{count, IsManaged}
use my_linux_kernel.Mm.Tables.{present, read_only}
use my_linux_kernel.Mm.Tables.Share.{skipped, adds, added}
use my_linux_kernel.Mm.Tables.Alike.{read_only_lem, present_lem}
use my_linux_kernel.Mm.Tables.Copy.{
  IsTable, IsCopyable, table_word, tables_added, needed, is_spare, spare, how_many,
}

abbrev pub one_if : Bool → ℕ
one_if b = if b then 1 else 0

-- The entry for page `p` of the memory.
abbrev pub mapped : ℕ → ℕ
mapped p = p * 0x1000 + 7

mapped-present : (p : ℕ) → present (mapped p) ≡ true
mapped-present p =
    let odd : bit_and (mapped p) 1 ≡ 1 = present_lem (mapped p) ∙ omega arith in rw odd refl

mapped-skipped : (p : ℕ) → skipped (mapped p) ≡ false
mapped-skipped p =
    let some : (mapped p == 0) ≡ false = ground arith in rw (some, mapped-present p) refl

mapped-read_only : (p : ℕ) → p < 4096 → read_only (mapped p) ≡ p * 0x1000 + 5
mapped-read_only p small = read_only_lem (mapped p) (omega arith) ∙ omega arith

mapped-adds : (p j : ℕ) → p < 4096 → adds j (mapped p) ≡ one_if (p == j + 256)
mapped-adds p j small = rw (mapped-skipped p, mapped-read_only p small) (numbers p j small)
  where
    numbers :
        (p j : ℕ)
        → p < 4096
        → one_if (ltb low_mem (p * 0x1000 + 5) && map_nr (p * 0x1000 + 5) == j)
          ≡ one_if (p == j + 256)
    numbers p j small = ground arith

mapped-added :
    (n w b j : ℕ) (r : Ram)
    → b + n ≤ 4096
    → ((x : ℕ) → w ≤ x → x < w + n → r x ≡ mapped (b + (x - w)))
    → added n w j r ≡ one_if (leb b (j + 256) && ltb (j + 256) (b + n))
mapped-added zero w b j r fits entry = ground arith
mapped-added (suc n) w b j r fits entry =
    let here = entry w (omega arith) (omega arith) in
    let back : b + (w - w) ≡ b = omega arith in
    let rest = mapped-added n (w + 1) (b + 1) j r (omega arith) (λ x from to.
      let shift : b + 1 + (x - (w + 1)) ≡ b + (x - w) = omega arith in
      rw shift (entry x (omega arith) (omega arith))) in
    rw (here, back, mapped-adds b j (omega arith), rest) (sums n b j)
  where
    sums :
        (n b j : ℕ)
        → one_if (b == j + 256) + one_if (leb (b + 1) (j + 256) && ltb (j + 256) (b + 1 + n))
          ≡ one_if (leb b (j + 256) && ltb (j + 256) (b + suc n))
    sums n b j = ground arith

how_many-last :
    (p : ℕ → Bool) (n : ℕ)
    → ((j : ℕ) → n ≤ j → j < 5 + n → p j ≡ true)
    → 4 < how_many p (suc (suc (suc (suc (suc n)))))
unfolding how_many
how_many-last p n last =
    let at_0 = last n (omega arith) (omega arith) in
    let at_1 = last (suc n) (omega arith) (omega arith) in
    let at_2 = last (suc (suc n)) (omega arith) (omega arith) in
    let at_3 = last (suc (suc (suc n))) (omega arith) (omega arith) in
    let at_4 = last (suc (suc (suc (suc n)))) (omega arith) (omega arith) in
    rw (at_4, at_3, at_2, at_1, at_0) (omega arith)

module _ (m : Mm) (v : IsManaged m) (top : m.high_memory ≡ 0x1000000)
    (counts : (j : ℕ) → j < 3840 → count m j ≡ (if ltb j 768 then 100 else 0))
    (dirs : (k : ℕ) → k < 4 → m.ram k ≡ mapped (k + 1))
    (empty : (k : ℕ) → 4 ≤ k → k < 1024 → m.ram k ≡ 0)
    (entries : (x : ℕ) → 1024 ≤ x → x < 5120 → m.ram x ≡ mapped (x - 1024))
    (words : (x : ℕ) → m.ram x < 4294967296) where
  dir_word : (k : ℕ) → k < 4 → table_word (m.ram k) ≡ 1024 * (k + 1)
  dir_word k small =
      let e = mapped (k + 1) in
      let at = ap table_word (dirs k small) in
      omega (arith, at, bit_and_shift 8 e 0xfffff, bit_and_low 20 (e / 256) 0xfffff refl)

  -- Each of the four tables leads once to each of its first 160 pages.
  table_leads : ℕ → ℕ → ℕ
  table_leads k j = one_if (leb (1024 * k) (j + 256) && ltb (j + 256) (1024 * k + 160))

  table_added : (k j : ℕ) → k < 4 → added 160 (1024 * (k + 1)) j m.ram ≡ table_leads k j
  unfolding table_leads
  table_added k j small =
      mapped-added 160 (1024 * (k + 1)) (1024 * k) j m.ram (omega arith) (λ x from to.
        let at : x - 1024 ≡ 1024 * k + (x - 1024 * (k + 1)) = omega arith in
        entries x (omega arith) (omega arith) ∙ ap mapped at)

  term :
      (k j : ℕ)
      → k < 4
      → (if present (m.ram k) then added 160 (table_word (m.ram k)) j m.ram else 0)
        ≡ table_leads k j
  term k j small =
      let there = ap present (dirs k small) ∙ mapped-present (k + 1) in
      rw (there, dir_word k small) (table_added k j small)

  all_added :
      (j : ℕ)
      → tables_added 160 4 0 j m.ram
        ≡ table_leads 0 j + (table_leads 1 j + (table_leads 2 j + (table_leads 3 j + 0)))
  all_added j = ap₂ ◌+◌ (term 0 j (omega arith)) (
      ap₂ ◌+◌ (term 1 j (omega arith))
        (ap₂ ◌+◌ (term 2 j (omega arith)) (ap₂ ◌+◌ (term 3 j (omega arith)) refl)))

  added_lem : (j : ℕ) → j < 3840 → tables_added 160 4 0 j m.ram ≤ 1
  unfolding table_leads
  added_lem j small = rw (all_added j) (once j)
    where
      once :
          (j : ℕ)
          → table_leads 0 j + (table_leads 1 j + (table_leads 2 j + (table_leads 3 j + 0))) ≤ 1
      once j = ground arith

  added-last : (j : ℕ) → 3835 ≤ j → j < 3840 → tables_added 160 4 0 j m.ram ≡ 0
  unfolding table_leads
  added-last j from small = rw (all_added j) (none j from)
    where
      none :
          (j : ℕ)
          → 3835 ≤ j
          → table_leads 0 j + (table_leads 1 j + (table_leads 2 j + (table_leads 3 j + 0))) ≡ 0
      none j from = ground arith

  identity-IsTable : (k : ℕ) → k < 4 → IsTable 160 (table_word (m.ram k)) m
  identity-IsTable k small = rw (dir_word k small) (record {
    above = omega arith;
    not_free = λ i in_map free. inl (omega arith);
    below = λ j in_table is_counted.
        let at = entries (1024 * (k + 1) + j) (omega arith) (omega arith) in
        let page = mask_fffff000 (mapped (1024 * (k + 1) + j - 1024)) (omega arith) in
        rw (at, page, top) (omega arith);
  })

  -- Its four tables can be copied.
  pub identity-IsCopyable : (t : ℕ) → 4 ≤ t → t + 4 ≤ 1024 → IsCopyable 160 4 0 t m
  identity-IsCopyable t from to = record {
    managed = v;
    words = words;
    directory = (omega arith, to);
    apart = inl from;
    empty = λ k small. let none = empty (t + k) (omega arith) (omega arith) in rw none refl;
    tables = λ k small there. let at : 0 + k ≡ k = omega arith in rw at (identity-IsTable k small);
    room = λ j small in_use. let c = counts j small in let a = added_lem j small in sum _ _ j c a;
    fresh_room = λ j small free. less _ (added_lem j small);
  }
    where
      sum : (c a j : ℕ) → c ≡ (if ltb j 768 then 100 else 0) → a ≤ 1 → c + a ≤ 255
      sum c a j at few = ground arith

      less : (a : ℕ) → a ≤ 1 → a ≤ 254
      less a few = omega arith

  pub identity_needed : needed 4 0 m.ram ≡ 4
  unfolding needed
  identity_needed =
      let at : (k : ℕ) → k < 4 → present (m.ram k) ≡ true =
        λ k small. ap present (dirs k small) ∙ mapped-present (k + 1) in
      rw (at 0 (omega arith), at 1 (omega arith), at 2 (omega arith), at 3 (omega arith)) refl

  last_spare : (j : ℕ) → 3835 ≤ j → j < 3840 → is_spare 160 4 0 m j ≡ true
  last_spare j from small =
      let unused : count m j ≡ 0 = free_at _ j from (counts j small) in
      let none : (tables_added 160 4 0 j m.ram == 0) ≡ true = zero_at _ (added-last j from small) in
      rw (unused, none) refl
    where
      free_at : (c j : ℕ) → 3835 ≤ j → c ≡ (if ltb j 768 then 100 else 0) → c ≡ 0
      free_at c j from at = ground arith

      zero_at : (a : ℕ) → a ≡ 0 → (a == 0) ≡ true
      zero_at a at = rw at refl

  -- More pages are to spare than there are tables.
  pub identity_spare : 4 < spare 160 4 0 m
  identity_spare = how_many-last (is_spare 160 4 0 m) 3835 last_spare
