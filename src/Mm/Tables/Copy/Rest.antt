-- ===== src/Mm/Tables/Copy/Rest.antt =====
-- copy_page_tables of mm/memory.c: what one round of its loop leaves to the others.
use my_linux_kernel.Common.{
  ℕ, zero, suc, ◌+◌, ◌-◌, ◌*◌, ◌≤◌, ◌<◌, ◌≡◌, ◌≢◌, inl, inr, refl, sym, ◌∙◌, ◌==◌, ◌&&◌, true,
  false, arith, Bool-cases, if◌then◌else◌,
}
use my_linux_kernel.Mm.Run.{low_mem, Ram, Mm}
use my_linux_kernel.Mm.Pages.Alloc.{count, in_page}
use my_linux_kernel.Mm.Tables.{present}
use my_linux_kernel.Mm.Tables.Share.{added}
use my_linux_kernel.Mm.Tables.Alike.{IsAlike}
use my_linux_kernel.Mm.Tables.Copy.{
  IsTable, IsCopyable, table_word, tables_added, tables_added-alike, needed, needed-eq, is_spare,
  spare,
}
use my_linux_kernel.Mm.Tables.Copy.Spare.{how_many-le, how_many-step}
use my_linux_kernel.Mm.Tables.Copy.Step.{IsTaken, Stepped}

pub next : (a k : ℕ) → a + suc k ≡ a + 1 + k
next a k = omega arith

pub plus_zero : (a : ℕ) → a + 0 ≡ a
plus_zero a = omega arith

pub both_zero : (a b : ℕ) → (a == 0 && b == 0) ≡ true → (a ≡ 0) × (b ≡ 0)
both_zero a b both = ground arith

pub zeros : (a b : ℕ) → a ≡ 0 → b ≡ 0 → (a == 0 && b == 0) ≡ true
zeros a b none none' = ground arith

-- The first `k` of the entries.
added_prefix :
    (size k n d j : ℕ) (r : Ram) → k ≤ n → tables_added size k d j r ≤ tables_added size n d j r
added_prefix size zero n d j r less = omega arith
added_prefix size (suc k) zero d j r less = absurd (omega arith)
added_prefix size (suc k) (suc n) d j r less =
    let later = added_prefix size k n (d + 1) j r (omega arith) in
    sums (if present (r d) then added size (table_word (r d)) j r else 0) _ _ later
  where
    sums : (a b c : ℕ) → b ≤ c → a + b ≤ a + c
    sums a b c less = omega arith

pub prefix-IsCopyable :
    {size n d t : ℕ} {m : Mm} (k : ℕ) → k ≤ n → IsCopyable size n d t m → IsCopyable size k d t m
prefix-IsCopyable {size} {n} {d} {t} {m} k less can = record {
  managed = can.managed;
  words = can.words;
  directory = (omega (arith, can.directory), omega (arith, can.directory));
  apart = omega (arith, can.apart);
  empty = λ j small. can.empty j (omega arith);
  tables = λ j small. can.tables j (omega arith);
  room = λ j small used. omega (arith, added_prefix size k n d j m.ram less, can.room j small used);
  fresh_room = λ j small none.
      omega (arith, added_prefix size k n d j m.ram less, can.fresh_room j small none);
}

module _ {size n d t : ℕ} {m : Mm} (can : IsCopyable size (suc n) d t m) where
  pub target_absent : present (m.ram t) ≡ false
  target_absent = rw (plus_zero t) at (can.empty 0 (omega arith))

  pub first-IsTable : present (m.ram d) ≡ true → IsTable size (table_word (m.ram d)) m
  first-IsTable p = rw (plus_zero d) at (can.tables 0 (omega arith) (rw (plus_zero d) p))

  pub none_added :
      (j : ℕ)
      → present (m.ram d) ≡ false
      → tables_added size (suc n) d j m.ram ≡ tables_added size n (d + 1) j m.ram
  none_added j absent = rw absent (omega arith)

  -- An entry that is not present.
  pub skip-IsCopyable : present (m.ram d) ≡ false → IsCopyable size n (d + 1) (t + 1) m
  skip-IsCopyable absent = record {
    managed = can.managed;
    words = can.words;
    directory = (omega (arith, can.directory), omega (arith, can.directory));
    apart = omega (arith, can.apart);
    empty = λ k small. rw (next t k) at (can.empty (suc k) (omega arith));
    tables = λ k small. rw (next d k) at (can.tables (suc k) (omega arith));
    room = λ j small used. omega (arith, none_added j absent, can.room j small used);
    fresh_room = λ j small free. omega (arith, none_added j absent, can.fresh_room j small free);
  }

  pub skip_spare : present (m.ram d) ≡ false → spare size (suc n) d m ≤ spare size n (d + 1) m
  skip_spare absent =
      how_many-le (is_spare size (suc n) d m) (is_spare size n (d + 1) m) 3840 (λ j small is_free.
        let (none, apart) = both_zero (count m j) (tables_added size (suc n) d j m.ram) is_free in
        zeros (count m j) (tables_added size n (d + 1) j m.ram) none
          (omega (arith, none_added j absent)))

  module _ (there : present (m.ram d) ≡ true) where
    pub all_added :
        (j : ℕ)
        → tables_added size (suc n) d j m.ram
          ≡ added size (table_word (m.ram d)) j m.ram + tables_added size n (d + 1) j m.ram
    all_added j = rw there refl

    pub first-IsTaken :
        {i : ℕ} {cleared : Ram}
        → size ≤ 1024
        → i * 4096 + low_mem < m.high_memory
        → count m i ≡ 0
        → ((x : ℕ) → cleared x ≡ (if in_page i x then 0 else m.ram x))
        → IsTaken size (table_word (m.ram d)) t i cleared m
    first-IsTaken fits is_page free is_cleared = record {
      managed = can.managed;
      all_words = can.words;
      in_directory = omega (arith, can.directory);
      fits = fits;
      table = first-IsTable there;
      is_page = is_page;
      free = free;
      is_cleared = is_cleared;
      room = λ j small used. omega (arith, all_added j, can.room j small used);
      fresh_room = λ j small none. omega (arith, all_added j, can.fresh_room j small none);
    }

    module _ {i : ℕ} {m₁ : Mm} (fits : size ≤ 1024) (is_page : i < 3840) (free : count m i ≡ 0)
        (s : Stepped size (table_word (m.ram d)) t i m m₁) where
      pub stepped_taken : (j : ℕ) → j < 3840 → count m₁ j ≡ 0 → count m j ≡ 0
      stepped_taken j small none = elim (Bool-cases (j == i)) [
        | inl same ↦ let at : j ≡ i = ground arith in rw at free
        | inr other ↦ omega (arith, s.counts j small (ground arith))
      ]

      pub later_dir : (k : ℕ) → k < n → m₁.ram (d + 1 + k) ≡ m.ram (d + 1 + k)
      later_dir k small =
          s.directory (d + 1 + k) (omega (arith, can.directory)) (omega (arith, can.apart))

      pub table_outside :
          {w : ℕ} → IsTable size w m → (k : ℕ) → k < 1024 → in_page i (w + k) ≡ false
      table_outside {w} table k small = ground (arith, table.not_free i is_page free)

      pub table-IsAlike :
          {w : ℕ} → IsTable size w m → (k : ℕ) → k < 1024 → IsAlike (m.ram (w + k)) (m₁.ram (w + k))
      table-IsAlike {w} table k small =
          s.alike (w + k) (omega (arith, table.above)) (table_outside table k small)

      kept-IsTable : {w : ℕ} → IsTable size w m → IsTable size w m₁
      kept-IsTable {w} table = record {
        above = table.above;
        not_free = λ j small none. table.not_free j small (stepped_taken j small none);
        below = λ k small is_counted.
            let same = table-IsAlike table k (omega arith) in
            rw (s.high, same.same_page) (table.below k small (sym same.same_counted ∙ is_counted));
      }

      pub later-IsTable :
          (k : ℕ)
          → k < n
          → present (m.ram (d + 1 + k)) ≡ true
          → IsTable size (table_word (m.ram (d + 1 + k))) m
      later-IsTable k small = rw (next d k) at (can.tables (suc k) (omega arith))

      later-IsTable_at :
          (x : ℕ)
          → d + 1 ≤ x
          → x < d + 1 + n
          → present (m.ram x) ≡ true
          → IsTable size (table_word (m.ram x)) m
      later-IsTable_at x from to is_present =
          let at : d + 1 + (x - (d + 1)) ≡ x = omega arith in
          rw at at (later-IsTable (x - (d + 1)) (omega arith) (rw at is_present))

      IsAlike-from :
          {w : ℕ} → IsTable size w m → (k : ℕ) → w ≤ k → k < w + 1024 → IsAlike (m.ram k) (m₁.ram k)
      IsAlike-from {w} table k low high =
          let at : w + (k - w) ≡ k = omega arith in
          rw at at (table-IsAlike table (k - w) (omega arith))

      pub later_added :
          (j : ℕ) → tables_added size n (d + 1) j m₁.ram ≡ tables_added size n (d + 1) j m.ram
      later_added j =
          tables_added-alike size n (d + 1) j m.ram m₁.ram
            (λ x from to. s.directory x (omega (arith, can.directory)) (omega (arith, can.apart)))
            (λ x from to is_present k low high.
              IsAlike-from (later-IsTable_at x from to is_present) k low (omega arith))

      pub later_needed : needed n (d + 1) m₁.ram ≡ needed n (d + 1) m.ram
      later_needed =
          needed-eq n (d + 1) m.ram m₁.ram
            (λ x from to. s.directory x (omega (arith, can.directory)) (omega (arith, can.apart)))

      still_spare :
          (j : ℕ)
          → j < 3840
          → j ≢ i
          → is_spare size (suc n) d m j ≡ true
          → is_spare size n (d + 1) m₁ j ≡ true
      still_spare j small other is_free =
          let (none, apart) = both_zero (count m j) (tables_added size (suc n) d j m.ram) is_free in
          zeros (count m₁ j) (tables_added size n (d + 1) j m₁.ram)
            (omega (arith, s.counts j small other, all_added j))
            (omega (arith, later_added j, all_added j))

      pub one_less : spare size (suc n) d m ≤ suc (spare size n (d + 1) m₁)
      one_less =
          how_many-step (is_spare size (suc n) d m) (is_spare size n (d + 1) m₁) 3840 i still_spare

      pub rest-IsCopyable : IsCopyable size n (d + 1) (t + 1) m₁
      rest-IsCopyable = record {
        managed = s.managed;
        words = s.words;
        directory = (omega (arith, can.directory), omega (arith, can.directory));
        apart = omega (arith, can.apart);
        empty = λ k small.
            let same = s.directory (t + 1 + k) (omega (arith, can.directory)) (omega arith) in
            rw same (rw (next t k) at (can.empty (suc k) (omega arith)));
        tables = λ k small is_present.
            rw (later_dir k small)
              (kept-IsTable (later-IsTable k small (rw (later_dir k small) at is_present)));
        room = λ j small used. elim (Bool-cases (j == i)) [
          | inl same ↦
              let at : j ≡ i = ground arith in
              let own : count m₁ j ≡ 1 + added size (table_word (m.ram d)) j m.ram = rw at s.own in
              let was_free : count m j ≡ 0 = rw at free in
              omega (arith, later_added j, all_added j, can.fresh_room j small was_free, own)
          | inr other ↦
              let new = s.counts j small (ground arith) in
              elim (Bool-cases (count m j == 0)) [
                | inl none ↦
                    let was_free : count m j ≡ 0 = ground arith in
                    omega (arith, later_added j, all_added j, new, can.fresh_room j small was_free)
                | inr some ↦
                    let was_used : count m j ≢ 0 = ground arith in
                    omega (arith, later_added j, all_added j, new, can.room j small was_used)
              ]
        ];
        fresh_room = λ j small none.
            let before = stepped_taken j small none in
            omega (arith, later_added j, all_added j, can.fresh_room j small before);
      }
