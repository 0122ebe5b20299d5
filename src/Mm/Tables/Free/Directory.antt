-- ===== src/Mm/Tables/Free/Directory.antt =====
-- free_page_tables of mm/memory.c: its loop over the page directory.
use my_linux_kernel.Common.{
  ℕ, zero, suc, ◌+◌, ◌≤◌, ◌<◌, ◌==◌, ◌&&◌, ◌||◌, ◌≡◌, ◌⊎◌, inl, inr, refl, ap₂, Bool, ltb, leb,
  true, false, Bool-cases, arith, if◌then◌else◌,
}
use my_linux_kernel.Mm.Run.{Ram, Mm}
use my_linux_kernel.Mm.Pages.{map_nr}
use my_linux_kernel.Mm.Pages.Alloc.{count, IsManaged}
use my_linux_kernel.Mm.Pages.Free.{Managed}
use my_linux_kernel.Mm.Tables.{present, page_of}
use my_linux_kernel.Mm.Tables.Free.{releases, drops, dropped, dropped-eq}
use my_linux_kernel.Mm.Tables.Copy.{table_word}

-- How often `n` entries of the directory from word `d` on lead to page `j`, as the page of a table or
-- through one.
abbrev pub table_drops : ℕ → ℕ → Ram → ℕ
table_drops entry j r =
    dropped 1024 (table_word entry) j r + (if map_nr (page_of entry) == j then 1 else 0)

abbrev pub tables_dropped : ℕ → ℕ → ℕ → Ram → ℕ
tables_dropped zero d j r = 0
tables_dropped (suc n) d j r =
    (if present (r d) then table_drops (r d) j r else 0) + tables_dropped n (d + 1) j r

-- Word `k` is one of those entries, or in a table that one of them leads to.
abbrev pub emptied : ℕ → ℕ → ℕ → Ram → Bool
emptied zero d k r = false
emptied (suc n) d k r =
    (present (r d) && ((d == k) || (leb (table_word (r d)) k && ltb k (table_word (r d) + 1024))))
    || emptied n (d + 1) k r

-- Tables that can be freed: `n` entries of the directory from word `d` on lead to tables outside the
-- directory and apart from each other, in managed pages; the tables' pages are below HIGH_MEMORY; and
-- every page is counted at least as often as the entries and their tables lead to it.
pub record IsFreeableDirectory (n d : ℕ) (m : Mm) : Type 0 where
  pub inside : d + n ≤ 1024
  pub above : (x : ℕ) → d ≤ x → x < d + n → present (m.ram x) ≡ true → 1024 ≤ table_word (m.ram x)
  pub apart :
      (x y : ℕ)
      → d ≤ x
      → x < y
      → y < d + n
      → present (m.ram x) ≡ true
      → present (m.ram y) ≡ true
      → (table_word (m.ram x) + 1024 ≤ table_word (m.ram y))
        ⊎ (table_word (m.ram y) + 1024 ≤ table_word (m.ram x))
  pub below :
      (x : ℕ)
      → d ≤ x
      → x < d + n
      → present (m.ram x) ≡ true
      → (k : ℕ) → table_word (m.ram x) ≤ k
      → k < table_word (m.ram x) + 1024
      → releases (m.ram k) ≡ true
      → page_of (m.ram k) < m.high_memory
  pub pages : (x : ℕ) → d ≤ x → x < d + n → present (m.ram x) ≡ true → Managed m (page_of (m.ram x))
  pub enough : (j : ℕ) → j < 3840 → tables_dropped n d j m.ram ≤ count m j

-- What the loop leaves: the entries and their tables are empty, every other word is as it was, and
-- each page is counted once less for each way that led to it.
pub record FreedDirectory (n d : ℕ) (m m' : Mm) : Type 0 where
  pub managed : IsManaged m'
  pub high : m'.high_memory ≡ m.high_memory
  pub words : (k : ℕ) → m'.ram k ≡ (if emptied n d k m.ram then 0 else m.ram k)
  pub counts : (j : ℕ) → j < 3840 → count m' j + tables_dropped n d j m.ram ≡ count m j

-- What is said of the entries does not depend on other words than those of the entries and of the
-- tables that they lead to.
module _ (r r' : Ram) where
  pub tables_dropped-eq :
      (n d j : ℕ)
      → ((x : ℕ) → d ≤ x → x < d + n → r' x ≡ r x)
      → ((x : ℕ)
          → d ≤ x
          → x < d + n
          → present (r x) ≡ true
          → (k : ℕ) → table_word (r x) ≤ k
          → k < table_word (r x) + 1024
          → r' k ≡ r k)
      → tables_dropped n d j r' ≡ tables_dropped n d j r
  tables_dropped-eq zero d j dirs same = refl
  tables_dropped-eq (suc n) d j dirs same =
      ap₂ ◌+◌
        (rw (dirs d (omega arith) (omega arith)) (elim (Bool-cases (present (r d))) [
          | inl p ↦
              rw
                (
                  p,
                  dropped-eq 1024 (table_word (r d)) j r r' (same d (omega arith) (omega arith) p),
                )
                refl
          | inr p ↦ rw p refl
        ]))
        (tables_dropped-eq n (d + 1) j (λ x a b. dirs x (omega arith) (omega arith))
          (λ x a b. same x (omega arith) (omega arith)))

  pub emptied-eq :
      (n d k : ℕ) → ((x : ℕ) → d ≤ x → x < d + n → r' x ≡ r x) → emptied n d k r' ≡ emptied n d k r
  emptied-eq zero d k dirs = refl
  emptied-eq (suc n) d k dirs =
      rw
        (
          dirs d (omega arith) (omega arith),
          emptied-eq n (d + 1) k (λ x a b. dirs x (omega arith) (omega arith)),
        )
        refl

-- A table in two parts, and one that is empty.
pub dropped_append :
    (a b w j : ℕ) (r : Ram) → dropped (a + b) w j r ≡ dropped a w j r + dropped b (w + a) j r
dropped_append zero b w j r =
    let none : 0 + b ≡ b = omega arith in
    let here : w + 0 ≡ w = omega arith in rw (none, here) (omega arith)
dropped_append (suc a) b w j r =
    let one : suc a + b ≡ suc (a + b) = omega arith in
    let next : w + 1 + a ≡ w + suc a = omega arith in
    let rest = rw next at (dropped_append a b (w + 1) j r) in
    rw one (sums (drops j (r w)) _ _ _ rest)
  where
    sums : (d x y z : ℕ) → x ≡ y + z → d + x ≡ d + y + z
    sums d x y z e = omega arith

pub dropped_empty :
    (n w j : ℕ) (r : Ram) → ((k : ℕ) → w ≤ k → k < w + n → r k ≡ 0) → dropped n w j r ≡ 0
dropped_empty zero w j r empty = refl
dropped_empty (suc n) w j r empty =
    let here = empty w (omega arith) (omega arith) in
    let rest = dropped_empty n (w + 1) j r (λ k a b. empty k (omega arith) (omega arith)) in
    rw (here, rest) refl

-- Which words are emptied.
pub emptied-outside :
    (n t x : ℕ) (r : Ram)
    → (x < t) ⊎ (t + n ≤ x)
    → ((y : ℕ)
        → t ≤ y
        → y < t + n
        → present (r y) ≡ true
        → (x < table_word (r y)) ⊎ (table_word (r y) + 1024 ≤ x))
    → emptied n t x r ≡ false
emptied-outside zero t x r out far = refl
emptied-outside (suc n) t x r out far =
    let rest =
      emptied-outside n (t + 1) x r (omega arith)
        (λ y from to. far y (omega arith) (omega arith)) in
    elim (Bool-cases (present (r t))) [
      | inl there ↦
          let apart = far t (omega arith) (omega arith) there in
          let here : (t == x) ≡ false = ground arith in
          let inside : leb (table_word (r t)) x && ltb x (table_word (r t) + 1024) ≡ false =
            ground arith in
          rw (there, here, inside, rest) refl
      | inr absent ↦ rw (absent, rest) refl
    ]

or_true : (b : Bool) → (b || true) ≡ true
or_true b = ground arith

pub emptied-inside :
    (n t x : ℕ) (r : Ram) → t ≤ x → x < t + n → present (r x) ≡ true → emptied n t x r ≡ true
emptied-inside zero t x r from to there = absurd (omega arith)
emptied-inside (suc n) t x r from to there = elim (Bool-cases (t == x)) [
  | inl here ↦
      let at : x ≡ t = ground arith in
      let this : (t == t) ≡ true = ground arith in
      let first = rw at at there in rw (at, first, this) refl
  | inr later ↦
      let rest = emptied-inside n (t + 1) x r (ground arith) (omega arith) there in
      rw rest (or_true _)
]
