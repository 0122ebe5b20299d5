-- ===== src/Mm/Tables/Copy.antt =====
-- copy_page_tables of mm/memory.c: what its loop over the page directory works on, and what it leaves.
pub mod Spare
pub mod Step
pub mod Rest
pub mod Own
pub mod Skip
pub mod Loop
pub mod Total
pub mod Sums
pub mod Undo
pub mod Back
pub mod Inverse
pub mod Page
pub mod Tests
use my_linux_kernel.Common.{
  ℕ, zero, suc, ◌+◌, ◌*◌, ◌/◌, ◌≤◌, ◌<◌, ◌==◌, ◌&&◌, ◌≡◌, ◌≢◌, ◌⊎◌, refl, ap, ap₂, ◌∙◌, Bool, true,
  false, ltb, arith, Bool-cases, inl, inr, if◌then◌else◌,
}
use my_linux_kernel.Common.Int.{ℤ, pos, negsuc}
use my_linux_kernel.Mm.Run.{low_mem, Ram, Mm, Run, done}
use my_linux_kernel.Mm.Pages.{map_nr}
use my_linux_kernel.Mm.Pages.Alloc.{count, IsManaged, in_page}
use my_linux_kernel.Mm.Tables.{present, page_of, table_of}
use my_linux_kernel.Mm.Tables.Share.{counted, child_entry, adds, added}
use my_linux_kernel.Mm.Tables.Alike.{IsAlike}

-- The number of the first word of the table that an entry of the page directory leads to.
abbrev pub table_word : ℕ → ℕ
table_word entry = table_of entry / 4

-- The number of the first word of page `i`.
abbrev pub page_word : ℕ → ℕ
page_word i = low_mem / 4 + i * 1024

-- A table at word `w` whose first `size` entries can be shared: it stands neither in the page
-- directory nor in a free page, and its pages are below HIGH_MEMORY.
pub record IsTable (size w : ℕ) (m : Mm) : Type 0 where
  pub above : 1024 ≤ w
  pub not_free :
      (i : ℕ) → i < 3840 → count m i ≡ 0 → (w + 1024 ≤ page_word i) ⊎ (page_word i + 1024 ≤ w)
  pub below :
      (k : ℕ) → k < size → counted (m.ram (w + k)) ≡ true → page_of (m.ram (w + k)) < m.high_memory

-- The entries that lead to page `j` in the tables of `n` entries of the directory from word `d` on.
abbrev pub tables_added : ℕ → ℕ → ℕ → ℕ → Ram → ℕ
tables_added size zero d j r = 0
tables_added size (suc n) d j r =
    (if present (r d) then added size (table_word (r d)) j r else 0)
    + tables_added size n (d + 1) j r

-- How many of `n` entries of the directory from word `d` on are present.
unfoldable pub needed : ℕ → ℕ → Ram → ℕ
needed zero d r = 0
needed (suc n) d r = (if present (r d) then 1 else 0) + needed n (d + 1) r

-- How many of the pages are free, and not led to by a table that is copied.
unfoldable pub how_many : (ℕ → Bool) → ℕ → ℕ
how_many p zero = 0
how_many p (suc n) = (if p n then 1 else 0) + how_many p n

abbrev pub is_spare : ℕ → ℕ → ℕ → Mm → ℕ → Bool
is_spare size n d m j = count m j == 0 && tables_added size n d j m.ram == 0

abbrev pub spare : ℕ → ℕ → ℕ → Mm → ℕ
spare size n d m = how_many (is_spare size n d m) 3840

-- Memory of which `n` entries of the directory can be copied from word `d` to word `t`: the target's
-- are empty, the source's lead to tables, and no count goes beyond an unsigned char, nor does that of a
-- free page that is taken for a table.
pub record IsCopyable (size n d t : ℕ) (m : Mm) : Type 0 where
  pub managed : IsManaged m
  pub words : (x : ℕ) → m.ram x < 4294967296
  pub directory : (d + n ≤ 1024) × (t + n ≤ 1024)
  pub apart : (d + n ≤ t) ⊎ (t + n ≤ d)
  pub empty : (k : ℕ) → k < n → present (m.ram (t + k)) ≡ false
  pub tables :
      (k : ℕ) → k < n → present (m.ram (d + k)) ≡ true → IsTable size (table_word (m.ram (d + k))) m
  pub room : (j : ℕ) → j < 3840 → count m j ≢ 0 → count m j + tables_added size n d j m.ram ≤ 255
  pub fresh_room : (j : ℕ) → j < 3840 → count m j ≡ 0 → tables_added size n d j m.ram ≤ 254

-- The directory's entry at word `p` leads to a table of the child's own, in a page that was free: it
-- shares the first `size` entries of the table at word `w`, and has no others.
pub record IsChildTable (size w p : ℕ) (m m' : Mm) : Type 0 where
  pub page : ℕ
  pub was_free : count m page ≡ 0
  pub inside : page * 4096 + low_mem < m.high_memory
  pub entry : m'.ram p ≡ page * 4096 + low_mem + 7
  pub entries :
      (k : ℕ)
      → k < 1024
      → m'.ram (page_word page + k) ≡ (if ltb k size then child_entry (m.ram (w + k)) 0 else 0)

-- How many of `n` entries of the directory from word `t` on lead to a table in page `j`.
abbrev pub own_pages : ℕ → ℕ → ℕ → Ram → ℕ
own_pages zero t j r = 0
own_pages (suc n) t j r =
    (if present (r t) then (if map_nr (page_of (r t)) == j then 1 else 0) else 0)
    + own_pages n (t + 1) j r

-- What the loop leaves where it ends with 0.
pub record Copied (size n d t : ℕ) (m m' : Mm) : Type 0 where
  pub managed : IsManaged m'
  pub high : m'.high_memory ≡ m.high_memory
  pub directory : (x : ℕ) → x < 1024 → (x < t) ⊎ (t + n ≤ x) → m'.ram x ≡ m.ram x
  pub alike :
      (x : ℕ)
      → 1024 ≤ x
      → ((i : ℕ) → i < 3840 → count m i ≡ 0 → in_page i x ≡ false)
      → IsAlike (m.ram x) (m'.ram x)
  pub taken : (i : ℕ) → i < 3840 → count m' i ≡ 0 → count m i ≡ 0
  pub counts :
      (j : ℕ) → j < 3840 → count m j ≢ 0 → count m' j ≡ count m j + tables_added size n d j m.ram
  pub fresh :
      (j : ℕ)
      → j < 3840
      → count m j ≡ 0
      → count m' j ≡ own_pages n t j m'.ram + tables_added size n d j m.ram
  pub single : (j : ℕ) → j < 3840 → own_pages n t j m'.ram ≤ 1
  pub absent : (k : ℕ) → k < n → present (m.ram (d + k)) ≡ false → m'.ram (t + k) ≡ m.ram (t + k)
  pub children :
      (k : ℕ)
      → k < n
      → present (m.ram (d + k)) ≡ true
      → IsChildTable size (table_word (m.ram (d + k))) (t + k) m m'

-- The loop ends: with -1 where fewer pages are to spare than entries are present, with all pages in use
-- and the first `k` entries copied, or with 0.
pub data Copies (size n d t : ℕ) (m : Mm) (r : Run ℤ) : Type 0 where
  out_of_memory :
      (k : ℕ) (m' : Mm)
      → r ≡ done (negsuc 0) m'
      → k < n
      → Copied size k d t m m'
      → ((j : ℕ) → j < 3840 → count m' j ≢ 0)
      → spare size n d m < needed n d m.ram
      → Copies size n d t m r
  copied : (m' : Mm) → r ≡ done (pos 0) m' → Copied size n d t m m' → Copies size n d t m r

-- Tables whose entries are alike are counted alike.
pub added-alike :
    (size w j : ℕ) (r r' : Ram)
    → ((k : ℕ) → w ≤ k → k < w + size → IsAlike (r k) (r' k))
    → added size w j r' ≡ added size w j r
added-alike zero w j r r' same = refl
added-alike (suc size) w j r r' same =
    let here = same w (omega arith) (omega arith) in
    ap₂ ◌+◌ (here.same_adds j)
      (added-alike size (w + 1) j r r' (λ k a b. same k (omega arith) (omega arith)))

pub tables_added-alike :
    (size n d j : ℕ) (r r' : Ram)
    → ((x : ℕ) → d ≤ x → x < d + n → r' x ≡ r x)
    → ((x : ℕ)
        → d ≤ x
        → x < d + n
        → present (r x) ≡ true
        → (k : ℕ) → table_word (r x) ≤ k
        → k < table_word (r x) + size
        → IsAlike (r k) (r' k))
    → tables_added size n d j r' ≡ tables_added size n d j r
tables_added-alike size zero d j r r' dirs same = refl
tables_added-alike size (suc n) d j r r' dirs same =
    ap₂ ◌+◌
      (rw (dirs d (omega arith) (omega arith)) (elim (Bool-cases (present (r d))) [
        | inl p ↦
            rw p (added-alike size (table_word (r d)) j r r' (same d (omega arith) (omega arith) p))
        | inr p ↦ rw p refl
      ]))
      (tables_added-alike size n (d + 1) j r r' (λ x a b. dirs x (omega arith) (omega arith))
        (λ x a b. same x (omega arith) (omega arith)))

pub needed-eq :
    (n d : ℕ) (r r' : Ram)
    → ((x : ℕ) → d ≤ x → x < d + n → r' x ≡ r x)
    → needed n d r' ≡ needed n d r
unfolding needed
needed-eq zero d r r' same = refl
needed-eq (suc n) d r r' same =
    ap₂ ◌+◌ (rw (same d (omega arith) (omega arith)) refl)
      (needed-eq n (d + 1) r r' (λ x a b. same x (omega arith) (omega arith)))

pub needed_present :
    (n d : ℕ) (r : Ram) → present (r d) ≡ true → needed (suc n) d r ≡ suc (needed n (d + 1) r)
unfolding needed
needed_present n d r there = rw there (omega arith)

pub needed_absent :
    (n d : ℕ) (r : Ram) → present (r d) ≡ false → needed (suc n) d r ≡ needed n (d + 1) r
unfolding needed
needed_absent n d r absent = rw absent (omega arith)
