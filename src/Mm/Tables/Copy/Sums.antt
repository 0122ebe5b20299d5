-- ===== src/Mm/Tables/Copy/Sums.antt =====
-- copy_page_tables and free_page_tables of mm/memory.c: how often the entries of the directory lead to
-- a page, in the parent's part and in the child's.
use my_linux_kernel.Common.{
  ℕ, zero, suc, ◌+◌, ◌≤◌, ◌<◌, ◌==◌, ◌≡◌, inl, inr, refl, Bool, true, false, arith, Bool-cases,
  if◌then◌else◌,
}
use my_linux_kernel.Mm.Run.{Ram}
use my_linux_kernel.Mm.Pages.{map_nr}
use my_linux_kernel.Mm.Tables.{present, page_of}
use my_linux_kernel.Mm.Tables.Share.{added}
use my_linux_kernel.Mm.Tables.Free.{dropped}
use my_linux_kernel.Mm.Tables.Free.Directory.{tables_dropped}
use my_linux_kernel.Mm.Tables.Copy.{table_word, tables_added, own_pages}

-- What the entries for the child lead to is what those of the parent lead to, and the pages of the
-- child's own tables.
halves :
    (d o x y : ℕ) (b : Bool) (rest : ℕ)
    → (if b then d else 0) ≡ x
    → rest ≡ y + o
    → (own : ℕ) → (if b then d + own else 0) + rest ≡ x + y + ((if b then own else 0) + o)
halves d o x y true rest first later own = omega arith
halves d o x y false rest first later own = omega arith

pub tables_dropped-split :
    (size n d t j : ℕ) (r r' : Ram)
    → ((l x y : ℕ)
        → l < n
        → x ≡ t + l
        → y ≡ d + l
        → (if present (r' x) then dropped 1024 (table_word (r' x)) j r' else 0)
          ≡ (if present (r y) then added size (table_word (r y)) j r else 0))
    → tables_dropped n t j r' ≡ tables_added size n d j r + own_pages n t j r'
tables_dropped-split size zero d t j r r' same = refl
tables_dropped-split size (suc n) d t j r r' same =
    let first = same 0 t d (omega arith) (omega arith) (omega arith) in
    let later =
      tables_dropped-split size n (d + 1) (t + 1) j r r'
        (λ l x y small at_x at_y. same (suc l) x y (omega arith) (omega arith) (omega arith)) in
    halves (dropped 1024 (table_word (r' t)) j r') (own_pages n (t + 1) j r')
      (if present (r d) then added size (table_word (r d)) j r else 0)
      (tables_added size n (d + 1) j r) (present (r' t)) (tables_dropped n (t + 1) j r') first later
      (if map_nr (page_of (r' t)) == j then 1 else 0)

-- Entries behind the first `k` that are not present.
pub tables_dropped_prefix :
    (k n t j : ℕ) (r : Ram)
    → k ≤ n
    → ((x : ℕ) → t + k ≤ x → x < t + n → present (r x) ≡ false)
    → tables_dropped n t j r ≡ tables_dropped k t j r
tables_dropped_prefix zero zero t j r less absent = refl
tables_dropped_prefix (suc k) zero t j r less absent = absurd (omega arith)
tables_dropped_prefix zero (suc n) t j r less absent =
    rw
      (
        absent t (omega arith) (omega arith),
        tables_dropped_prefix zero n (t + 1) j r (omega arith)
            (λ x from to. absent x (omega arith) (omega arith)),
      )
      refl
tables_dropped_prefix (suc k) (suc n) t j r less absent =
    let rest =
      tables_dropped_prefix k n (t + 1) j r (omega arith)
        (λ x from to. absent x (omega arith) (omega arith)) in
    rw rest refl

-- Two entries that lead to one page.
own_pages-one :
    (n t j x : ℕ) (r : Ram)
    → t ≤ x
    → x < t + n
    → present (r x) ≡ true
    → map_nr (page_of (r x)) ≡ j
    → 1 ≤ own_pages n t j r
own_pages-one zero t j x r from to there page = absurd (omega arith)
own_pages-one (suc n) t j x r from to there page = elim (Bool-cases (t == x)) [
  | inl here ↦
      let at : t ≡ x = ground arith in
      let this : (j == j) ≡ true = ground arith in rw (at, there, page, this) (omega arith)
  | inr later ↦
      let rest = own_pages-one n (t + 1) j x r (ground arith) (omega arith) there page in
      omega arith
]

pub own_pages-two :
    (n t j x y : ℕ) (r : Ram)
    → t ≤ x
    → x < y
    → y < t + n
    → present (r x) ≡ true
    → present (r y) ≡ true
    → map_nr (page_of (r x)) ≡ j
    → map_nr (page_of (r y)) ≡ j
    → 2 ≤ own_pages n t j r
own_pages-two zero t j x y r from less to there there' page page' = absurd (omega arith)
own_pages-two (suc n) t j x y r from less to there there' page page' = elim (Bool-cases (t == x)) [
  | inl here ↦
      let at : t ≡ x = ground arith in
      let this : (map_nr (page_of (r t)) == j) ≡ true = rw at (ground arith) in
      let here_present : present (r t) ≡ true = rw at there in
      let rest = own_pages-one n (t + 1) j y r (omega arith) (omega arith) there' page' in
      rw (here_present, this) (omega (arith, rest))
  | inr later ↦
      let rest =
        own_pages-two n (t + 1) j x y r (ground arith) less (omega arith) there there' page page' in
      omega arith
]

-- Two summands.
pub same_terms :
    (p p' : Bool) (x y : ℕ)
    → (p ≡ true)
    → p' ≡ true
    → x ≡ y
    → (if p then x else 0) ≡ (if p' then y else 0)
same_terms p p' x y there there' same = rw (there, there') same

pub no_terms :
    (p p' : Bool) (x y : ℕ)
    → (p ≡ false)
    → p' ≡ false
    → (if p then x else 0) ≡ (if p' then y else 0)
no_terms p p' x y absent absent' = rw (absent, absent') refl
