-- ===== src/Mm/Tables/Share.antt =====
-- copy_page_tables of mm/memory.c: the loop over the entries of a page table.
mod Step
pub use Step.{skipped, counted, parent_entry, child_entry, adds}
use my_linux_kernel.Common.{
  ℕ, zero, suc, ◌+◌, ◌-◌, ◌*◌, ◌/◌, ◌%◌, ◌≤◌, ◌<◌, ◌≡◌, ◌≢◌, ◌⊎◌, inl, inr, refl, ap, ap₂, ◌∙◌,
  ◌==◌, ◌&&◌, ◌||◌, not, Bool, ltb, leb, get_or, set, length, length-set, get_or-set_read, arith,
  Bool-cases, if◌then◌else◌, u8,
}
use my_linux_kernel.Mm.Run.{low_mem, Ram, Mm, done, store, read, write}
use my_linux_kernel.Mm.Pages.{map_nr}
use my_linux_kernel.Mm.Tables.Share.Step.{
  copy_step, copy_entry-step, copy_step-ram, copy_step-length, copy_step-count, copy_step-exact,
  copy_step-high,
}
use my_linux_kernel.Mm.Tables.{present, read_only, inc_count, share, copy_entry, copy_entries}

-- the entries of `n` words from number `from` on that lead to page `j`
abbrev pub added : ℕ → ℕ → ℕ → Ram → ℕ
added zero from j r = 0
added (suc n) from j r = adds j (r from) + added n (from + 1) j r

-- What the loop over `n` entries leaves: each table as it shall be, every other word as it was, and
-- each page counted once for each entry that leads to it.
pub record Shared (n from to : ℕ) (m m' : Mm) : Type 0 where
  pub high : m'.high_memory ≡ m.high_memory
  pub entries : length m'.mem_map ≡ length m.mem_map
  pub words :
      (k : ℕ)
      → m'.ram k ≡ (
          if leb to k && ltb k (to + n)
          then child_entry (m.ram (from + (k - to))) (m.ram k)
          else if leb from k && ltb k (from + n)
          then parent_entry (m.ram k)
          else m.ram k)
  pub counts :
      (j : ℕ)
      → j < length m.mem_map
      → get_or m'.mem_map j 0 % 256 ≡ (get_or m.mem_map j 0 + added n from j m.ram) % 256
  pub exact :
      (j : ℕ)
      → j < length m.mem_map
      → get_or m.mem_map j 0 + added n from j m.ram ≤ 255
      → get_or m'.mem_map j 0 ≡ get_or m.mem_map j 0 + added n from j m.ram

pub added-eq :
    (n from j : ℕ) (r r' : Ram)
    → ((k : ℕ) → from ≤ k → k < from + n → r' k ≡ r k)
    → added n from j r' ≡ added n from j r
added-eq zero from j r r' same = refl
added-eq (suc n) from j r r' same =
    ap₂ ◌+◌ (ap (adds j) (same from (omega arith) (omega arith)))
      (added-eq n (from + 1) j r r' (λ k a b. same k (omega arith) (omega arith)))

-- One entry and the entries behind it, for any rule for the two tables.
words_step :
    (child : ℕ → ℕ → ℕ) (parent : ℕ → ℕ) (r r₁ r' : Ram) (n from to k : ℕ)
    → (from + suc n ≤ to) ⊎ (to + suc n ≤ from)
    → ((w : ℕ)
        → r₁ w
          ≡ (if to == w then child (r from) (r w) else if from == w then parent (r from) else r w))
    → ((w : ℕ)
        → r' w ≡ (
            if leb (to + 1) w && ltb w (to + 1 + n)
            then child (r₁ (from + 1 + (w - (to + 1)))) (r₁ w)
            else if leb (from + 1) w && ltb w (from + 1 + n)
            then parent (r₁ w)
            else r₁ w))
    → r' k ≡ (
        if leb to k && ltb k (to + suc n)
        then child (r (from + (k - to))) (r k)
        else if leb from k && ltb k (from + suc n)
        then parent (r k)
        else r k)
words_step child parent r r₁ r' n from to k apart first rest =
    ground (arith, rest k, first k, first (from + 1 + (k - (to + 1))))

Shared-step :
    (n from to : ℕ) (m m' : Mm)
    → (from + suc n ≤ to) ⊎ (to + suc n ≤ from)
    → Shared n (from + 1) (to + 1) (copy_step from to m) m'
    → Shared (suc n) from to m m'
Shared-step n from to m m' apart rest = record {
  high = rest.high ∙ copy_step-high from to m;
  entries = rest.entries ∙ copy_step-length from to m;
  words = λ k.
      words_step child_entry parent_entry m.ram (copy_step from to m).ram m'.ram n from to k apart
        (λ w. copy_step-ram from to m w ne) rest.words;
  counts = λ j small.
      let one = copy_step-count from to m j small in
      let more = rest.counts j (omega (arith, copy_step-length from to m)) in
      let later : added n (from + 1) j (copy_step from to m).ram ≡ added n (from + 1) j m.ram =
        added-eq n (from + 1) j m.ram (copy_step from to m).ram
          (λ k a b. copy_step-ram from to m k ne ∙ ground arith) in
      omega arith;
  exact = λ j small room.
      let later : added n (from + 1) j (copy_step from to m).ram ≡ added n (from + 1) j m.ram =
        added-eq n (from + 1) j m.ram (copy_step from to m).ram
          (λ k a b. copy_step-ram from to m k ne ∙ ground arith) in
      let one = copy_step-exact from to m j small (omega arith) in
      let more =
        rest.exact j (omega (arith, copy_step-length from to m)) (omega (arith, later, one)) in
      omega (arith, later, one, more);
}
  where
    ne : from ≢ to
    ne = omega arith

-- The loop over `n` entries of two tables that do not overlap ends without a panic. Each entry
-- that is present is shared: the child's entry and, above LOW_MEM, the parent's entry become
-- the parent's old entry without the write bit, and the page is counted once more (modulo 256).
-- No other word is written.
pub copy_entries-Shared :
    (n from to : ℕ) (m : Mm)
    → (from + n ≤ to) ⊎ (to + n ≤ from)
    → (m' : Mm) × (copy_entries n (from * 4) (to * 4) m ≡ done tt m') × Shared n from to m m'
unfolding copy_entries
copy_entries-Shared zero from to m apart = (
  m,
  refl,
  record {
    high = refl;
    entries = refl;
    words = λ k. ground arith;
    counts = λ j small. omega arith;
    exact = λ j small room. omega arith;
  },
)
copy_entries-Shared (suc n) from to m apart =
    let m₁ = copy_step from to m in
    let (m', ran, rest) = copy_entries-Shared n (from + 1) (to + 1) m₁ (omega arith) in
    let next_from : from * 4 + 4 ≡ (from + 1) * 4 = omega arith in
    let next_to : to * 4 + 4 ≡ (to + 1) * 4 = omega arith in
    (
      m',
      rw (copy_entry-step from to m, next_from, next_to) ran,
      Shared-step n from to m m' apart rest,
    )
