-- ===== src/Mm/Tables/Free.antt =====
-- free_page_tables of mm/memory.c: the loop over the entries of a page table.
pub mod Table
pub mod Directory
pub mod Total
use my_linux_kernel.Common.{
  ℕ, zero, suc, ◌+◌, ◌-◌, ◌*◌, ◌/◌, ◌≤◌, ◌<◌, ◌≡◌, inl, inr, refl, ap, ap₂, ◌∙◌, ◌==◌, ◌&&◌, Bool,
  true, false, ltb, leb, set, length, get_or-set_read, arith, Bool-cases, if◌then◌else◌,
}
use my_linux_kernel.Mm.Run.{low_mem, Ram, Mm, done, store, read, write}
use my_linux_kernel.Mm.Pages.{map_nr, free_page}
use my_linux_kernel.Mm.Pages.Alloc.{count, IsManaged}
use my_linux_kernel.Mm.Pages.Free.{set-IsManaged}
use my_linux_kernel.Mm.Tables.{present, page_of, free_entry, free_entries}

-- An entry whose page is given back.
abbrev pub releases : ℕ → Bool
releases entry = present entry && leb low_mem (page_of entry)

-- Page `j` is counted once less if the entry leads to it.
abbrev pub drops : ℕ → ℕ → ℕ
drops j entry = if releases entry && map_nr (page_of entry) == j then 1 else 0

-- the entries of `n` words from number `at` on that lead to page `j`
abbrev pub dropped : ℕ → ℕ → ℕ → Ram → ℕ
dropped zero at j r = 0
dropped (suc n) at j r = drops j (r at) + dropped n (at + 1) j r

-- one entry, at the word number `at`
free_step : ℕ → Mm → Mm
free_step at m =
    let entry = m.ram at in
    let i = map_nr (page_of entry) in
    if entry == 0
    then m
    else (if releases entry
        then record m { ram = store m.ram at 0; mem_map = set m.mem_map i (count m i - 1) }
        else record m { ram = store m.ram at 0 })

-- Where the entry can be freed: its page is not managed, or below HIGH_MEMORY and in use.
IsFreeable : ℕ → Mm → Type 0
IsFreeable entry m =
    releases entry ≡ true → (page_of entry < m.high_memory) × (1 ≤ count m (map_nr (page_of entry)))

free_entry-step :
    (at : ℕ) (m : Mm) → IsFreeable (m.ram at) m → free_entry (at * 4) m ≡ done tt (free_step at m)
unfolding free_entry free_step free_page read write IsFreeable
free_entry-step at m ok =
    let here : at * 4 / 4 ≡ at = omega arith in
    rw here (elim (Bool-cases (m.ram at == 0)) [
      | inl z ↦ rw z
      | inr nz ↦ rw nz (elim (Bool-cases (present (m.ram at))) [
        | inl p ↦ rw p (elim (Bool-cases (leb low_mem (page_of (m.ram at)))) [
          | inl high ↦
              let fine = ok (rw (p, high) refl) in
              let not_low : ltb (page_of (m.ram at)) low_mem ≡ false = ground arith in
              let below : leb m.high_memory (page_of (m.ram at)) ≡ false = ground arith in
              let in_use : (count m (map_nr (page_of (m.ram at))) == 0) ≡ false = ground arith in
              rw (high, not_low, below, in_use, here) refl
          | inr low ↦
              let is_low : ltb (page_of (m.ram at)) low_mem ≡ true = ground arith in
              rw (low, is_low, here) refl
        ])
        | inr absent ↦ rw (absent, here) refl
      ])
    ])

free_step-ram :
    (at : ℕ) (m : Mm) (k : ℕ) → (free_step at m).ram k ≡ (if at == k then 0 else m.ram k)
unfolding free_step
free_step-ram at m k = elim (Bool-cases (m.ram at == 0)) [
  | inl z ↦ rw z (elim (Bool-cases (at == k)) [
    | inl same ↦
        let here : k ≡ at = ground arith in
        let none : m.ram at ≡ 0 = ground arith in rw same (rw here none)
    | inr other ↦ rw other refl
  ])
  | inr nz ↦
      rw nz (elim (Bool-cases (releases (m.ram at))) [ inl r ↦ rw r refl | inr r ↦ rw r refl ])
]

free_step-high : (at : ℕ) (m : Mm) → (free_step at m).high_memory ≡ m.high_memory
unfolding free_step
free_step-high at m = ground arith

-- An entry of 0 leads nowhere.
nothing_released : releases 0 ≡ false
nothing_released = refl

nothing_dropped : (e j : ℕ) → (e == 0) ≡ true → drops j e ≡ 0
nothing_dropped e j z = let zero_entry : e ≡ 0 = ground arith in rw zero_entry refl

free_step-count :
    (at : ℕ) (m : Mm) (j : ℕ)
    → IsFreeable (m.ram at) m
    → j < length m.mem_map
    → count (free_step at m) j + drops j (m.ram at) ≡ count m j
unfolding free_step IsFreeable
free_step-count at m j ok small = elim (Bool-cases (m.ram at == 0)) [
  | inl z ↦ rw (z, nothing_dropped (m.ram at) j z) (omega arith)
  | inr nz ↦ rw nz (elim (Bool-cases (releases (m.ram at))) [
    | inl r ↦
        let fine = ok r in
        let i = map_nr (page_of (m.ram at)) in
        rw r (ground (arith, get_or-set_read m.mem_map i j (count m i - 1) small))
    | inr r ↦ rw r (omega arith)
  ])
]

free_step-IsManaged :
    (at : ℕ) {m : Mm} → IsFreeable (m.ram at) m → IsManaged m → IsManaged (free_step at m)
unfolding free_step IsFreeable
free_step-IsManaged at {m} ok v = elim (Bool-cases (m.ram at == 0)) [
  | inl z ↦ rw z v
  | inr nz ↦ rw nz (elim (Bool-cases (releases (m.ram at))) [
    | inl r ↦
        let fine = ok r in
        rw r (set-IsManaged (map_nr (page_of (m.ram at))) _ (store m.ram at 0) v (ground arith))
    | inr r ↦ rw r (record { entries = v.entries; from = v.from; to = v.to; above = v.above })
  ])
]

-- What the loop over `n` entries leaves: no entry, every other word as it was, and each page counted
-- once less for each entry that led to it.
pub record Freed (n at : ℕ) (m m' : Mm) : Type 0 where
  pub high : m'.high_memory ≡ m.high_memory
  pub managed : IsManaged m'
  pub words : (k : ℕ) → m'.ram k ≡ (if leb at k && ltb k (at + n) then 0 else m.ram k)
  pub counts : (j : ℕ) → j < 3840 → count m' j + dropped n at j m.ram ≡ count m j

-- The entries of `n` words from number `at` on can be freed: their pages are below HIGH_MEMORY, and
-- each is counted at least as often as entries lead to it.
pub record IsReleasable (n at : ℕ) (m : Mm) : Type 0 where
  pub below :
      (k : ℕ) → at ≤ k → k < at + n → releases (m.ram k) ≡ true → page_of (m.ram k) < m.high_memory
  pub enough : (j : ℕ) → j < 3840 → dropped n at j m.ram ≤ count m j

pub dropped-eq :
    (n at j : ℕ) (r r' : Ram)
    → ((k : ℕ) → at ≤ k → k < at + n → r' k ≡ r k)
    → dropped n at j r' ≡ dropped n at j r
dropped-eq zero at j r r' same = refl
dropped-eq (suc n) at j r r' same =
    ap₂ ◌+◌ (ap (drops j) (same at (omega arith) (omega arith)))
      (dropped-eq n (at + 1) j r r' (λ k a b. same k (omega arith) (omega arith)))

module _ (n at : ℕ) {m : Mm} (v : IsManaged m) (can : IsReleasable (suc n) at m) where
  first-IsFreeable : IsFreeable (m.ram at) m
  unfolding IsFreeable
  first-IsFreeable releasing =
      let below = can.below at (omega arith) (omega arith) releasing in
      let high : low_mem ≤ page_of (m.ram at) = ground arith in
      (below, ground (arith, can.enough (map_nr (page_of (m.ram at))) (omega (arith, v.to))))

  after : (k : ℕ) → at < k → (free_step at m).ram k ≡ m.ram k
  after k above = free_step-ram at m k ∙ ground arith

  later : (j : ℕ) → dropped n (at + 1) j (free_step at m).ram ≡ dropped n (at + 1) j m.ram
  later j = dropped-eq n (at + 1) j m.ram (free_step at m).ram (λ k a b. after k (omega arith))

  rest-IsReleasable : IsReleasable n (at + 1) (free_step at m)
  rest-IsReleasable = record {
    below = λ k a b releasing.
        let same = after k (omega arith) in
        rw (same, free_step-high at m)
          (can.below k (omega arith) (omega arith) (rw same at releasing));
    enough = λ j small. omega (
      arith,
      later j,
      free_step-count at m j first-IsFreeable (omega (arith, v.entries)),
      can.enough j small,
    );
  }

  Freed-step : {m' : Mm} → Freed n (at + 1) (free_step at m) m' → Freed (suc n) at m m'
  Freed-step rest = record {
    high = rest.high ∙ free_step-high at m;
    managed = rest.managed;
    words = λ k. ground (arith, rest.words k, free_step-ram at m k);
    counts = λ j small. omega (
      arith,
      later j,
      rest.counts j small,
      free_step-count at m j first-IsFreeable (omega (arith, v.entries)),
    );
  }

-- On a managed map, where the pages that `n` entries lead to are below HIGH_MEMORY and counted
-- at least as often as entries lead to them, the loop of free_page_tables ends without a panic:
-- the entries are 0, no other word has changed, and each page is counted once less for each
-- entry that led to it.
pub free_entries-Freed :
    (n at : ℕ) (m : Mm)
    → IsManaged m
    → IsReleasable n at m
    → (m' : Mm) × (free_entries n (at * 4) m ≡ done tt m') × Freed n at m m'
unfolding free_entries
free_entries-Freed zero at m v can = (
  m,
  refl,
  record { high = refl; managed = v; words = λ k. ground arith; counts = λ j small. omega arith },
)
free_entries-Freed (suc n) at m v can =
    let ok = first-IsFreeable n at v can in
    let (m', ran, rest) =
      free_entries-Freed n (at + 1) (free_step at m) (free_step-IsManaged at ok v)
        (rest-IsReleasable n at v can) in
    let next : at * 4 + 4 ≡ (at + 1) * 4 = omega arith in
    (m', rw (free_entry-step at m ok, next) ran, Freed-step n at v can rest)
