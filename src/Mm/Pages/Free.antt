-- ===== src/Mm/Pages/Free.antt =====
-- free_page of mm/memory.c on a managed map, and after get_free_page.
use my_linux_kernel.Common.{
  ℕ, ◌+◌, ◌-◌, ◌*◌, ◌≤◌, ◌<◌, ◌≡◌, ◌≢◌, ◌⊎◌, inl, inr, ap, ◌∙◌, sym, ◌==◌, false, get_or, set,
  length, length-set, get_or-set, set-set, set-get_or, arith, Bool-cases, leb_of_lt, ltb_of_le,
}
use my_linux_kernel.Mm.Run.{
  low_mem, Ram, Mm, Run, Panic, done, panic, free_above_high_memory, free_unallocated,
}
use my_linux_kernel.Mm.Pages.{map_nr, free_page, get_free_page}
use my_linux_kernel.Mm.Pages.Alloc.{
  count, IsManaged, Alloc, out_of_memory, allocated, get_free_page-Alloc,
}

-- The pages that mm/ manages.
abbrev pub Managed : Mm → ℕ → Type 0
Managed m addr = (low_mem ≤ addr) × (addr < m.high_memory)

-- An address of a managed page has an entry in the map.
pub map_nr-lt : {m : Mm} (addr : ℕ) → IsManaged m → Managed m addr → map_nr addr < length m.mem_map
map_nr-lt addr v h = omega arith

-- On a managed map, free_page of a managed page in use lowers its count by one, and changes
-- nothing else.
pub free_page-used :
    {m : Mm} (addr : ℕ)
    → IsManaged m
    → Managed m addr
    → count m (map_nr addr) ≢ 0
    → free_page addr m
      ≡ done tt (record m { mem_map = set m.mem_map (map_nr addr) (count m (map_nr addr) - 1) })
unfolding free_page
free_page-used {m} addr v h in_use =
    rw (ltb_of_le addr low_mem h.0, leb_of_lt m.high_memory addr h.1)
      (elim (Bool-cases (count m (map_nr addr) == 0)) [
        | inl e ↦ absurd (in_use (ground arith))
        | inr e ↦ rw e
      ])

-- free_page of an address from LOW_MEM on panics if the address is not below HIGH_MEMORY or its
-- page is not in use.
pub free_page-panics :
    (m : Mm) (addr : ℕ)
    → low_mem ≤ addr
    → (m.high_memory ≤ addr) ⊎ (count m (map_nr addr) ≡ 0)
    → (free_page addr m ≡ panic free_above_high_memory)
      ⊎ (free_page addr m ≡ panic free_unallocated)
unfolding free_page
free_page-panics m addr low bad = ground arith

-- A change of the count of a page below HIGH_MEMORY keeps the map managed.
pub set-IsManaged :
    {m : Mm} (i n : ℕ) (ram' : Ram)
    → IsManaged m
    → i * 4096 + low_mem < m.high_memory
    → IsManaged (record m { mem_map = set m.mem_map i n; ram = ram' })
set-IsManaged {m} i n ram' v below = record {
  entries = length-set m.mem_map i n ∙ v.entries;
  from = v.from;
  to = v.to;
  above = λ j small over.
      let far : (i == j) ≡ false = ground arith in
      rw (get_or-set m.mem_map i j n (omega arith), far) (v.above j small over);
}

-- get_free_page, where it returns, keeps a managed map managed.
pub get_free_page-IsManaged :
    {m m' : Mm} {p : ℕ} → IsManaged m → get_free_page m ≡ done p m' → IsManaged m'
get_free_page-IsManaged {m} {m'} {p} v e = go (get_free_page-Alloc v)
  where
    go : Alloc m (get_free_page m) → IsManaged m'
    go (out_of_memory r all) =
        let same : done p m' ≡ done 0 m = sym e ∙ r in let at : m' ≡ m = cc in rw at v
    go (allocated i ram' r below free above words) =
        let m₁ : Mm = record m { mem_map = set m.mem_map i 1; ram = ram' } in
        let same : done p m' ≡ done (i * 4096 + low_mem) m₁ = sym e ∙ r in
        let at : m' ≡ m₁ = cc in rw at (set-IsManaged i 1 ram' v below)

done-ne-panic : {m : Mm} {p : Panic} → ◌≢◌ {A = Run (Unit {0})} (done tt m) (panic p)
done-ne-panic e = cc

-- free_page of a managed page, where it returns, keeps a managed map managed.
pub free_page-IsManaged :
    {m m' : Mm} (addr : ℕ)
    → IsManaged m
    → Managed m addr
    → free_page addr m ≡ done tt m'
    → IsManaged m'
free_page-IsManaged {m} {m'} addr v h e = elim (Bool-cases (count m (map_nr addr) == 0)) [
  | inl zero_count ↦ elim (free_page-panics m addr h.0 (inr (ground arith))) [
    | inl p ↦ absurd (done-ne-panic (sym e ∙ p))
    | inr p ↦ absurd (done-ne-panic (sym e ∙ p))
  ]
  | inr in_use ↦
      let m₁ : Mm = record m {
        mem_map = set m.mem_map (map_nr addr) (count m (map_nr addr) - 1);
      } in
      let same : done tt m' ≡ done tt m₁ = sym e ∙ free_page-used addr v h (ground arith) in
      let at : m' ≡ m₁ = cc in
      rw at (set-IsManaged (map_nr addr) (count m (map_nr addr) - 1) m.ram v (omega arith))
]

-- Freeing a page whose count has gone from 0 to 1 restores the map.
free_fresh :
    {m : Mm} (i : ℕ) (ram' : Ram)
    → IsManaged m
    → i * 4096 + low_mem < m.high_memory
    → count m i ≡ 0
    → free_page (i * 4096 + low_mem) (record m { mem_map = set m.mem_map i 1; ram = ram' })
      ≡ done tt (record m { ram = ram' })
free_fresh {m} i ram' v below free =
    free_page-used {m = m₁} page (set-IsManaged i 1 ram' v below) (omega arith)
      (rw once (omega arith))
    ∙ ap (λ map. done tt (record m { mem_map = map; ram = ram' })) back
  where
    page : ℕ
    page = i * 4096 + low_mem

    m₁ : Mm
    m₁ = record m { mem_map = set m.mem_map i 1; ram = ram' }

    nr : map_nr page ≡ i
    nr = omega arith

    once : get_or (set m.mem_map i 1) (map_nr page) 0 ≡ 1
    once = rw (nr, get_or-set m.mem_map i i 1 (omega arith)) (ground arith)

    back :
        set (set m.mem_map i 1) (map_nr page) (get_or (set m.mem_map i 1) (map_nr page) 0 - 1)
        ≡ m.mem_map
    back =
        rw (once, nr, set-set m.mem_map i 1 0)
          (ap (set m.mem_map i) (sym free) ∙ set-get_or m.mem_map i (omega arith))

-- On a managed map, a page other than 0 that get_free_page returns and that is freed at once
-- leaves the map as it was before.
pub free_page-get_free_page :
    {m m' : Mm} {p : ℕ}
    → IsManaged m
    → get_free_page m ≡ done p m'
    → p ≢ 0
    → free_page p m' ≡ done tt (record m' { mem_map = m.mem_map })
free_page-get_free_page {m} {m'} {p} v e some_page = go (get_free_page-Alloc v)
  where
    go : Alloc m (get_free_page m) → free_page p m' ≡ done tt (record m' { mem_map = m.mem_map })
    go (out_of_memory r all) = let same : done p m' ≡ done 0 m = sym e ∙ r in absurd (some_page cc)
    go (allocated i ram' r below free above words) =
        let m₁ : Mm = record m { mem_map = set m.mem_map i 1; ram = ram' } in
        let same : done p m' ≡ done (i * 4096 + low_mem) m₁ = sym e ∙ r in
        let page : p ≡ i * 4096 + low_mem = cc in
        let at : m' ≡ m₁ = cc in rw (page, at) (free_fresh i ram' v below free)
