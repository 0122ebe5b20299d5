-- ===== src/Mm/Tables/Share/Step.antt =====
-- copy_page_tables of mm/memory.c: one entry of a page table.
use my_linux_kernel.Common.{
  ℕ, ◌+◌, ◌*◌, ◌/◌, ◌%◌, ◌≤◌, ◌<◌, ◌≡◌, ◌≢◌, inl, inr, ◌==◌, ◌&&◌, ◌||◌, not, Bool, ltb, get_or,
  set, length, length-set, get_or-set_read, arith, Bool-cases, if◌then◌else◌, u8,
}
use my_linux_kernel.Mm.Run.{low_mem, Mm, done, store, read, write}
use my_linux_kernel.Mm.Pages.{map_nr}
use my_linux_kernel.Mm.Tables.{present, read_only, inc_count, share, copy_entry}

-- An entry that copy_page_tables passes over.
abbrev pub skipped : ℕ → Bool
skipped entry = entry == 0 || not (present entry)

-- An entry whose page is counted, and made read-only for the parent.
abbrev pub counted : ℕ → Bool
counted entry = not (skipped entry) && ltb low_mem (read_only entry)

-- what an entry becomes in the parent's table, and what the child's table gets in place of `old`
abbrev pub parent_entry : ℕ → ℕ
parent_entry entry = if counted entry then read_only entry else entry

abbrev pub child_entry : ℕ → ℕ → ℕ
child_entry entry old = if skipped entry then old else read_only entry

-- one entry, at the word numbers `from` and `to`
unfoldable pub copy_step : ℕ → ℕ → Mm → Mm
copy_step from to m =
    let entry = m.ram from in
    let i = map_nr (read_only entry) in
    if skipped entry
    then m
    else (if ltb low_mem (read_only entry)
        then record m {
          ram = store (store m.ram to (read_only entry)) from (read_only entry);
          mem_map = set m.mem_map i (u8 (get_or m.mem_map i 0 + 1));
        }
        else record m { ram = store m.ram to (read_only entry) })

pub copy_entry-step :
    (from to : ℕ) (m : Mm) → copy_entry (from * 4) (to * 4) m ≡ done tt (copy_step from to m)
unfolding copy_entry copy_step share read write inc_count
copy_entry-step from to m =
    let at_from : from * 4 / 4 ≡ from = omega arith in
    let at_to : to * 4 / 4 ≡ to = omega arith in
    rw at_from (elim (Bool-cases (skipped (m.ram from))) [
      | inl s ↦ rw s
      | inr s ↦
          rw (s, at_to)
            (elim (Bool-cases (ltb low_mem (read_only (m.ram from)))) [
              | inl h ↦ rw (h, at_from)
              | inr h ↦ rw h
            ])
    ])

pub copy_step-ram :
    (from to : ℕ) (m : Mm) (k : ℕ)
    → from ≢ to
    → (copy_step from to m).ram k ≡ (
        if to == k
        then child_entry (m.ram from) (m.ram k)
        else if from == k
        then parent_entry (m.ram from)
        else m.ram k)
unfolding copy_step
copy_step-ram from to m k apart = elim (Bool-cases (skipped (m.ram from))) [
  | inl s ↦ rw s (ground arith)
  | inr s ↦ rw s (elim (Bool-cases (ltb low_mem (read_only (m.ram from)))) [
    | inl h ↦ rw h (ground arith)
    | inr h ↦ rw h (ground arith)
  ])
]

-- Page `j` is counted once more if the entry leads to it.
abbrev pub adds : ℕ → ℕ → ℕ
adds j entry = if counted entry && map_nr (read_only entry) == j then 1 else 0

pub copy_step-length :
    (from to : ℕ) (m : Mm) → length (copy_step from to m).mem_map ≡ length m.mem_map
unfolding copy_step
copy_step-length from to m = elim (Bool-cases (skipped (m.ram from))) [
  | inl s ↦ rw s
  | inr s ↦ rw s (elim (Bool-cases (ltb low_mem (read_only (m.ram from)))) [
    | inl h ↦ rw h (length-set m.mem_map (map_nr (read_only (m.ram from))) _)
    | inr h ↦ rw h
  ])
]

pub copy_step-count :
    (from to : ℕ) (m : Mm) (j : ℕ)
    → j < length m.mem_map
    → get_or (copy_step from to m).mem_map j 0 % 256
      ≡ (get_or m.mem_map j 0 + adds j (m.ram from)) % 256
unfolding copy_step
copy_step-count from to m j small = elim (Bool-cases (skipped (m.ram from))) [
  | inl s ↦ rw s (omega arith)
  | inr s ↦ rw s (elim (Bool-cases (ltb low_mem (read_only (m.ram from)))) [
    | inl h ↦
        let i = map_nr (read_only (m.ram from)) in
        rw h (ground (arith, get_or-set_read m.mem_map i j (u8 (get_or m.mem_map i 0 + 1)) small))
    | inr h ↦ rw h (omega arith)
  ])
]

pub copy_step-exact :
    (from to : ℕ) (m : Mm) (j : ℕ)
    → j < length m.mem_map
    → get_or m.mem_map j 0 + adds j (m.ram from) ≤ 255
    → get_or (copy_step from to m).mem_map j 0 ≡ get_or m.mem_map j 0 + adds j (m.ram from)
unfolding copy_step
copy_step-exact from to m j small room = elim (Bool-cases (skipped (m.ram from))) [
  | inl s ↦ rw s (omega arith)
  | inr s ↦
      let some_room = rw s at room in
      rw s (elim (Bool-cases (ltb low_mem (read_only (m.ram from)))) [
        | inl h ↦
            let page_room = rw h at some_room in
            let i = map_nr (read_only (m.ram from)) in
            let put = get_or-set_read m.mem_map i j (u8 (get_or m.mem_map i 0 + 1)) small in
            rw h (ground (arith, put, page_room))
        | inr h ↦ rw h (omega arith)
      ])
]

pub copy_step-high : (from to : ℕ) (m : Mm) → (copy_step from to m).high_memory ≡ m.high_memory
unfolding copy_step
copy_step-high from to m = ground arith
