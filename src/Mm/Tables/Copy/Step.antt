-- ===== src/Mm/Tables/Copy/Step.antt =====
-- copy_page_tables of mm/memory.c: one present entry of the page directory, for which a page was free.
use my_linux_kernel.Common.{
  ℕ, ◌+◌, ◌-◌, ◌*◌, ◌≤◌, ◌<◌, ◌≡◌, ◌≢◌, ◌⊎◌, inl, inr, refl, ◌∙◌, ◌==◌, ◌&&◌, true, false, ltb, leb,
  set, get_or-set, length, length-set, arith, Bool-cases, if◌then◌else◌, bit_or,
}
use my_linux_kernel.Common.Bits.{bit_or_seven}
use my_linux_kernel.Mm.Run.{low_mem, Ram, Mm, store}
use my_linux_kernel.Mm.Pages.Alloc.{count, IsManaged, in_page}
use my_linux_kernel.Mm.Tables.Share.{child_entry, parent_entry, added, added-eq, Shared}
use my_linux_kernel.Mm.Tables.Alike.{IsAlike, IsAlike-refl, parent-IsAlike, child-word}
use my_linux_kernel.Mm.Tables.Copy.{IsTable, page_word}

-- Page `i` has become a copy of the table at word `w`, and the directory's entry `t` leads to it.
pub record Stepped (size w t i : ℕ) (m m' : Mm) : Type 0 where
  pub managed : IsManaged m'
  pub high : m'.high_memory ≡ m.high_memory
  pub words : (x : ℕ) → m'.ram x < 4294967296
  pub directory : (x : ℕ) → x < 1024 → x ≢ t → m'.ram x ≡ m.ram x
  pub entry : m'.ram t ≡ i * 4096 + low_mem + 7
  pub child :
      (k : ℕ)
      → k < 1024
      → m'.ram (page_word i + k) ≡ (if ltb k size then child_entry (m.ram (w + k)) 0 else 0)
  pub alike : (x : ℕ) → 1024 ≤ x → in_page i x ≡ false → IsAlike (m.ram x) (m'.ram x)
  pub own : count m' i ≡ 1 + added size w i m.ram
  pub counts : (j : ℕ) → j < 3840 → j ≢ i → count m' j ≡ count m j + added size w j m.ram

-- The memory once the page is taken and its address stands in the directory.
abbrev pub entered : ℕ → ℕ → Ram → Mm → Mm
entered t i cleared m = record m {
  mem_map = set m.mem_map i 1;
  ram = store cleared t (bit_or (i * 4096 + low_mem) 7);
}

-- A free page `i`, whose cleared words `cleared` holds, for a copy of the table at word `w`.
pub record IsTaken (size w t i : ℕ) (cleared : Ram) (m : Mm) : Type 0 where
  pub managed : IsManaged m
  pub all_words : (x : ℕ) → m.ram x < 4294967296
  pub in_directory : t < 1024
  pub fits : size ≤ 1024
  pub table : IsTable size w m
  pub is_page : i * 4096 + low_mem < m.high_memory
  pub free : count m i ≡ 0
  pub is_cleared : (x : ℕ) → cleared x ≡ (if in_page i x then 0 else m.ram x)
  pub room : (j : ℕ) → j < 3840 → count m j ≢ 0 → count m j + added size w j m.ram ≤ 255
  pub fresh_room : (j : ℕ) → j < 3840 → count m j ≡ 0 → added size w j m.ram ≤ 254

module _ {size w t i : ℕ} {cleared : Ram} {m m' : Mm} (h : IsTaken size w t i cleared m)
    (c : Shared size w (page_word i) (entered t i cleared m) m') where
  small : i < 3840
  small = omega (arith, h.managed.to)

  apart : (w + 1024 ≤ page_word i) ⊎ (page_word i + 1024 ≤ w)
  apart = h.table.not_free i small h.free

  entered-ram :
      (x : ℕ)
      → (entered t i cleared m).ram x
        ≡ (if t == x then i * 4096 + low_mem + 7 else if in_page i x then 0 else m.ram x)
  entered-ram x = rw (bit_or_seven (i * 4096 + low_mem) (omega arith), h.is_cleared x) refl

  at_table : (x : ℕ) → w ≤ x → x < w + 1024 → (entered t i cleared m).ram x ≡ m.ram x
  at_table x from to =
      let far : (t == x) ≡ false = ground (arith, h.table.above) in
      let out : in_page i x ≡ false = ground (arith, apart) in entered-ram x ∙ rw (far, out) refl

  same_added : (j : ℕ) → added size w j (entered t i cleared m).ram ≡ added size w j m.ram
  same_added j =
      added-eq size w j m.ram (entered t i cleared m).ram (λ k a b. at_table k a (omega arith))

  entered-count : (j : ℕ) → count (entered t i cleared m) j ≡ (if i == j then 1 else count m j)
  entered-count j = get_or-set m.mem_map i j 1 (omega (arith, h.managed.entries))

  stepped-counts : (j : ℕ) → j < 3840 → j ≢ i → count m' j ≡ count m j + added size w j m.ram
  stepped-counts j inside other =
      let before : count (entered t i cleared m) j ≡ count m j = entered-count j ∙ ground arith in
      let long : j < length (set m.mem_map i 1) =
        omega (arith, h.managed.entries, length-set m.mem_map i 1) in
      elim (Bool-cases (count m j == 0)) [
        | inl z ↦
            let no_count : count m j ≡ 0 = ground arith in
            let little = h.fresh_room j inside (ground arith) in
            omega
              (arith, before, same_added j, c.exact j long (omega (arith, before, same_added j)))
        | inr nz ↦
            let some = h.room j inside (ground arith) in
            omega
              (arith, before, same_added j, c.exact j long (omega (arith, before, same_added j)))
      ]

  stepped-own : count m' i ≡ 1 + added size w i m.ram
  stepped-own =
      let before : count (entered t i cleared m) i ≡ 1 = entered-count i ∙ ground arith in
      let long : i < length (set m.mem_map i 1) =
        omega (arith, h.managed.entries, length-set m.mem_map i 1) in
      let little = h.fresh_room i small h.free in
      omega (arith, before, same_added i, c.exact i long (omega (arith, before, same_added i)))

  -- The words of the new state, each in terms of the old one.
  in_child :
      (k : ℕ)
      → k < 1024
      → m'.ram (page_word i + k) ≡ (if ltb k size then child_entry (m.ram (w + k)) 0 else 0)
  in_child k inside =
      let far : (t == page_word i + k) ≡ false = ground arith in
      let here : in_page i (page_word i + k) ≡ true = ground arith in
      let blank : (entered t i cleared m).ram (page_word i + k) ≡ 0 =
        entered-ram (page_word i + k) ∙ rw (far, here) refl in
      let back : page_word i + k - page_word i ≡ k = omega arith in
      let from : (entered t i cleared m).ram (w + k) ≡ m.ram (w + k) =
        at_table (w + k) (omega arith) (omega arith) in
      elim (Bool-cases (ltb k size)) [
        | inl shared ↦
            let range : leb (page_word i) (page_word i + k)
                  && ltb (page_word i + k) (page_word i + size)
                ≡ true =
              ground arith in
            c.words (page_word i + k) ∙ rw (range, back, blank, from, shared) refl
        | inr left ↦
            let range : leb (page_word i) (page_word i + k)
                  && ltb (page_word i + k) (page_word i + size)
                ≡ false =
              ground arith in
            let other : leb w (page_word i + k) && ltb (page_word i + k) (w + size) ≡ false =
              ground (arith, apart) in
            c.words (page_word i + k) ∙ rw (range, other, blank, left) refl
      ]

  outside :
      (x : ℕ)
      → in_page i x ≡ false
      → m'.ram x ≡ (
          if leb w x && ltb x (w + size)
          then parent_entry ((entered t i cleared m).ram x)
          else (entered t i cleared m).ram x)
  outside x out =
      let range : leb (page_word i) x && ltb x (page_word i + size) ≡ false = ground arith in
      c.words x ∙ rw range refl

  in_directory_lem : (x : ℕ) → x < 1024 → m'.ram x ≡ (entered t i cleared m).ram x
  in_directory_lem x low =
      let out : in_page i x ≡ false = ground arith in
      let before : leb w x && ltb x (w + size) ≡ false = ground (arith, h.table.above) in
      outside x out ∙ rw before refl

  stepped-IsAlike : (x : ℕ) → 1024 ≤ x → in_page i x ≡ false → IsAlike (m.ram x) (m'.ram x)
  stepped-IsAlike x above out =
      let far : (t == x) ≡ false = ground arith in
      let same : (entered t i cleared m).ram x ≡ m.ram x = entered-ram x ∙ rw (far, out) refl in
      elim (Bool-cases (leb w x && ltb x (w + size))) [
        | inl inside ↦
            let new : m'.ram x ≡ parent_entry (m.ram x) = outside x out ∙ rw (inside, same) refl in
            rw new (parent-IsAlike (m.ram x) (h.all_words x))
        | inr other ↦
            let new : m'.ram x ≡ m.ram x = outside x out ∙ rw (other, same) refl in
            rw new (IsAlike-refl (m.ram x) (h.all_words x))
      ]

  stepped-words : (x : ℕ) → m'.ram x < 4294967296
  stepped-words x = elim (Bool-cases (in_page i x)) [
    | inl inside ↦
        let k = x - page_word i in
        let at : page_word i + k ≡ x = ground arith in
        let new = rw at at (in_child k (ground arith)) in
        elim (Bool-cases (ltb k size)) [
          | inl shared ↦
              let entry : m'.ram x ≡ child_entry (m.ram (w + k)) 0 = new ∙ rw shared refl in
              rw entry (child-word (m.ram (w + k)) (h.all_words (w + k)))
          | inr left ↦ let entry : m'.ram x ≡ 0 = new ∙ rw left refl in rw entry (omega arith)
        ]
    | inr out ↦ elim (Bool-cases (ltb x 1024)) [
      | inl low ↦
          let old = h.all_words x in
          ground (arith, in_directory_lem x (ground arith), entered-ram x)
      | inr high ↦ (stepped-IsAlike x (ground arith) out).word
    ]
  ]

  pub Shared-Stepped : Stepped size w t i m m'
  Shared-Stepped = record {
    managed = record {
      entries = c.entries ∙ (length-set m.mem_map i 1 ∙ h.managed.entries);
      from = omega (arith, c.high, h.managed.from);
      to = omega (arith, c.high, h.managed.to);
      above = λ j inside over.
          let other : j ≢ i = λ e. omega (arith, c.high) in
          let old = h.managed.above j inside (omega (arith, c.high)) in
          omega (arith, stepped-counts j inside other);
    };
    high = c.high;
    words = stepped-words;
    directory = λ x low other.
        let far : (t == x) ≡ false = ground arith in
        let out : in_page i x ≡ false = ground arith in
        in_directory_lem x low ∙ (entered-ram x ∙ rw (far, out) refl);
    entry = in_directory_lem t h.in_directory ∙ (entered-ram t ∙ ground arith);
    child = in_child;
    alike = stepped-IsAlike;
    own = stepped-own;
    counts = stepped-counts;
  }
