-- ===== src/Mm/Tables/Fault.antt =====
-- un_wp_page of mm/memory.c: copy on write while a page is free.
use my_linux_kernel.Common.{
  ℕ, ◌+◌, ◌-◌, ◌*◌, ◌/◌, ◌≤◌, ◌<◌, ◌≡◌, ◌≢◌, ◌⊎◌, inl, inr, ap, ◌∙◌, sym, ◌==◌, ◌&&◌, true, false,
  ltb, leb, get_or, set, length-set, get_or-set, arith, Bool-cases, leb_of_le, if◌then◌else◌,
  bit_or, List,
}
use my_linux_kernel.Common.Bits.{mask_fffff000, bit_or_seven}
use my_linux_kernel.Mm.Run.{low_mem, Ram, Mm, done, store, write}
use my_linux_kernel.Mm.Pages.{map_nr, dec8, get_free_page}
use my_linux_kernel.Mm.Pages.Alloc.{
  count, IsManaged, in_page, Alloc, out_of_memory, allocated, get_free_page-Alloc,
}
use my_linux_kernel.Mm.Tables.Entry.{copy_words_lem, Private, IsEntry, from_words, sole-Private}
use my_linux_kernel.Mm.Tables.{copy_words, copy_page, dec_count, unshare, un_wp_page}

module _ {m : Mm} (p : ℕ) (v : IsManaged m) (t : IsEntry m p) where
  -- Else the fault takes page `i`, copies the old one there, and lowers the count of the old one.
  module _ (i : ℕ) (ram' : Ram) (below : i * 4096 + low_mem < m.high_memory) (free : count m i ≡ 0)
      (words : (k : ℕ) → ram' k ≡ (if in_page i k then 0 else m.ram k)) where
    copied_map : List ℕ
    copied_map =
        let nr = map_nr (m.ram (p / 4) / 4096 * 4096) in
        set (set m.mem_map i 1) nr (dec8 (get_or (set m.mem_map i 1) nr 0))

    copied_ram : Ram
    copied_ram =
        store (copy_words 1024 (m.ram (p / 4) / 4096 * 1024) (262144 + i * 1024) ram') (p / 4)
          (i * 4096 + low_mem + 7)

    other_page : i ≢ map_nr (m.ram (p / 4) / 4096 * 4096)
    other_page e = t.in_use (ap (count m) (sym e) ∙ free)

    apart : (m.ram (p / 4) / 4096 + 1 ≤ 256 + i) ⊎ (257 + i ≤ m.ram (p / 4) / 4096)
    apart = let ne = other_page in ground arith

    old_word :
        (k : ℕ)
        → k < 1024
        → ram' (m.ram (p / 4) / 4096 * 1024 + k) ≡ m.ram (m.ram (p / 4) / 4096 * 1024 + k)
    old_word k small = let here = apart in ground (arith, words (m.ram (p / 4) / 4096 * 1024 + k))

    new_word :
        (k : ℕ)
        → k < 1024
        → copied_ram (262144 + i * 1024 + k) ≡ m.ram (m.ram (p / 4) / 4096 * 1024 + k)
    unfolding copied_ram
    new_word k small =
        let far : (p / 4 == 262144 + i * 1024 + k) ≡ false =
          ground (arith, t.not_free i (omega arith) free) in
        let inside : (leb (262144 + i * 1024) (262144 + i * 1024 + k)
              && ltb (262144 + i * 1024 + k) (262144 + i * 1024 + 1024))
            ≡ true =
          ground arith in
        let offset : 262144 + i * 1024 + k - (262144 + i * 1024) ≡ k = omega arith in
        rw
          (
            far,
            copy_words_lem 1024 (m.ram (p / 4) / 4096 * 1024) (262144 + i * 1024) ram'
                (262144 + i * 1024 + k) (omega (arith, apart)),
            inside,
            offset,
          )
          (old_word k small)

    kept_word :
        (k : ℕ)
        → k < 1024
        → copied_ram (m.ram (p / 4) / 4096 * 1024 + k) ≡ m.ram (m.ram (p / 4) / 4096 * 1024 + k)
    unfolding copied_ram
    kept_word k small =
        let here = apart in
        let far : (p / 4 == m.ram (p / 4) / 4096 * 1024 + k) ≡ false = ground arith in
        let outside : (leb (262144 + i * 1024) (m.ram (p / 4) / 4096 * 1024 + k)
              && ltb (m.ram (p / 4) / 4096 * 1024 + k) (262144 + i * 1024 + 1024))
            ≡ false =
          ground arith in
        rw
          (
            far,
            copy_words_lem 1024 (m.ram (p / 4) / 4096 * 1024) (262144 + i * 1024) ram'
                (m.ram (p / 4) / 4096 * 1024 + k) (omega (arith, apart)),
            outside,
          )
          (old_word k small)

    one_user : get_or copied_map i 0 ≡ 1
    unfolding copied_map
    one_user =
        let nr = map_nr (m.ram (p / 4) / 4096 * 4096) in
        let marked = set m.mem_map i 1 in
        rw
          (get_or-set marked nr i (dec8 (get_or marked nr 0))
            (omega (arith, length-set m.mem_map i 1)))
          (let other = other_page in ground (arith, get_or-set m.mem_map i i 1))

    copied-Private : Private m p (record m { mem_map = copied_map; ram = copied_ram })
    copied-Private =
        from_words p v t (record m { mem_map = copied_map; ram = copied_ram })
          (i * 4096 + low_mem + 7) (unfold copied_ram in ground arith) (omega arith) (omega arith)
          (rw nr one_user) (λ k small. rw word (new_word k small)) kept_word
      where
        nr : map_nr ((i * 4096 + low_mem + 7) / 4096 * 4096) ≡ i
        nr = omega arith

        word : (i * 4096 + low_mem + 7) / 4096 * 1024 ≡ 262144 + i * 1024
        word = omega arith

    unshare-copied :
        get_free_page m
          ≡ done (i * 4096 + low_mem) (record m { mem_map = set m.mem_map i 1; ram = ram' })
        → unshare p (m.ram (p / 4) / 4096 * 4096) m
          ≡ done tt (record m { mem_map = copied_map; ram = copied_ram })
    unfolding unshare dec_count copy_page write copied_map copied_ram
    unshare-copied taken =
        let from : m.ram (p / 4) / 4096 * 4096 / 4 ≡ m.ram (p / 4) / 4096 * 1024 = omega arith in
        let to : (i * 4096 + low_mem) / 4 ≡ 262144 + i * 1024 = omega arith in
        rw (
          taken,
          leb_of_le low_mem (m.ram (p / 4) / 4096 * 4096) t.managed.0,
          from,
          to,
          bit_or_seven (i * 4096 + low_mem) (omega arith),
        )

  un_wp_page_sole :
      count m (map_nr (m.ram (p / 4) / 4096 * 4096)) ≡ 1
      → un_wp_page p m ≡ done tt (record m { ram = store m.ram (p / 4) (bit_or (m.ram (p / 4)) 2) })
  unfolding un_wp_page write
  un_wp_page_sole one = rw (
    mask_fffff000 (m.ram (p / 4)) t.word,
    one,
    leb_of_le low_mem (m.ram (p / 4) / 4096 * 4096) t.managed.0,
  )

  pub un_wp_page_shared :
      (count m (map_nr (m.ram (p / 4) / 4096 * 4096)) == 1) ≡ false
      → un_wp_page p m ≡ unshare p (m.ram (p / 4) / 4096 * 4096) m
  unfolding un_wp_page
  un_wp_page_shared more = rw (
    mask_fffff000 (m.ram (p / 4)) t.word,
    more,
    leb_of_le low_mem (m.ram (p / 4) / 4096 * 4096) t.managed.0,
  )

  -- On a managed map, let the entry at `p` be present, its page managed and in use, and the
  -- entry stand neither in that page nor in a free one, and let some page be free. Then a write
  -- fault on the entry ends with the entry writable and its page used once, which holds the
  -- words of the old page; the old page keeps its words.
  pub un_wp_page-Private :
      (j : ℕ)
      → j < 3840
      → count m j ≡ 0
      → (m' : Mm) × (un_wp_page p m ≡ done tt m') × Private m p m'
  un_wp_page-Private j small free =
      elim (Bool-cases (count m (map_nr (m.ram (p / 4) / 4096 * 4096)) == 1)) [
        | inl one ↦
            let sole : count m (map_nr (m.ram (p / 4) / 4096 * 4096)) ≡ 1 = ground arith in
            (_, un_wp_page_sole sole, sole-Private p v t sole)
        | inr more ↦ go more (get_free_page-Alloc v)
      ]
    where
      go :
          (count m (map_nr (m.ram (p / 4) / 4096 * 4096)) == 1) ≡ false
          → Alloc m (get_free_page m)
          → (m' : Mm) × (un_wp_page p m ≡ done tt m') × Private m p m'
      go more (out_of_memory r all) = absurd (all j small free)
      go more (allocated i ram' r below free' above words) = (
        _,
        un_wp_page_shared more ∙ unshare-copied i ram' below free' words r,
        copied-Private i ram' below free' words,
      )
