-- ===== src/Mm/Tables/NoMemory.antt =====
-- un_wp_page of mm/memory.c where get_free_page returns 0.
use my_linux_kernel.Common.{
  ℕ, ◌+◌, ◌*◌, ◌/◌, ◌<◌, ◌≡◌, ◌≢◌, inr, ◌∙◌, ◌==◌, false, get_or, set, arith, leb_of_le,
}
use my_linux_kernel.Mm.Run.{low_mem, Mm, done, store, write}
use my_linux_kernel.Mm.Pages.{map_nr, dec8, get_free_page}
use my_linux_kernel.Mm.Pages.Alloc.{
  count, IsManaged, Alloc, out_of_memory, allocated, get_free_page-Alloc,
}
use my_linux_kernel.Mm.Tables.{copy_words, copy_page, dec_count, unshare, un_wp_page}
use my_linux_kernel.Mm.Tables.Entry.{IsEntry, copy_words_lem}
use my_linux_kernel.Mm.Tables.Fault.{un_wp_page_shared}

module _ {m : Mm} (p : ℕ) (v : IsManaged m) (t : IsEntry m p)
    (full : (j : ℕ) → j < 3840 → count m j ≢ 0) where
  no_page : get_free_page m ≡ done 0 m
  no_page = go (get_free_page-Alloc v)
    where
      go : Alloc m (get_free_page m) → get_free_page m ≡ done 0 m
      go (out_of_memory r all) = r
      go (allocated i ram' r below free above words) = absurd (full i (omega arith) free)

  -- The state that the fault leaves.
  abbrev overwritten : Mm
  overwritten =
      let nr = map_nr (m.ram (p / 4) / 4096 * 4096) in
      record m {
        mem_map = set m.mem_map nr (dec8 (get_or m.mem_map nr 0));
        ram = store (copy_words 1024 (m.ram (p / 4) / 4096 * 1024) 0 m.ram) (p / 4) 7;
      }

  unshare-overwritten : unshare p (m.ram (p / 4) / 4096 * 4096) m ≡ done tt overwritten
  unfolding unshare dec_count copy_page write
  unshare-overwritten =
      let from : m.ram (p / 4) / 4096 * 4096 / 4 ≡ m.ram (p / 4) / 4096 * 1024 = omega arith in
      rw (no_page, leb_of_le low_mem (m.ram (p / 4) / 4096 * 4096) t.managed.0, from)

  -- On a managed map where all pages are in use, let the entry at `p` be as for the copy on
  -- write, its page with a count other than 1. Then a write fault on the entry ends with the
  -- entry 7: page 0, the page directory's, writable for the user. The words of the old page
  -- have replaced those of the page directory.
  pub un_wp_page-overwrites_directory :
      count m (map_nr (m.ram (p / 4) / 4096 * 4096)) ≢ 1
      → (m' : Mm) × (un_wp_page p m ≡ done tt m')
        × (m'.ram (p / 4) ≡ 7)
        × ((k : ℕ) → k < 1024 → k ≢ p / 4 → m'.ram k ≡ m.ram (m.ram (p / 4) / 4096 * 1024 + k))
  un_wp_page-overwrites_directory several = (
    overwritten,
    un_wp_page_shared p v t (ground arith) ∙ unshare-overwritten,
    ground arith,
    λ k small ne.
        let far : (p / 4 == k) ≡ false = ground arith in
        let managed = t.managed in
        rw far (
          ground (
            arith,
            copy_words_lem 1024 (m.ram (p / 4) / 4096 * 1024) 0 m.ram k (inr (omega arith)),
          )),
  )
