-- ===== src/Mm/Pages.antt =====
-- free_page and mem_init of mm/memory.c, and get_free_page of mm/swap.c.
pub mod Init
pub mod Alloc
pub mod Free
mod Tests
use my_linux_kernel.Common.{
  ℕ, zero, suc, ◌+◌, ◌-◌, ◌*◌, ◌/◌, ◌==◌, List, Option, none, some, ltb, leb, get_or, set,
  replicate, add32, sub32, if◌then◌else◌,
}
use my_linux_kernel.Mm.Run.{
  low_mem, paging_pages, used, Ram, Mm, M, Run, done, panic, hang, store, free_above_high_memory,
  free_unallocated,
}

-- MAP_NR
abbrev pub map_nr : ℕ → ℕ
map_nr addr = sub32 addr low_mem / 4096

-- `mem_map[i]--` on an unsigned char
abbrev pub dec8 : ℕ → ℕ
dec8 n = if n == 0 then 255 else n - 1

unfoldable pub free_page : ℕ → M (Unit {0})
free_page addr m =
    if ltb addr low_mem
    then done tt m
    else (if leb m.high_memory addr
        then panic free_above_high_memory
        else (let i = map_nr addr in
            let n = get_or m.mem_map i 0 in
            if n == 0
            then panic free_unallocated
            else done tt (record m { mem_map = set m.mem_map i (dec8 n) })))

-- `repne scasb` with the direction flag set: the greatest number below `n` of a free page.
unfoldable pub scan_free : ℕ → List ℕ → Option ℕ
scan_free zero map = none
scan_free (suc n) map = let below = scan_free n map in if get_or map n 1 == 0 then some n else below

-- `rep stosl` of zeros with the direction flag set: `n` words, from number `w` down.
unfoldable pub clear_words : ℕ → ℕ → Ram → Ram
clear_words zero w r = r
clear_words (suc n) w r = clear_words n (w - 1) (store r w 0)

-- What one run of the assembler text does with the number that the scan has found: the page is
-- marked and cleared, or `res`, which is in eax, is left as it is.
unfoldable pub grab : Option ℕ → ℕ → Mm → ℕ × Mm
grab none res m = (res, m)
grab (some i) res m =
    let page = i * 4096 + low_mem in
    (
      page,
      record m { mem_map = set m.mem_map i 1; ram = clear_words 1024 ((page + 4092) / 4) m.ram },
    )

unfoldable pub take_page : ℕ → Mm → ℕ × Mm
unfolding grab
take_page res m = grab (scan_free paging_pages m.mem_map) res m

-- `goto repeat` while the page is above HIGH_MEMORY. `__res` is the register eax, 0 at first, and
-- keeps its value where the scan finds nothing; the scan reads its low byte, which is 0 for a page.
unfoldable pub get_free_loop : ℕ → ℕ → M ℕ
get_free_loop zero res m = hang
get_free_loop (suc fuel) res m =
    let (page, m') = take_page res m in
    let again = get_free_loop fuel page m' in if leb m.high_memory page then again else done page m'

-- Each round before the last takes a page, so a run that is not over after one round more than
-- there are pages never ends.
unfoldable pub get_free_page : M ℕ
get_free_page = get_free_loop (paging_pages + 2) 0

-- The loops of mem_init: all pages are used, then `n` pages from number `i` on are free.
unfoldable pub mark_free : ℕ → ℕ → List ℕ → List ℕ
mark_free zero i map = map
mark_free (suc n) i map = mark_free n (i + 1) (set map i 0)

-- `>> 12` on a signed long
abbrev pub sar12 : ℕ → ℕ
sar12 d = if ltb d 0x80000000 then d / 4096 else 0xfff00000 + d / 4096

unfoldable pub mem_init : ℕ → ℕ → Mm → Mm
mem_init start_mem end_mem m = record m {
  high_memory = end_mem;
  mem_map =
      mark_free (sar12 (sub32 end_mem start_mem)) (map_nr start_mem) (replicate paging_pages used);
}
