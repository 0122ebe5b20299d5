-- ===== src/Mm/Tables.antt =====
-- The page tables of mm/memory.c: free_page_tables, copy_page_tables, un_wp_page and do_wp_page.
pub mod Share
pub mod Free
pub mod Alike
pub mod Copy
pub mod Return
pub mod Entry
pub mod Fault
pub mod NoMemory
mod Tests
use my_linux_kernel.Common.{
  ℕ, zero, suc, ◌+◌, ◌-◌, ◌*◌, ◌/◌, ◌%◌, ◌==◌, ◌&&◌, ◌||◌, not, Bool, List, ltb, leb, get_or, set,
  bit_and, bit_or, add32, sub32, u8, if◌then◌else◌,
}
use my_linux_kernel.Common.Int.{ℤ, pos, negsuc}
use my_linux_kernel.Mm.Run.{
  low_mem, Ram, Mm, M, pure, fail, ◌>>=◌, ◌>>◌, done, store, read, write, free_unaligned,
  free_swapper, copy_unaligned, copy_present, wp_user_space,
}
use my_linux_kernel.Mm.Pages.{map_nr, dec8, free_page, get_free_page}

abbrev pub task_size : ℕ
task_size = 0x04000000

-- the bit P of an entry
abbrev pub present : ℕ → Bool
present entry = bit_and entry 1 == 1

-- the page that an entry leads to, and the mask that two loops use in its place
abbrev pub page_of : ℕ → ℕ
page_of entry = bit_and entry 0xfffff000

abbrev pub table_of : ℕ → ℕ
table_of entry = bit_and entry 0x0fffff00

-- the address of the entry of the page directory for the address `a`
abbrev pub dir_of : ℕ → ℕ
dir_of a = bit_and (a / 0x100000) 0xffc

abbrev pub unaligned : ℕ → Bool
unaligned a = not (bit_and a 0x3fffff == 0)

-- the number of page tables for `size` bytes
abbrev pub tables_for : ℕ → ℕ
tables_for size = add32 size 0x3fffff / 0x400000

-- One entry of a page table that is freed.
unfoldable pub free_entry : ℕ → M (Unit {0})
free_entry pg_table = do
  entry ← read pg_table
  if entry == 0
      then pure tt
      else ((if present entry then free_page (page_of entry) else pure tt) >> write pg_table 0)

unfoldable pub free_entries : ℕ → ℕ → M (Unit {0})
free_entries zero pg_table = pure tt
free_entries (suc nr) pg_table = free_entry pg_table >> free_entries nr (pg_table + 4)

-- One entry of the page directory: the pages, their table, and the entry itself.
unfoldable pub free_table : ℕ → M (Unit {0})
free_table dir = do
  entry ← read dir
  if not (present entry)
      then pure tt
      else (do free_entries 1024 (table_of entry); free_page (page_of entry); write dir 0)

unfoldable pub free_tables : ℕ → ℕ → M (Unit {0})
free_tables zero dir = pure tt
free_tables (suc size) dir = free_table dir >> free_tables size (dir + 4)

unfoldable pub free_page_tables : ℕ → ℕ → M ℤ
free_page_tables from size =
    if unaligned from
    then fail free_unaligned
    else (if from == 0
        then fail free_swapper
        else (do free_tables (tables_for size) (dir_of from); pure (pos 0)))

-- `mem_map[i]++` and `mem_map[i]--` on unsigned chars
unfoldable pub inc_count : ℕ → M (Unit {0})
inc_count i m = done tt (record m { mem_map = set m.mem_map i (u8 (get_or m.mem_map i 0 + 1)) })

unfoldable pub dec_count : ℕ → M (Unit {0})
dec_count i m = done tt (record m { mem_map = set m.mem_map i (dec8 (get_or m.mem_map i 0)) })

-- `this_page & ~2`
abbrev pub read_only : ℕ → ℕ
read_only entry = bit_and entry 0xfffffffd

-- A page above LOW_MEM becomes read-only for the parent too, and is counted once more.
unfoldable pub share : ℕ → ℕ → M (Unit {0})
share from_page_table this_page =
    if ltb low_mem this_page
    then (write from_page_table this_page >> inc_count (map_nr this_page))
    else pure tt

-- One entry of a page table that is copied: the page is shared, read-only on both sides.
unfoldable pub copy_entry : ℕ → ℕ → M (Unit {0})
copy_entry from_page_table to_page_table = do
  this_page ← read from_page_table
  if this_page == 0 || not (present this_page)
      then pure tt
      else (write to_page_table (read_only this_page)
          >> share from_page_table (read_only this_page))

unfoldable pub copy_entries : ℕ → ℕ → ℕ → M (Unit {0})
copy_entries zero from_page_table to_page_table = pure tt
copy_entries (suc nr) from_page_table to_page_table =
    copy_entry from_page_table to_page_table
    >> copy_entries nr (from_page_table + 4) (to_page_table + 4)

-- The loop over the entries of the page directory; it ends early where no page is free.
unfoldable pub copy_tables : ℕ → ℕ → ℕ → ℕ → M ℤ
copy_tables from zero from_dir to_dir = pure (pos 0)
copy_tables from (suc size) from_dir to_dir = do
  old ← read to_dir
  if present old then fail copy_present else do
    entry ← read from_dir
    let rest = copy_tables from size (from_dir + 4) (to_dir + 4)
    if not (present entry) then rest else do
      to_page_table ← get_free_page
      if to_page_table == 0 then pure (negsuc 0) else do
        write to_dir (bit_or to_page_table 7)
        copy_entries (if from == 0 then 0xa0 else 1024) (table_of entry) to_page_table
        rest

unfoldable pub copy_page_tables : ℕ → ℕ → ℕ → M ℤ
copy_page_tables from to size =
    if unaligned from || unaligned to
    then fail copy_unaligned
    else copy_tables from (tables_for size) (dir_of from) (dir_of to)

-- copy_page: `rep movsl`, `n` words upwards.
unfoldable pub copy_words : ℕ → ℕ → ℕ → Ram → Ram
copy_words zero from to r = r
copy_words (suc n) from to r = copy_words n (from + 1) (to + 1) (store r to (r from))

unfoldable pub copy_page : ℕ → ℕ → M (Unit {0})
copy_page from to m = done tt (record m { ram = copy_words 1024 (from / 4) (to / 4) m.ram })

-- The second half of un_wp_page: the page gets a copy of its own.
unfoldable pub unshare : ℕ → ℕ → M (Unit {0})
unshare table_entry old_page = do
  new_page ← get_free_page
  if leb low_mem old_page then dec_count (map_nr old_page) else pure tt
  copy_page old_page new_page
  write table_entry (bit_or new_page 7)

unfoldable pub un_wp_page : ℕ → M (Unit {0})
un_wp_page table_entry m =
    let entry = m.ram (table_entry / 4) in
    let old_page = page_of entry in
    if leb low_mem old_page && get_or m.mem_map (map_nr old_page) 0 == 1
    then write table_entry (bit_or entry 2) m
    else unshare table_entry old_page m

unfoldable pub do_wp_page : ℕ → ℕ → M (Unit {0})
do_wp_page error_code address = if ltb address task_size then fail wp_user_space else (do
  entry ← read (dir_of address)
  un_wp_page (add32 (bit_and (address / 0x400) 0xffc) (page_of entry)))
