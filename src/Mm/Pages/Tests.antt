-- ===== src/Mm/Pages/Tests.antt =====
-- Runs of the page functions, and witnesses of their theorems: all 15 MB are managed, of
-- which the last page is free.
use my_linux_kernel.Common.{ℕ, ◌≡◌, ◌≢◌, refl, arith, [], suc, leb, false, ◌-◌, set}
use my_linux_kernel.Mm.Run.{Mm, done}
use my_linux_kernel.Mm.Pages.{
  free_page, mem_init, get_free_page, get_free_loop, take_page, scan_free, mark_free, grab,
}
use my_linux_kernel.Mm.Pages.Alloc.{count, IsManaged, Alloc, get_free_page-Alloc}
use my_linux_kernel.Mm.Pages.Init.{mem_init-IsManaged}
use my_linux_kernel.Mm.Pages.Free.{Managed, free_page-used}

abbrev blank : Mm
blank = record { high_memory = 0; mem_map = []; ram = λ w. 7 }

abbrev booted : Mm
booted = mem_init 0xfff000 0x1000000 blank

booted-IsManaged : IsManaged booted
booted-IsManaged =
    mem_init-IsManaged 0xfff000 0x1000000 blank (omega arith) (omega arith) (omega arith) refl

first_in_use : count booted 0 ≡ 100
unfolding mem_init mark_free
first_in_use = refl

last_page : (take_page 0 booted).0 ≡ 0xfff000
unfolding take_page scan_free mem_init mark_free grab
last_page = refl

first_round :
    (fuel : ℕ) (m : Mm)
    → leb m.high_memory (take_page 0 m).0 ≡ false
    → get_free_loop (suc fuel) 0 m ≡ done (take_page 0 m).0 (take_page 0 m).1
unfolding get_free_loop
first_round fuel m e = rw e refl

in_memory : leb booted.high_memory (take_page 0 booted).0 ≡ false
unfolding mem_init
in_memory = rw last_page refl

taken : get_free_page booted ≡ done (take_page 0 booted).0 (take_page 0 booted).1
unfolding get_free_page
taken = first_round 3841 booted in_memory

managed : Managed booted 0x100000
unfolding mem_init
managed = (omega arith, omega arith)

in_use : count booted 0 ≢ 0
in_use e = omega (arith, first_in_use)

used_up : Mm
used_up = record booted { mem_map = set booted.mem_map 0 (count booted 0 - 1) }

get_free_page-Alloc_example : Alloc booted (get_free_page booted)
get_free_page-Alloc_example = get_free_page-Alloc booted-IsManaged

freed : free_page 0x100000 booted ≡ done tt used_up
unfolding used_up
freed = free_page-used 0x100000 booted-IsManaged managed in_use

not_null : (take_page 0 booted).0 ≢ 0
not_null e = omega (arith, last_page)
