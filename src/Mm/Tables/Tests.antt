-- ===== src/Mm/Tables/Tests.antt =====
-- Runs of the page table functions, and witnesses of their theorems. The word 1024 is an entry of a
-- page table: page 0x100000, present, for the user, not writable.
use my_linux_kernel.Common.{
  ℕ, ◌+◌, ◌*◌, ◌/◌, ◌≡◌, ◌≢◌, ◌<◌, ◌≤◌, ◌%◌, refl, ◌∙◌, inl, [], ◌==◌, if◌then◌else◌, arith, get_or,
}
use my_linux_kernel.Mm.Run.{Mm, done}
use my_linux_kernel.Mm.Pages.{map_nr, mem_init}
use my_linux_kernel.Mm.Pages.Alloc.{count, IsManaged}
use my_linux_kernel.Mm.Pages.Init.{mem_init-count, mem_init-IsManaged}
use my_linux_kernel.Mm.Tables.{copy_entries, un_wp_page}
use my_linux_kernel.Mm.Tables.Share.{Shared, copy_entries-Shared}
use my_linux_kernel.Mm.Tables.Entry.{IsEntry, Private}
use my_linux_kernel.Mm.Tables.Fault.{un_wp_page-Private}
use my_linux_kernel.Mm.Tables.NoMemory.{un_wp_page-overwrites_directory}

abbrev mapped : Mm
mapped = record { high_memory = 0; mem_map = []; ram = λ w. if w == 1024 then 0x100005 else w }

-- Some pages are free in the one, none in the other.
abbrev roomy : Mm
roomy = mem_init 0x101000 0x200000 mapped

abbrev crowded : Mm
crowded = mem_init 0x200000 0x200000 mapped

roomy-IsManaged : IsManaged roomy
roomy-IsManaged =
    mem_init-IsManaged 0x101000 0x200000 mapped (omega arith) (omega arith) (omega arith) refl

crowded-IsManaged : IsManaged crowded
crowded-IsManaged =
    mem_init-IsManaged 0x200000 0x200000 mapped (omega arith) (omega arith) (omega arith) refl

module _ (start : ℕ) (low : 0x101000 ≤ start) (high : start ≤ 0x200000)
    (aligned : start % 4096 ≡ 0) where
  first_count : count (mem_init start 0x200000 mapped) 0 ≡ 100
  first_count =
      mem_init-count start 0x200000 mapped 0 (omega arith) high (omega arith) aligned (omega arith)
      ∙ ground arith

  mapped-IsEntry : IsEntry (mem_init start 0x200000 mapped) 0x1000
  mapped-IsEntry = record {
    word = unfold mem_init in omega arith;
    is_present = unfold mem_init in refl;
    managed = unfold mem_init in (omega arith, omega arith);
    in_use = λ z.
        let first : get_or (mem_init start 0x200000 mapped).mem_map 0 0 ≡ 0 =
          unfold mem_init in z in
        omega (arith, first_count);
    not_inside = unfold mem_init in omega arith;
    not_free = λ i small free. ground arith;
  }

crowded-Full : (j : ℕ) → j < 3840 → count crowded j ≢ 0
crowded-Full j small z =
    let at =
      mem_init-count 0x200000 0x200000 mapped j (omega arith) (omega arith) (omega arith) refl
        small in
    ground arith

un_wp_page-Private_example :
    (m' : Mm) × (un_wp_page 0x1000 roomy ≡ done tt m') × Private roomy 0x1000 m'
un_wp_page-Private_example =
    un_wp_page-Private 0x1000 roomy-IsManaged
      (mapped-IsEntry 0x101000 (omega arith) (omega arith) refl) 5 (omega arith)
      (mem_init-count 0x101000 0x200000 mapped 5 (omega arith) (omega arith) (omega arith) refl
        (omega arith))

page_of_entry : map_nr (crowded.ram 1024 / 4096 * 4096) ≡ 0
unfolding mem_init
page_of_entry = refl

several : count crowded (map_nr (crowded.ram 1024 / 4096 * 4096)) ≢ 1
several =
    rw page_of_entry (λ one. omega (arith, first_count 0x200000 (omega arith) (omega arith) refl))

un_wp_page-overwrites_directory_example :
    (m' : Mm) × (un_wp_page 0x1000 crowded ≡ done tt m')
    × (m'.ram 1024 ≡ 7)
    × ((k : ℕ) → k < 1024 → k ≢ 1024 → m'.ram k ≡ crowded.ram (crowded.ram 1024 / 4096 * 1024 + k))
un_wp_page-overwrites_directory_example =
    un_wp_page-overwrites_directory 0x1000 crowded-IsManaged
      (mapped-IsEntry 0x200000 (omega arith) (omega arith) refl) crowded-Full several

copy_entries-Shared_example :
    (m' : Mm) × (copy_entries 2 4096 8192 mapped ≡ done tt m') × Shared 2 1024 2048 mapped m'
copy_entries-Shared_example = copy_entries-Shared 2 1024 2048 mapped (inl (omega arith))
