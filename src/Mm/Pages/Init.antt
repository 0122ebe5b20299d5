-- ===== src/Mm/Pages/Init.antt =====
-- mem_init of mm/memory.c: the pages that it frees.
use my_linux_kernel.Common.{
  ℕ, zero, suc, ◌+◌, ◌-◌, ◌*◌, ◌/◌, ◌%◌, ◌≤◌, ◌<◌, ◌≡◌, refl, ◌∙◌, ◌&&◌, List, ltb, leb, get_or,
  set, length, length-set, get_or-set, length-replicate, replicate, arith, if◌then◌else◌, sub32,
}
use my_linux_kernel.Mm.Run.{low_mem, used, Mm}
use my_linux_kernel.Mm.Pages.{map_nr, sar12, mark_free, mem_init}
use my_linux_kernel.Mm.Pages.Alloc.{count, IsManaged}

length-mark_free : (n i : ℕ) (map : List ℕ) → length (mark_free n i map) ≡ length map
unfolding mark_free
length-mark_free zero i map = refl
length-mark_free (suc n) i map = length-mark_free n (i + 1) (set map i 0) ∙ length-set map i 0

get_or-mark_free :
    (n i : ℕ) (map : List ℕ) (j : ℕ)
    → i + n ≤ length map
    → get_or (mark_free n i map) j 0 ≡ (if leb i j && ltb j (i + n) then 0 else get_or map j 0)
unfolding mark_free
get_or-mark_free zero i map j fits = ground arith
get_or-mark_free (suc n) i map j fits =
    ground
      (arith, get_or-mark_free n (i + 1) (set map i 0) j, length-set map i 0, get_or-set map i j 0)

pub get_or-replicate : (n a j : ℕ) → j < n → get_or (replicate n a) j 0 ≡ a
get_or-replicate zero a j h = absurd (omega arith)
get_or-replicate (suc n) a zero h = refl
get_or-replicate (suc n) a (suc j) h = get_or-replicate n a j (omega arith)

-- For LOW_MEM ≤ start_mem ≤ end_mem ≤ 16 MB with start_mem at the start of a page, a page is
-- free after mem_init exactly if it lies wholly between start_mem and end_mem, and its count is
-- USED otherwise.
pub mem_init-count :
    (start_mem end_mem : ℕ) (m : Mm) (j : ℕ)
    → low_mem ≤ start_mem
    → start_mem ≤ end_mem
    → end_mem ≤ 0x1000000
    → start_mem % 4096 ≡ 0
    → j < 3840
    → count (mem_init start_mem end_mem m) j ≡ (
        if leb start_mem (low_mem + j * 4096) && leb (low_mem + j * 4096 + 4096) end_mem
        then 0
        else used)
unfolding mem_init
mem_init-count start_mem end_mem m j low order high aligned small =
    let pages : sar12 (sub32 end_mem start_mem) ≡ (end_mem - start_mem) / 4096 = ground arith in
    let fits : map_nr start_mem + (end_mem - start_mem) / 4096 ≤ length (replicate 3840 used) =
      omega (arith, length-replicate 3840 used) in
    rw
      (
        pages,
        get_or-mark_free ((end_mem - start_mem) / 4096) (map_nr start_mem) (replicate 3840 used) j
            fits,
        get_or-replicate 3840 used j small,
      )
      (ground arith)

-- It leaves a managed map.
pub mem_init-IsManaged :
    (start_mem end_mem : ℕ) (m : Mm)
    → low_mem ≤ start_mem
    → start_mem ≤ end_mem
    → end_mem ≤ 0x1000000
    → start_mem % 4096 ≡ 0
    → IsManaged (mem_init start_mem end_mem m)
mem_init-IsManaged start_mem end_mem m low order high aligned = record {
  entries = unfold mem_init in length-mark_free _ _ _ ∙ length-replicate 3840 used;
  from = unfold mem_init in omega arith;
  to = unfold mem_init in high;
  above = λ j small over.
      let beyond : end_mem ≤ low_mem + j * 4096 = unfold mem_init in over in
      rw (mem_init-count start_mem end_mem m j low order high aligned small) (ground arith);
}
