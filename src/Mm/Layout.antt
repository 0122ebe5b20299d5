-- ===== src/Mm/Layout.antt =====
-- main of kernel/main.c up to its call of mem_init: how the memory is divided.
use my_linux_kernel.Common.{
  ℕ, ◌+◌, ◌*◌, ◌%◌, ◌≤◌, ◌<◌, ◌≡◌, ◌∙◌, ltb, leb, ◌&&◌, arith, bit_and, if◌then◌else◌,
}
use my_linux_kernel.Common.Bits.{mask_fffff000}
use my_linux_kernel.Mm.Run.{low_mem, used, Mm}
use my_linux_kernel.Mm.Pages.{mem_init}
use my_linux_kernel.Mm.Pages.Alloc.{count, IsManaged}
use my_linux_kernel.Mm.Pages.Init.{mem_init-count, mem_init-IsManaged}

-- `memory_end` from EXT_MEM_K, an unsigned short that the loader has stored at 0x90002
unfoldable pub memory_end : ℕ → ℕ
memory_end ext_mem_k =
    let bytes = bit_and (0x100000 + ext_mem_k * 1024) 0xfffff000 in
    if ltb 0x1000000 bytes then 0x1000000 else bytes

unfoldable pub buffer_memory_end : ℕ → ℕ
buffer_memory_end memory_end =
    if ltb 0xc00000 memory_end
    then 0x400000
    else (if ltb 0x600000 memory_end then 0x200000 else 0x100000)

unfoldable pub init_memory : ℕ → Mm → Mm
init_memory ext_mem_k m =
    let end_mem = memory_end ext_mem_k in mem_init (buffer_memory_end end_mem) end_mem m

pub memory_end_lem :
    (k : ℕ)
    → k < 65536
    → (low_mem ≤ memory_end k) × (memory_end k ≤ 0x1000000) × (memory_end k % 4096 ≡ 0)
unfolding memory_end
memory_end_lem k small = rw (mask_fffff000 (0x100000 + k * 1024) (omega arith)) (ground arith)

buffer_memory_end_lem :
    (e : ℕ)
    → low_mem ≤ e
    → (low_mem ≤ buffer_memory_end e) × (buffer_memory_end e ≤ e) × (buffer_memory_end e % 4096 ≡ 0)
unfolding buffer_memory_end
buffer_memory_end_lem e low = ground arith

-- Whatever the size of the extended memory, a 16-bit number of kB, main hands mem_init bounds
-- that leave a managed map, where the free pages are those between the end of the buffers and
-- the end of the memory.
pub init_memory-IsManaged :
    (k : ℕ) (m : Mm)
    → k < 65536
    → IsManaged (init_memory k m)
      × ((j : ℕ)
          → j < 3840
          → let page = low_mem + j * 4096 in
            count (init_memory k m) j ≡ (
              if leb (buffer_memory_end (memory_end k)) page && ltb page (memory_end k)
              then 0
              else used))
unfolding init_memory
init_memory-IsManaged k m small =
    let e = memory_end_lem k small in
    let b = buffer_memory_end_lem (memory_end k) e.0 in
    (
      mem_init-IsManaged (buffer_memory_end (memory_end k)) (memory_end k) m b.0 b.1 e.1 b.2,
      λ j in_map.
          mem_init-count (buffer_memory_end (memory_end k)) (memory_end k) m j b.0 b.1 e.1 b.2
            in_map
          ∙ whole (buffer_memory_end (memory_end k)) (memory_end k) j e.2,
    )
  where
    whole :
        (b e j : ℕ)
        → e % 4096 ≡ 0
        → let page = low_mem + j * 4096 in
          (if leb b page && leb (page + 4096) e then 0 else used)
          ≡ (if leb b page && ltb page e then 0 else used)
    whole b e j aligned = ground arith
