-- ===== src/Boot/Mapped.antt =====
-- The memory of the first task: what kernel/head.S has mapped, divided by main of kernel/main.c.
use my_linux_kernel.Common.{
  ℕ, ◌+◌, ◌-◌, ◌*◌, ◌≤◌, ◌<◌, ◌≡◌, ◌∙◌, refl, arith, leb, ltb, ◌&&◌, true, false, if◌then◌else◌,
}
use my_linux_kernel.Common.Bits.{mask_fffff000}
use my_linux_kernel.Mm.Run.{Ram, Mm, low_mem, used}
use my_linux_kernel.Mm.Pages.{mem_init}
use my_linux_kernel.Mm.Pages.Alloc.{count, IsManaged}
use my_linux_kernel.Mm.Layout.{memory_end, buffer_memory_end, init_memory, init_memory-IsManaged}
use my_linux_kernel.Mm.Tables.Copy.{IsCopyable, needed, spare}
use my_linux_kernel.Boot.Paging.{setup_paging, setup_paging_lem}
use my_linux_kernel.Boot.Identity.{identity-IsCopyable, identity_needed, identity_spare}

-- With 15 MB of extended memory or more the memory ends at 16 MB, the buffers at 4 MB.
full_end : (k : ℕ) → 15360 ≤ k → k < 65536 → memory_end k ≡ 0x1000000
unfolding memory_end
full_end k from small = rw (mask_fffff000 (0x100000 + k * 1024) (omega arith)) (ground arith)

buffer_end : buffer_memory_end 0x1000000 ≡ 0x400000
unfolding buffer_memory_end
buffer_end = refl

init_high : (k : ℕ) (m : Mm) → (init_memory k m).high_memory ≡ memory_end k
unfolding init_memory mem_init
init_high k m = refl

init_ram : (k : ℕ) (m : Mm) → (init_memory k m).ram ≡ m.ram
unfolding init_memory mem_init
init_ram k m = refl

init_counts :
    (k : ℕ) (m : Mm) (j : ℕ)
    → 15360 ≤ k
    → k < 65536
    → j < 3840
    → count (init_memory k m) j ≡ (if ltb j 768 then 100 else 0)
init_counts k m j from small in_map =
    (init_memory-IsManaged k m small).1 j in_map
    ∙ rw (full_end k from small, buffer_end) (bounds j in_map)
  where
    bounds :
        (j : ℕ)
        → j < 3840
        → (if leb 0x400000 (low_mem + j * 4096) && ltb (low_mem + j * 4096) 0x1000000
            then 0
            else used)
          ≡ (if ltb j 768 then 100 else 0)
    bounds j in_map = ground arith

-- The memory after the calls of setup_paging and of mem_init.
abbrev pub first_memory : ℕ → Ram → Mm → Mm
first_memory ext_mem_k r m = init_memory ext_mem_k (record m { ram = setup_paging r })

module _ (ext_mem_k : ℕ) (r : Ram) (m : Mm) (from : 15360 ≤ ext_mem_k) (size : ext_mem_k < 65536)
    (words : (x : ℕ) → r x < 4294967296) where
  ram_lem :
      (x : ℕ)
      → (first_memory ext_mem_k r m).ram x ≡ (
          if ltb x 4
          then (x + 1) * 0x1000 + 7
          else if ltb x 1024
          then 0
          else if ltb x 5120
          then (x - 1024) * 0x1000 + 7
          else r x)
  ram_lem x = rw (init_ram ext_mem_k (record m { ram = setup_paging r })) (setup_paging_lem r x)

  first_managed : IsManaged (first_memory ext_mem_k r m)
  first_managed = (init_memory-IsManaged ext_mem_k (record m { ram = setup_paging r }) size).0

  first_high : (first_memory ext_mem_k r m).high_memory ≡ 0x1000000
  first_high =
      init_high ext_mem_k (record m { ram = setup_paging r }) ∙ full_end ext_mem_k from size

  first_counts :
      (j : ℕ) → j < 3840 → count (first_memory ext_mem_k r m) j ≡ (if ltb j 768 then 100 else 0)
  first_counts j small = init_counts ext_mem_k (record m { ram = setup_paging r }) j from size small

  first_dirs : (k : ℕ) → k < 4 → (first_memory ext_mem_k r m).ram k ≡ (k + 1) * 0x1000 + 7
  first_dirs k small = let low : ltb k 4 ≡ true = ground arith in ram_lem k ∙ rw low refl

  first_empty : (k : ℕ) → 4 ≤ k → k < 1024 → (first_memory ext_mem_k r m).ram k ≡ 0
  first_empty k above small =
      let high : ltb k 4 ≡ false = ground arith in
      let low : ltb k 1024 ≡ true = ground arith in ram_lem k ∙ rw (high, low) refl

  first_entries :
      (x : ℕ) → 1024 ≤ x → x < 5120 → (first_memory ext_mem_k r m).ram x ≡ (x - 1024) * 0x1000 + 7
  first_entries x above small = ram_lem x ∙ in_table x (r x) above small
    where
      in_table :
          (x old : ℕ)
          → 1024 ≤ x
          → x < 5120
          → (if ltb x 4
              then (x + 1) * 0x1000 + 7
              else if ltb x 1024
              then 0
              else if ltb x 5120
              then (x - 1024) * 0x1000 + 7
              else old)
            ≡ (x - 1024) * 0x1000 + 7
      in_table x old above small = ground arith

  first_words : (x : ℕ) → (first_memory ext_mem_k r m).ram x < 4294967296
  first_words x = bound _ x (r x) (ram_lem x) (words x)
    where
      bound :
          (y x old : ℕ)
          → y ≡ (
              if ltb x 4
              then (x + 1) * 0x1000 + 7
              else if ltb x 1024
              then 0
              else if ltb x 5120
              then (x - 1024) * 0x1000 + 7
              else old)
          → old < 4294967296
          → y < 4294967296
      bound y x old at small = ground arith

  pub first-IsCopyable :
      (t : ℕ) → 4 ≤ t → t + 4 ≤ 1024 → IsCopyable 160 4 0 t (first_memory ext_mem_k r m)
  first-IsCopyable =
      identity-IsCopyable (first_memory ext_mem_k r m) first_managed first_high first_counts
        first_dirs first_empty first_entries first_words

  pub first_needed : needed 4 0 (first_memory ext_mem_k r m).ram ≡ 4
  first_needed =
      identity_needed (first_memory ext_mem_k r m) first_managed first_high first_counts first_dirs
        first_empty first_entries first_words

  pub first_spare : 4 < spare 160 4 0 (first_memory ext_mem_k r m)
  first_spare =
      identity_spare (first_memory ext_mem_k r m) first_managed first_high first_counts first_dirs
        first_empty first_entries first_words
