-- ===== src/Strings/Copy.antt =====
-- The functions of lib/string.c that write: strcpy, strncpy, strcat, strncat, memcpy, memmove and
-- memset. Each returns its first argument, and the memory that it leaves.
pub mod Blocks
pub mod Text
pub mod Padding
pub mod Append
use my_linux_kernel.Common.{
  ℕ, zero, suc, ◌+◌, ◌-◌, ◌==◌, Bool, true, false, Option, none, some, ltb, if◌then◌else◌, u8,
}
use my_linux_kernel.Strings.Memory.{
  Memory, store, all_addresses, rounds, rep_movsb, rep_movsb_down, rep_stosb, repne_scasb,
}

-- `lodsb` and `stosb` until a NUL has been copied
unfoldable pub copy_until_nul : ℕ → ℕ → ℕ → Memory → Option Memory
copy_until_nul zero src dst m = none
copy_until_nul (suc fuel) src dst m =
    let m' = store m dst (m src) in
    let more = copy_until_nul fuel (src + 1) (dst + 1) m' in if m src == 0 then some m' else more

abbrev pub returning : ℕ → Option Memory → Option (ℕ × Memory)
returning dest none = none
returning dest (some m) = some (dest, m)

unfoldable pub strcpy : ℕ → ℕ → Memory → Option (ℕ × Memory)
strcpy dest src m = returning dest (copy_until_nul all_addresses src dest m)

-- The loop of strncpy: behind a NUL it fills up with the NUL.
unfoldable pub copy_or_fill : ℕ → ℕ → ℕ → Memory → Memory
copy_or_fill zero src dst m = m
copy_or_fill (suc n) src dst m =
    let m' = store m dst (m src) in
    let more = copy_or_fill n (src + 1) (dst + 1) m' in
    if m src == 0 then rep_stosb n (dst + 1) (m src) m' else more

unfoldable pub strncpy : ℕ → ℕ → ℕ → Memory → ℕ × Memory
strncpy dest src count m = (dest, copy_or_fill (rounds count) src dest m)

-- the place of the NUL: `repne scasb` and `decl`
unfoldable pub end_of : ℕ → Memory → ℕ
end_of dest m = (repne_scasb 0xffffffff 0 dest m false).0 - 1

unfoldable pub strcat : ℕ → ℕ → Memory → Option (ℕ × Memory)
strcat dest src m = returning dest (copy_until_nul all_addresses src (end_of dest m) m)

-- The loop of strncat, and the NUL that it writes behind it, also where it has copied one.
unfoldable pub copy_and_end : ℕ → ℕ → ℕ → Memory → Memory
copy_and_end zero src dst m = store m dst 0
copy_and_end (suc n) src dst m =
    let m' = store m dst (m src) in
    let more = copy_and_end n (src + 1) (dst + 1) m' in
    if m src == 0 then store m' (dst + 1) 0 else more

unfoldable pub strncat : ℕ → ℕ → ℕ → Memory → ℕ × Memory
strncat dest src count m = (dest, copy_and_end (rounds count) src (end_of dest m) m)

-- The count of `rep` is unsigned.
unfoldable pub memcpy : ℕ → ℕ → ℕ → Memory → ℕ × Memory
memcpy dest src n m = (dest, rep_movsb n src dest m)

unfoldable pub memmove : ℕ → ℕ → ℕ → Memory → ℕ × Memory
memmove dest src n m =
    let up = rep_movsb n src dest m in
    let down = rep_movsb_down n (src + n - 1) (dest + n - 1) m in
    (dest, if ltb dest src then up else down)

unfoldable pub memset : ℕ → ℕ → ℕ → Memory → ℕ × Memory
memset s c count m = (s, rep_stosb count s (u8 c) m)
