-- ===== src/Strings/Compare.antt =====
-- The functions of lib/string.c that compare: strcmp, strncmp and memcmp. `lodsb` reads from the
-- second string, so the flags are those of the second byte against the first.
pub mod Order
use my_linux_kernel.Common.{
  ℕ, zero, suc, ◌+◌, ◌==◌, Bool, true, false, Option, none, some, if◌then◌else◌,
}
use my_linux_kernel.Common.Int.{ℤ, pos, negsuc}
use my_linux_kernel.Strings.Memory.{Memory, all_addresses, rounds, less, Flags, repe_cmpsb}

-- `movl $1,%eax`, `jl` and `negl`: 1 where the second byte is less, else -1.
abbrev pub outcome : Bool → ℤ
outcome lt = if lt then pos 1 else negsuc 0

unfoldable pub strcmp_loop : ℕ → ℕ → ℕ → Memory → Option ℤ
strcmp_loop zero cs ct m = none
strcmp_loop (suc fuel) cs ct m =
    let more = strcmp_loop fuel (cs + 1) (ct + 1) m in
    if m ct == m cs
    then if m ct == 0 then some (pos 0) else more
    else some (outcome (less (m ct) (m cs)))

unfoldable pub strcmp : ℕ → ℕ → Memory → Option ℤ
strcmp cs ct m = strcmp_loop all_addresses cs ct m

unfoldable pub strncmp_loop : ℕ → ℕ → ℕ → Memory → ℤ
strncmp_loop zero cs ct m = pos 0
strncmp_loop (suc n) cs ct m =
    let more = strncmp_loop n (cs + 1) (ct + 1) m in
    if m ct == m cs then if m ct == 0 then pos 0 else more else outcome (less (m ct) (m cs))

unfoldable pub strncmp : ℕ → ℕ → ℕ → Memory → ℤ
strncmp cs ct count m = strncmp_loop (rounds count) cs ct m

-- `flags` is what stands in the flags before: with a count of 0 nothing is compared.
unfoldable pub memcmp : ℕ → ℕ → ℕ → Memory → Flags → ℤ
memcmp cs ct count m flags =
    let after = (repe_cmpsb count ct cs m flags).1 in if after.zf then pos 0 else outcome after.lt
