-- ===== src/Strings/Search.antt =====
-- The functions of lib/string.c that search: strlen, strchr, strrchr, strspn, strcspn, strpbrk,
-- strstr and memchr. The null pointer is 0.
pub mod Match
pub mod Span
pub mod Place
use my_linux_kernel.Common.{
  ℕ, zero, suc, ◌+◌, ◌-◌, ◌==◌, Bool, true, false, Option, none, some, not, if◌then◌else◌, u8,
}
use my_linux_kernel.Strings.Memory.{
  Memory, all_addresses, repne_scasb, Flags, repe_cmpsb, scan_length,
}

unfoldable pub strlen_loop : ℕ → ℕ → Memory → Option ℕ
strlen_loop zero p m = none
strlen_loop (suc fuel) p m =
    let more = strlen_loop fuel (p + 1) m in if m p == 0 then some p else more

abbrev pub minus : ℕ → Option ℕ → Option ℕ
minus s none = none
minus s (some p) = some (p - s)

unfoldable pub strlen : ℕ → Memory → Option ℕ
strlen s m = minus s (strlen_loop all_addresses s m)

unfoldable pub strchr_loop : ℕ → ℕ → ℕ → Memory → Option ℕ
strchr_loop zero s c m = none
strchr_loop (suc fuel) s c m =
    let more = strchr_loop fuel (s + 1) c m in
    if m s == c then some s else if m s == 0 then some 0 else more

unfoldable pub strchr : ℕ → ℕ → Memory → Option ℕ
strchr s c m = strchr_loop all_addresses s (u8 c) m

-- `res` is the last place that was found, 0 at first.
unfoldable pub strrchr_loop : ℕ → ℕ → ℕ → ℕ → Memory → Option ℕ
strrchr_loop zero res s c m = none
strrchr_loop (suc fuel) res s c m =
    let res' = if m s == c then s else res in
    let more = strrchr_loop fuel res' (s + 1) c m in if m s == 0 then some res' else more

unfoldable pub strrchr : ℕ → ℕ → Memory → Option ℕ
strrchr s c m = strrchr_loop all_addresses 0 s (u8 c) m

-- Whether the byte `c` is one of the `n` bytes at `ct`: the flag is off before, since `c` is not 0.
unfoldable pub is_one_of : ℕ → ℕ → ℕ → Memory → Bool
is_one_of n c ct m = (repne_scasb n c ct m false).2

-- The first place at `s` with a NUL, or with a byte for which `is_one_of` is `wanted`; the flag says
-- which.
unfoldable pub span_loop : Bool → ℕ → ℕ → ℕ → ℕ → Memory → Option (ℕ × Bool)
span_loop wanted zero n s ct m = none
span_loop wanted (suc fuel) n s ct m =
    let found = is_one_of n (m s) ct m in
    let more = span_loop wanted fuel n (s + 1) ct m in
    if m s == 0
    then some (s, false)
    else if if wanted then found else not found
    then some (s, true)
    else more

abbrev pub distance : ℕ → Option (ℕ × Bool) → Option ℕ
distance cs none = none
distance cs (some (p, hit)) = some (p - cs)

abbrev pub place : Option (ℕ × Bool) → Option ℕ
place none = none
place (some (p, hit)) = some (if hit then p else 0)

unfoldable pub strspn : ℕ → ℕ → Memory → Option ℕ
strspn cs ct m = distance cs (span_loop false all_addresses (scan_length ct m) cs ct m)

unfoldable pub strcspn : ℕ → ℕ → Memory → Option ℕ
strcspn cs ct m = distance cs (span_loop true all_addresses (scan_length ct m) cs ct m)

unfoldable pub strpbrk : ℕ → ℕ → Memory → Option ℕ
strpbrk cs ct m = place (span_loop true all_addresses (scan_length ct m) cs ct m)

-- `n` is the length of the string at `ct`; the flag is that of the `decl` before, if it is 0.
unfoldable pub strstr_loop : ℕ → ℕ → ℕ → ℕ → Memory → Option ℕ
strstr_loop zero n s ct m = none
strstr_loop (suc fuel) n s ct m =
    let compared = repe_cmpsb n s ct m (record { zf = n == 0; lt = false }) in
    let more = strstr_loop fuel n (s + 1) ct m in
    if compared.1.zf then some s else if m (compared.0 - 1) == 0 then some 0 else more

unfoldable pub strstr : ℕ → ℕ → Memory → Option ℕ
strstr cs ct m = strstr_loop all_addresses (scan_length ct m) cs ct m

unfoldable pub memchr : ℕ → ℕ → ℕ → Memory → ℕ
memchr cs c count m =
    let scanned = repne_scasb count (u8 c) cs m false in
    if count == 0 then 0 else if scanned.2 then scanned.0 - 1 else 0
