-- ===== src/Strings/Memory.antt =====
-- Bytes in memory, and the string instructions that lib/string.c is made of.
-- `memory a` is the byte at address `a`; no string or block reaches the end of the addresses. A
-- function that runs until it meets a byte takes as many rounds as there are addresses; `none` is a
-- run that is not over by then.
use my_linux_kernel.Common.{
  ℕ, zero, suc, ◌+◌, ◌-◌, ◌%◌, ◌==◌, ◌<◌, ◌≡◌, ◌≢◌, Bool, true, false, leb, ltb, if◌then◌else◌,
}

abbrev pub Memory : Type 0
Memory = ℕ → ℕ

abbrev pub store : Memory → ℕ → ℕ → Memory
store m a v b = if a == b then v else m b

abbrev pub all_addresses : ℕ
all_addresses = 4294967296

-- The number of rounds of a loop that starts with `decl count` and `js`: a count is a 32-bit word.
unfoldable pub rounds : ℕ → ℕ
rounds count = if leb count 0x80000000 then count else 0

-- `jl` after a comparison of the bytes `a` and `b`, which are signed.
unfoldable pub less : ℕ → ℕ → Bool
less a b = ltb ((a + 128) % 256) ((b + 128) % 256)

-- `rep movsb` upwards, and downwards from the last bytes.
unfoldable pub rep_movsb : ℕ → ℕ → ℕ → Memory → Memory
rep_movsb zero src dst m = m
rep_movsb (suc n) src dst m = rep_movsb n (src + 1) (dst + 1) (store m dst (m src))

unfoldable pub rep_movsb_down : ℕ → ℕ → ℕ → Memory → Memory
rep_movsb_down zero src dst m = m
rep_movsb_down (suc n) src dst m = rep_movsb_down n (src - 1) (dst - 1) (store m dst (m src))

-- `rep stosb` upwards
unfoldable pub rep_stosb : ℕ → ℕ → ℕ → Memory → Memory
rep_stosb zero dst c m = m
rep_stosb (suc n) dst c m = rep_stosb n (dst + 1) c (store m dst c)

-- `repne scasb` for the byte `c`: the address behind the last byte that it has looked at, what is
-- left of the count, and the zero flag, which is `zf` before.
unfoldable pub repne_scasb : ℕ → ℕ → ℕ → Memory → Bool → ℕ × ℕ × Bool
repne_scasb zero c p m zf = (p, 0, zf)
repne_scasb (suc n) c p m zf =
    let more = repne_scasb n c (p + 1) m false in if c == m p then (p + 1, n, true) else more

-- The flags that a comparison leaves: whether the bytes are equal, and whether the first is less.
pub record Flags : Type 0 where
  pub zf : Bool
  pub lt : Bool

-- `repe cmpsb` of the bytes at `s` and `d`: the address behind the last byte at `s`, and the flags.
unfoldable pub repe_cmpsb : ℕ → ℕ → ℕ → Memory → Flags → ℕ × Flags
unfolding less
repe_cmpsb zero s d m flags = (s, flags)
repe_cmpsb (suc n) s d m flags =
    let now : Flags = record { zf = m s == m d; lt = less (m s) (m d) } in
    let more = repe_cmpsb n (s + 1) (d + 1) m now in if m s == m d then more else (s + 1, now)

-- `notl` and `decl` of a 32-bit word
abbrev pub not_dec : ℕ → ℕ
not_dec left = (0xffffffff - left + 4294967295) % 4294967296

-- What five functions begin with: the length of the string at `s` by `repne scasb`, `notl` and
-- `decl`.
unfoldable pub scan_length : ℕ → Memory → ℕ
scan_length s m = not_dec (repne_scasb 0xffffffff 0 s m false).1

-- The byte `c` stands at `p + n`, and not before it from `p` on.
pub record First (c : ℕ) (m : Memory) (p n : ℕ) : Type 0 where
  pub before : (i : ℕ) → i < n → m (p + i) ≢ c
  pub here : m (p + n) ≡ c

-- The string at `s` has the length `n`.
abbrev pub IsString : Memory → ℕ → ℕ → Type 0
IsString m s n = First 0 m s n
