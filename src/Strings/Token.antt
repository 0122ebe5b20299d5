-- ===== src/Strings/Token.antt =====
-- strtok of lib/string.c. `saved` is the variable ___strtok, which it reads and writes.
pub mod Tokens
use my_linux_kernel.Common.{
  ℕ, ◌+◌, ◌==◌, ◌||◌, ◌&&◌, not, Bool, true, false, Option, none, some, if◌then◌else◌,
}
use my_linux_kernel.Strings.Memory.{Memory, store, all_addresses, scan_length}
use my_linux_kernel.Strings.Search.{span_loop}

-- What strtok returns, ___strtok, and the memory.
pub record Token : Type 0 where
  pub res : ℕ
  pub saved : ℕ
  pub memory : Memory

abbrev no_token : Memory → Token
no_token m = record { res = 0; saved = 0; memory = m }

-- From label 3 on: the token starts at `p`, and ends at a byte of `ct`, which becomes a NUL, or at the
-- end of the string.
unfoldable pub end_token : ℕ → Memory → Option (ℕ × Bool) → Option Token
end_token p m none = none
end_token p m (some (q, hit)) =
    let cut = hit && not (m q == 0) in
    let m' = if cut then store m q 0 else m in
    some (
      if m' p == 0
      then no_token m'
      else record { res = p; saved = if cut then q + 1 else 0; memory = m' })

-- From the end of the loop at label 2 on: no token where it has met the end of the string.
unfoldable pub start_token : ℕ → ℕ → Memory → Option (ℕ × Bool) → Option Token
unfolding end_token
start_token n ct m none = none
start_token n ct m (some (p, hit)) =
    if not hit || m p == 0
    then some (no_token m)
    else end_token p m (span_loop true all_addresses n p ct m)

-- From label 1 on.
unfoldable pub next_token : ℕ → ℕ → Memory → Option Token
unfolding start_token
next_token s ct m =
    let n = scan_length ct m in
    if n == 0
    then some (no_token m)
    else start_token n ct m (span_loop false all_addresses n s ct m)

unfoldable pub strtok : ℕ → ℕ → ℕ → Memory → Option Token
unfolding next_token
strtok saved s ct m =
    if not (s == 0)
    then next_token s ct m
    else if saved == 0
    then some (no_token m)
    else next_token saved ct m
