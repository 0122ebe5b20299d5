-- ===== src/Mm/Run.antt =====
-- The memory that mm/ works on, and runs over it.
-- `ram` gives the 32-bit word at each word number: the word at the address `p` is number `p / 4`,
-- and mm/ goes only to addresses that are multiples of 4. `mem_map` is kept apart from it.
-- `invalidate()` only reloads the processor's cache of the tables, and has no counterpart.
use my_linux_kernel.Common.{ℕ, ◌/◌, ◌==◌, List, if◌then◌else◌}

-- LOW_MEM, PAGING_MEMORY >> 12 and USED
abbrev pub low_mem : ℕ
low_mem = 0x100000

abbrev pub paging_pages : ℕ
paging_pages = 3840

abbrev pub used : ℕ
used = 100

abbrev pub Ram : Type 0
Ram = ℕ → ℕ

pub record Mm : Type 0 where
  pub high_memory : ℕ
  pub mem_map : List ℕ
  pub ram : Ram

-- the messages of the calls of `panic` in mm/ and in kernel/fork.c
pub data Panic : Type 0 where
  free_above_high_memory : Panic
  free_unallocated : Panic
  free_unaligned : Panic
  free_swapper : Panic
  copy_unaligned : Panic
  copy_present : Panic
  wp_user_space : Panic
  different_bases : Panic
  data_below_code : Panic

-- `panic` never returns; `hang` is a loop that does not end.
pub data Run (A : Type 0) : Type 0 where
  done : A → Mm → Run A
  panic : Panic → Run A
  hang : Run A

abbrev pub M : Type 0 → Type 0
M A = Mm → Run A

abbrev pub pure : {A : Type 0} → A → M A
pure a = done a

module _ {A B : Type 0} where
  abbrev pub and_then : Run A → (A → M B) → Run B
  and_then (done a m) k = k a m
  and_then (panic p) k = panic p
  and_then hang k = hang

  infixl 5 ◌>>=◌ ◌>>◌
  abbrev pub ◌>>=◌ : M A → (A → M B) → M B
  r >>= k = λ m. and_then (r m) k

  abbrev pub ◌>>◌ : M A → M B → M B
  r >> k = r >>= λ _. k

abbrev pub fail : {A : Type 0} → Panic → M A
fail p m = panic p

abbrev pub store : Ram → ℕ → ℕ → Ram
store r w v n = if w == n then v else r n

-- `*p`, and `*p = v`
unfoldable pub read : ℕ → M ℕ
read p m = done (m.ram (p / 4)) m

unfoldable pub write : ℕ → ℕ → M (Unit {0})
write p v m = done tt (record m { ram = store m.ram (p / 4) v })
