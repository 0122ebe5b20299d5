-- ===== src/Strings/Copy/Blocks.antt =====
-- The bytes that the copying loops of lib/string.c leave in memory.
use my_linux_kernel.Common.{
  ℕ, zero, suc, ◌+◌, ◌-◌, ◌≤◌, ◌≡◌, inl, inr, refl, ◌∙◌, ◌&&◌, Bool, Bool-cases, arith, ltb, leb,
  if◌then◌else◌,
}
use my_linux_kernel.Strings.Memory.{Memory, store, rep_movsb, rep_movsb_down, rep_stosb}
use my_linux_kernel.Strings.Copy.{memmove}

-- `b` is one of the `n` addresses from `a` on.
abbrev pub inside : ℕ → ℕ → ℕ → Bool
inside a n b = leb a b && ltb b (a + n)

pub rep_movsb_lem :
    (n src dst : ℕ) (m : Memory) (b : ℕ)
    → dst ≤ src
    → rep_movsb n src dst m b ≡ (if inside dst n b then m (src + (b - dst)) else m b)
unfolding rep_movsb
rep_movsb_lem zero src dst m b down = ground arith
rep_movsb_lem (suc n) src dst m b down =
    ground (arith, rep_movsb_lem n (src + 1) (dst + 1) (store m dst (m src)) b)

-- The same where the blocks do not overlap.
pub rep_movsb_apart :
    (n src dst : ℕ) (m : Memory) (b : ℕ)
    → src + n ≤ dst
    → rep_movsb n src dst m b ≡ (if inside dst n b then m (src + (b - dst)) else m b)
unfolding rep_movsb
rep_movsb_apart zero src dst m b up = ground arith
rep_movsb_apart (suc n) src dst m b up =
    ground (arith, rep_movsb_apart n (src + 1) (dst + 1) (store m dst (m src)) b)

down_step :
    (n src dst : ℕ) (m : Memory) (b : ℕ)
    → src ≤ dst
    → (if inside dst n b
        then store m (dst + n) (m (src + n)) (src + (b - dst))
        else store m (dst + n) (m (src + n)) b)
      ≡ (if inside dst (suc n) b then m (src + (b - dst)) else m b)
down_step n src dst m b up = ground arith

-- Downwards, from the last bytes of the two blocks at `src` and `dst`.
pub rep_movsb_down_lem :
    (n src dst : ℕ) (m : Memory) (b : ℕ)
    → src ≤ dst
    → rep_movsb_down n (src + n - 1) (dst + n - 1) m b
      ≡ (if inside dst n b then m (src + (b - dst)) else m b)
unfolding rep_movsb_down
rep_movsb_down_lem zero src dst m b up = ground arith
rep_movsb_down_lem (suc n) src dst m b up =
    let s : src + suc n - 1 ≡ src + n = omega arith in
    let d : dst + suc n - 1 ≡ dst + n = omega arith in
    rw (s, d)
      (rep_movsb_down_lem n src dst (store m (dst + n) (m (src + n))) b up
        ∙ down_step n src dst m b up)

pub rep_stosb_lem :
    (n dst c : ℕ) (m : Memory) (b : ℕ) → rep_stosb n dst c m b ≡ (if inside dst n b then c else m b)
unfolding rep_stosb
rep_stosb_lem zero dst c m b = ground arith
rep_stosb_lem (suc n) dst c m b = ground (arith, rep_stosb_lem n (dst + 1) c (store m dst c) b)

-- memmove returns dest and leaves each of the n bytes there as that of the source was before,
-- also where the blocks overlap in either direction, and every other byte as it was.
pub memmove_lem :
    (dest src n : ℕ) (m : Memory) (b : ℕ)
    → ((memmove dest src n m).0 ≡ dest)
      × ((memmove dest src n m).1 b ≡ (if inside dest n b then m (src + (b - dest)) else m b))
unfolding memmove
memmove_lem dest src n m b = elim (Bool-cases (ltb dest src)) [
  | inl below ↦ rw below (refl, rep_movsb_lem n src dest m b (ground arith))
  | inr above ↦ rw above (refl, rep_movsb_down_lem n src dest m b (ground arith))
]
