-- ===== src/Console/Video.antt =====
-- Bytes of memory, and the string instructions that console.c runs on them (direction flag clear).
use my_linux_kernel.Common.{
  ℕ, zero, suc, ◌+◌, ◌-◌, ◌*◌, ◌/◌, ◌%◌, ◌≤◌, ◌≡◌, ◌==◌, ◌&&◌, ltb, leb, u8, if◌then◌else◌, arith,
  Bool,
}

abbrev pub Vram : Type 0
Vram = ℕ → ℕ

unfoldable pub store8 : Vram → ℕ → ℕ → Vram
store8 m a v b = if a == b then v else m b

-- The low byte first.
unfoldable pub store16 : Vram → ℕ → ℕ → Vram
unfolding store8
store16 m a w = store8 (store8 m a (u8 w)) (a + 1) (u8 (w / 256))

-- one `movsl`: four bytes are read, then written
unfoldable pub movsl : ℕ → ℕ → Vram → Vram
unfolding store8
movsl src dst m =
    store8 (store8 (store8 (store8 m dst (m src)) (dst + 1) (m (src + 1))) (dst + 2) (m (src + 2)))
      (dst + 3) (m (src + 3))

unfoldable pub rep_movsl : ℕ → ℕ → ℕ → Vram → Vram
unfolding movsl
rep_movsl zero src dst m = m
rep_movsl (suc n) src dst m = rep_movsl n (src + 4) (dst + 4) (movsl src dst m)

unfoldable pub rep_stosw : ℕ → ℕ → ℕ → Vram → Vram
unfolding store16
rep_stosw zero dst w m = m
rep_stosw (suc n) dst w m = rep_stosw n (dst + 2) w (store16 m dst w)

-- `b` is one of the `n` addresses from `a` on.
abbrev pub inside : ℕ → ℕ → ℕ → Bool
inside a n b = leb a b && ltb b (a + n)

movsl_lem :
    (src dst : ℕ) (m : Vram) (b : ℕ)
    → movsl src dst m b ≡ (if inside dst 4 b then m (src + (b - dst)) else m b)
unfolding movsl
movsl_lem src dst m b = ground arith

-- A copy to an address not above its source moves every byte, as if all were read before the
-- first is written, and leaves the other bytes.
pub rep_movsl_lem :
    (n src dst : ℕ) (m : Vram) (b : ℕ)
    → dst ≤ src
    → rep_movsl n src dst m b ≡ (if inside dst (n * 4) b then m (src + (b - dst)) else m b)
unfolding rep_movsl
rep_movsl_lem zero src dst m b down = ground arith
rep_movsl_lem (suc n) src dst m b down = ground (
  arith,
  rep_movsl_lem n (src + 4) (dst + 4) (movsl src dst m) b,
  movsl_lem src dst m b,
  movsl_lem src dst m (src + 4 + (b - (dst + 4))),
)

pub rep_stosw_lem :
    (n dst w : ℕ) (m : Vram) (b : ℕ)
    → rep_stosw n dst w m b
      ≡ (if inside dst (n * 2) b then if (b - dst) % 2 == 0 then u8 w else u8 (w / 256) else m b)
unfolding rep_stosw store16
rep_stosw_lem zero dst w m b = ground arith
rep_stosw_lem (suc n) dst w m b = ground (arith, rep_stosw_lem n (dst + 2) w (store16 m dst w) b)
