-- ===== src/Common/Bits.antt =====
-- `bit_and` and `bit_or` with the masks that the kernel uses, as arithmetic.
use Prim.Native.Nat.{ℕ, zero, suc, ◌+◌, ◌*◌, ◌/◌, ◌%◌, ◌^◌, ◌≤◌, ◌<◌, min, max}
use Prim.Native.Nat.{bit_and, bit_or, digits, bitwise, bit_and-bitwise, bit_or-bitwise}
use mathlib.Core.Path.{◌≡◌, refl, ◌∙◌, ap}
use native.Mathlib.Nat.{pow-suc, one-le-pow, div-div-eq-div-mul}
use native.Mathlib.Omega.{arith}

-- The digits of a number do not depend on a count that is large enough.
module _ (rest : ℕ → ℕ) (op : ℕ → ℕ → ℕ) where
  bitwise_enough : (k n a b : ℕ) → a ≤ n → n ≤ k → digits rest op n a b ≡ bitwise rest op a b
  bitwise_enough k zero zero b small fits = refl
  bitwise_enough k zero (suc a) b small fits = absurd (omega arith)
  bitwise_enough k (suc n) zero b small fits = refl
  bitwise_enough zero (suc n) (suc a) b small fits = absurd (omega arith)
  bitwise_enough (suc k) (suc n) (suc a) b small fits = omega (
    arith,
    bitwise_enough k n (suc a / 2) (b / 2) (omega arith) (omega arith),
    bitwise_enough k a (suc a / 2) (b / 2) (omega arith) (omega arith),
  )

  bitwise_digit :
      (a b : ℕ)
      → bitwise rest op (suc a) b ≡ bitwise rest op (suc a / 2) (b / 2) * 2 + op (suc a % 2) (b % 2)
  bitwise_digit a b =
      omega (arith, bitwise_enough a a (suc a / 2) (b / 2) (omega arith) (omega arith))

pub bit_and_digit : (a b : ℕ) → bit_and a b ≡ bit_and (a / 2) (b / 2) * 2 + min (a % 2) (b % 2)
bit_and_digit zero b = simp bit_and-bitwise (omega arith)
bit_and_digit (suc a) b = simp bit_and-bitwise (bitwise_digit (λ d. 0) min a b)

pub bit_or_digit : (a b : ℕ) → bit_or a b ≡ bit_or (a / 2) (b / 2) * 2 + max (a % 2) (b % 2)
bit_or_digit zero b = simp bit_or-bitwise (omega arith)
bit_or_digit (suc a) b = simp bit_or-bitwise (bitwise_digit (λ d. d) max a b)

bit_and-zero_below : (k a : ℕ) → a ≤ k → bit_and a 0 ≡ 0
bit_and-zero_below k zero small = refl
bit_and-zero_below zero (suc a) small = absurd (omega arith)
bit_and-zero_below (suc k) (suc a) small =
    omega (arith, bit_and_digit (suc a) 0, bit_and-zero_below k (suc a / 2) (omega arith))

pub bit_and-zero : (a : ℕ) → bit_and a 0 ≡ 0
bit_and-zero a = bit_and-zero_below a a (omega arith)

bit_or-zero_below : (k a : ℕ) → a ≤ k → bit_or a 0 ≡ a
bit_or-zero_below k zero small = refl
bit_or-zero_below zero (suc a) small = absurd (omega arith)
bit_or-zero_below (suc k) (suc a) small =
    omega (arith, bit_or_digit (suc a) 0, bit_or-zero_below k (suc a / 2) (omega arith))

pub bit_or-zero : (a : ℕ) → bit_or a 0 ≡ a
bit_or-zero a = bit_or-zero_below a a (omega arith)

double_block : (q k : ℕ) → q * 2 ^ suc k ≡ 2 * (q * 2 ^ k)
double_block q k = omega (arith, ap (λ (p : ℕ). q * p) (pow-suc 2 k))

bit_and_block : (k q r m : ℕ) → r < 2 ^ k → suc m ≡ 2 ^ k → bit_and (q * 2 ^ k + r) m ≡ r
bit_and_block zero q r m small e = let z : m ≡ 0 = omega arith in rw (z, bit_and-zero) (omega arith)
bit_and_block (suc k) q r m small e = ground (
  arith,
  bit_and_digit (q * 2 ^ suc k + r) m,
  double_block q k,
  pow-suc 2 k,
  one-le-pow k 2,
  bit_and_block k q (r / 2) (m / 2),
)

-- A mask of the bits below bit `k` is the remainder by `2 ^ k`.
pub bit_and_low : (k a m : ℕ) → suc m ≡ 2 ^ k → bit_and a m ≡ a % 2 ^ k
bit_and_low k a m e = ground (arith, one-le-pow k 2, bit_and_block k (a / 2 ^ k) (a % 2 ^ k) m)

-- Setting bits that are clear adds them.
pub bit_or_fill : (k q r : ℕ) → r < 2 ^ k → bit_or (q * 2 ^ k) r ≡ q * 2 ^ k + r
bit_or_fill zero q r small = ground (arith, bit_or-zero q)
bit_or_fill (suc k) q r small =
    ground (arith, bit_or_digit (q * 2 ^ suc k) r, double_block q k, bit_or_fill k q (r / 2))

-- A mask whose low bit is clear drops the low bit, and so on for each bit below the mask.
pub bit_and_shift : (k a m : ℕ) → bit_and a (m * 2 ^ k) ≡ bit_and (a / 2 ^ k) m * 2 ^ k
bit_and_shift zero a m =
    let e : m * 2 ^ 0 ≡ m = omega arith in
    let d : a / 2 ^ 0 ≡ a = omega arith in rw (e, d) (omega arith)
bit_and_shift (suc k) a m =
    let half : m * 2 ^ suc k / 2 ≡ m * 2 ^ k = omega (arith, double_block m k) in
    let low : m * 2 ^ suc k % 2 ≡ 0 = omega (arith, double_block m k) in
    let deep : a / 2 / 2 ^ k ≡ a / 2 ^ suc k =
      div-div-eq-div-mul a 2 (2 ^ k) ∙ ap (λ (p : ℕ). a / p) (omega (arith, pow-suc 2 k)) in
    rw (bit_and_digit a (m * 2 ^ suc k), half, low, bit_and_shift k (a / 2) m, deep)
      (omega (arith, double_block (bit_and (a / 2 ^ suc k) m) k))

-- the masks of the source
pub mask_fffff000 : (a : ℕ) → a < 4294967296 → bit_and a 0xfffff000 ≡ a / 4096 * 4096
mask_fffff000 a small =
    omega (arith, bit_and_shift 12 a 0xfffff, bit_and_low 20 (a / 4096) 0xfffff refl)

pub mask_ffc : (a : ℕ) → bit_and a 0xffc ≡ a / 4 % 1024 * 4
mask_ffc a = omega (arith, bit_and_shift 2 a 0x3ff, bit_and_low 10 (a / 4) 0x3ff refl)

-- Setting bit 1, and setting the low three bits of a number where they are clear.
pub bit_or_two : (a : ℕ) → bit_or a 2 ≡ a / 4 * 4 + 2 + a % 2
bit_or_two a = omega (arith, bit_or_digit a 2, bit_or_digit (a / 2) 1, bit_or-zero (a / 2 / 2))

pub bit_or_seven : (a : ℕ) → a % 8 ≡ 0 → bit_or a 7 ≡ a + 7
bit_or_seven a clear =
    let e : a ≡ a / 8 * 8 = omega arith in
    rw e (omega (arith, bit_or_fill 3 (a / 8) 7 (omega arith), e))
