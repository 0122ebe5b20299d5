-- ===== src/Strings/Search/Place.antt =====
-- strlen, strchr and memchr of lib/string.c: the first place of a byte.
use my_linux_kernel.Common.{
  ℕ, zero, suc, ◌+◌, ◌<◌, ◌==◌, ◌≡◌, ◌≢◌, inl, inr, refl, ap, ◌∙◌, true, false, Bool-cases, arith,
  some, u8,
}
use my_linux_kernel.Strings.Memory.{Memory, First, IsString, all_addresses}
use my_linux_kernel.Strings.First.{First-zero, First-suc, First-ne, First-cons}
use my_linux_kernel.Strings.Search.{strlen_loop, minus, strlen, strchr_loop, strchr}

strlen_loop-IsString :
    (n fuel s : ℕ) (m : Memory) → IsString m s n → n < fuel → strlen_loop fuel s m ≡ some (s + n)
unfolding strlen_loop
strlen_loop-IsString n zero s m f small = absurd (omega arith)
strlen_loop-IsString zero (suc fuel) s m f small =
    let z : (m s == 0) ≡ true = ground (arith, First-zero f) in
    rw z (ap (λ (p : ℕ). some p) (omega arith))
strlen_loop-IsString (suc n) (suc fuel) s m f small =
    let z : (m s == 0) ≡ false = ground (arith, First-ne f) in
    rw z (
      strlen_loop-IsString n fuel (s + 1) m (First-suc f) (omega arith)
      ∙ ap (λ (p : ℕ). some p) (omega arith))

pub strlen-IsString :
    (s n : ℕ) (m : Memory) → IsString m s n → n < all_addresses → strlen s m ≡ some n
unfolding strlen
strlen-IsString s n m f small =
    ap (minus s) (strlen_loop-IsString n all_addresses s m f small)
    ∙ ap (λ (p : ℕ). some p) (omega arith)

-- The first byte `c` of the `n` bytes from `s` on, or 0 if there is none.
pub data Place (c : ℕ) (m : Memory) (s n r : ℕ) : Type 0 where
  at : (i : ℕ) → i < n → First c m s i → r ≡ s + i → Place c m s n r
  nowhere : ((i : ℕ) → i < n → m (s + i) ≢ c) → r ≡ 0 → Place c m s n r

Place-suc :
    {c : ℕ} {m : Memory} {s n r : ℕ} → m s ≢ c → Place c m (s + 1) n r → Place c m s (suc n) r
Place-suc ne (at i small f e) = at (suc i) (omega arith) (First-cons ne f) (e ∙ omega arith)
Place-suc {c} {m} {s} {n} ne (nowhere none_there z) = nowhere none_here z
  where
    none_here : (i : ℕ) → i < suc n → m (s + i) ≢ c
    none_here zero small = let e : s + 0 ≡ s = omega arith in rw e ne
    none_here (suc i) small =
        let e : s + suc i ≡ s + 1 + i = omega arith in rw e (none_there i (omega arith))

here_at : (c : ℕ) (m : Memory) (s n : ℕ) → m s ≡ c → Place c m s (suc n) s
here_at c m s n e =
    let a : s + 0 ≡ s = omega arith in
    at 0 (omega arith) (record { before = λ i h. absurd (omega arith); here = rw a e })
      (omega arith)

strchr_loop-Place :
    (n fuel s c : ℕ) (m : Memory)
    → IsString m s n
    → n < fuel
    → (r : ℕ) × (strchr_loop fuel s c m ≡ some r) × Place c m s (suc n) r
unfolding strchr_loop
strchr_loop-Place n zero s c m f small = absurd (omega arith)
strchr_loop-Place zero (suc fuel) s c m f small = elim (Bool-cases (m s == c)) [
  | inl e ↦ rw e (s, refl, here_at c m s 0 (ground arith))
  | inr e ↦
      let z : (m s == 0) ≡ true = ground (arith, First-zero f) in
      rw (e, z)
        (
          0,
          refl,
          Place-suc {n = 0} (λ q. ground arith) (nowhere (λ i h. absurd (omega arith)) refl),
        )
]
strchr_loop-Place (suc n) (suc fuel) s c m f small = elim (Bool-cases (m s == c)) [
  | inl e ↦ rw e (s, refl, here_at c m s (suc n) (ground arith))
  | inr e ↦
      let z : (m s == 0) ≡ false = ground (arith, First-ne f) in
      let (r, ran, rest) = strchr_loop-Place n fuel (s + 1) c m (First-suc f) (omega arith) in
      rw (e, z) (r, ran, Place-suc (λ q. ground arith) rest)
]

pub strchr-Place :
    (s n c : ℕ) (m : Memory)
    → IsString m s n
    → n < all_addresses
    → (r : ℕ) × (strchr s c m ≡ some r) × Place (u8 c) m s (suc n) r
unfolding strchr
strchr-Place s n c m f small = strchr_loop-Place n all_addresses s (u8 c) m f small
