-- ===== src/Strings/Compare/Order.antt =====
-- strcmp, strncmp and memcmp of lib/string.c: the first place where two strings differ.
use my_linux_kernel.Common.{
  ℕ, zero, suc, ◌+◌, ◌≤◌, ◌<◌, ◌==◌, ◌≡◌, ◌≢◌, ◌⊎◌, inl, inr, refl, ap, true, false, Bool-cases,
  arith, leb, some, if◌then◌else◌,
}
use my_linux_kernel.Common.Int.{ℤ, pos, negsuc}
use my_linux_kernel.Strings.Memory.{Memory, IsString, all_addresses, rounds, less}
use my_linux_kernel.Strings.First.{First-zero, First-suc, First-ne}
use my_linux_kernel.Strings.Compare.{strcmp_loop, strcmp, strncmp_loop, strncmp}

-- The strings at `cs` and `ct` agree in all that is compared, `count` bytes at most, or they differ
-- first in byte `i`, and the greater byte, with its sign, decides.
pub data Compared (m : Memory) (cs ct count : ℕ) (r : ℤ) : Type 0 where
  same :
      (n : ℕ)
      → ((i : ℕ) → i < n → m (cs + i) ≡ m (ct + i))
      → ((i : ℕ) → i < n → m (cs + i) ≢ 0)
      → (n ≡ count) ⊎ ((n < count) × (m (cs + n) ≡ 0) × (m (ct + n) ≡ 0))
      → r ≡ pos 0
      → Compared m cs ct count r
  differ :
      (i : ℕ)
      → i < count
      → ((j : ℕ) → j < i → m (cs + j) ≡ m (ct + j))
      → ((j : ℕ) → j < i → m (cs + j) ≢ 0)
      → m (cs + i) ≢ m (ct + i)
      → r ≡ (if less (m (ct + i)) (m (cs + i)) then pos 1 else negsuc 0)
      → Compared m cs ct count r

module _ (m : Memory) (cs ct : ℕ) where
  here : (s : ℕ) → m (s + 0) ≡ m s
  here s = ap m (omega arith)

  -- All bytes before `n`, from the first and from those behind it.
  behind :
      (P : ℕ → ℕ → Type 0)
      → P (m cs) (m ct)
      → {n : ℕ} → ((i : ℕ) → i < n → P (m (cs + 1 + i)) (m (ct + 1 + i)))
      → (i : ℕ) → i < suc n
      → P (m (cs + i)) (m (ct + i))
  behind P first rest zero small = rw (here cs, here ct) first
  behind P first rest (suc i) small =
      let a : cs + suc i ≡ cs + 1 + i = omega arith in
      let b : ct + suc i ≡ ct + 1 + i = omega arith in rw (a, b) (rest i (omega arith))

  Compared-suc :
      {count : ℕ} {r : ℤ}
      → m cs ≡ m ct
      → m cs ≢ 0
      → Compared m (cs + 1) (ct + 1) count r
      → Compared m cs ct (suc count) r
  Compared-suc e live (same n eq filled over z) =
      let a : cs + suc n ≡ cs + 1 + n = omega arith in
      let b : ct + suc n ≡ ct + 1 + n = omega arith in
      same (suc n) (behind (λ a b. a ≡ b) e eq) (behind (λ a b. a ≢ 0) live filled)
        (rw (a, b)
          (elim over [ inl q ↦ inl (omega arith) | inr (q, x, y) ↦ inr (omega arith, x, y) ]))
        z
  Compared-suc e live (differ i small eq filled ne z) =
      let a : cs + suc i ≡ cs + 1 + i = omega arith in
      let b : ct + suc i ≡ ct + 1 + i = omega arith in
      differ (suc i) (omega arith) (behind (λ a b. a ≡ b) e eq) (behind (λ a b. a ≢ 0) live filled)
        (rw (a, b) ne) (rw (a, b) z)

strncmp_loop-Compared : (n cs ct : ℕ) (m : Memory) → Compared m cs ct n (strncmp_loop n cs ct m)
unfolding strncmp_loop
strncmp_loop-Compared zero cs ct m =
    same 0 (λ i h. absurd (omega arith)) (λ i h. absurd (omega arith)) (inl refl) refl
strncmp_loop-Compared (suc n) cs ct m = elim (Bool-cases (m ct == m cs)) [
  | inl e ↦ elim (Bool-cases (m ct == 0)) [
    | inl z ↦
        rw (e, z)
          (same 0 (λ i h. absurd (omega arith)) (λ i h. absurd (omega arith))
            (inr (
              omega arith,
              rw (here m cs ct cs) (ground arith),
              rw (here m cs ct ct) (ground arith),
            ))
            refl)
    | inr live ↦
        rw (e, live)
          (Compared-suc m cs ct (ground arith) (ground arith)
            (strncmp_loop-Compared n (cs + 1) (ct + 1) m))
  ]
  | inr ne ↦ rw ne (
      differ 0 (omega arith) (λ j h. absurd (omega arith)) (λ j h. absurd (omega arith))
        (rw (here m cs ct cs, here m cs ct ct) (λ e. ground arith))
        (rw (here m cs ct cs, here m cs ct ct) refl))
]

strcmp_loop-strncmp_loop :
    (n fuel cs ct : ℕ) (m : Memory)
    → IsString m ct n
    → n < fuel
    → strcmp_loop fuel cs ct m ≡ some (strncmp_loop (suc n) cs ct m)
unfolding strcmp_loop strncmp_loop
strcmp_loop-strncmp_loop n zero cs ct m f small = absurd (omega arith)
strcmp_loop-strncmp_loop zero (suc fuel) cs ct m f small =
    let z : (m ct == 0) ≡ true = ground (arith, First-zero f) in
    elim (Bool-cases (m ct == m cs)) [ inl e ↦ rw (e, z) refl | inr e ↦ rw e refl ]
strcmp_loop-strncmp_loop (suc n) (suc fuel) cs ct m f small =
    let z : (m ct == 0) ≡ false = ground (arith, First-ne f) in
    elim (Bool-cases (m ct == m cs)) [
      | inl e ↦
          rw (e, z)
            (strcmp_loop-strncmp_loop n fuel (cs + 1) (ct + 1) m (First-suc f) (omega arith))
      | inr e ↦ rw e refl
    ]

-- Where the second argument is a string, strcmp returns: 0 if both strings are the same, else 1
-- or -1 by the order of the first bytes that differ, compared with their sign.
pub strcmp-Compared :
    (cs ct n : ℕ) (m : Memory)
    → IsString m ct n
    → n < all_addresses
    → (r : ℤ) × (strcmp cs ct m ≡ some r) × Compared m cs ct (suc n) r
unfolding strcmp
strcmp-Compared cs ct n m f small = (
  strncmp_loop (suc n) cs ct m,
  strcmp_loop-strncmp_loop n all_addresses cs ct m f small,
  strncmp_loop-Compared (suc n) cs ct m,
)

pub strncmp-Compared :
    (cs ct count : ℕ) (m : Memory)
    → count ≤ 0x80000000
    → Compared m cs ct count (strncmp cs ct count m)
unfolding strncmp rounds
strncmp-Compared cs ct count m small =
    let all : (if leb count 0x80000000 then count else 0) ≡ count = ground arith in
    rw all (strncmp_loop-Compared count cs ct m)
