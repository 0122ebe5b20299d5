-- ===== src/Strings/Search/Match.antt =====
-- strstr of lib/string.c: the first place of a string in another.
use my_linux_kernel.Common.{
  ℕ, zero, suc, ◌+◌, ◌-◌, ◌≤◌, ◌<◌, ◌==◌, ◌≡◌, ◌≢◌, inl, inr, refl, ap, sym, subst, ◌∙◌, true,
  false, Bool-cases, arith, ltb, Option, some, if◌then◌else◌,
}
use my_linux_kernel.Strings.Memory.{Memory, IsString, all_addresses, Flags, repe_cmpsb, less}
use my_linux_kernel.Strings.First.{First-suc, scan_length-IsString}
use my_linux_kernel.Strings.Search.{strstr_loop, strstr}

-- The `n` bytes at `s` are those at `ct`.
abbrev pub Matches : Memory → ℕ → ℕ → ℕ → Type 0
Matches m s ct n = (k : ℕ) → k < n → m (s + k) ≡ m (ct + k)

Matches-suc :
    (n s ct : ℕ) (m : Memory) → m s ≡ m ct → Matches m (s + 1) (ct + 1) n → Matches m s ct (suc n)
Matches-suc n s ct m e rest zero small =
    let a : s + 0 ≡ s = omega arith in let b : ct + 0 ≡ ct = omega arith in rw (a, b) e
Matches-suc n s ct m e rest (suc k) small =
    let a : s + suc k ≡ s + 1 + k = omega arith in
    let b : ct + suc k ≡ ct + 1 + k = omega arith in rw (a, b) (rest k (omega arith))

data Cmp (m : Memory) (s ct n : ℕ) (r : ℕ × Flags) : Type 0 where
  equal : Matches m s ct n → r.1.zf ≡ true → Cmp m s ct n r
  unequal :
      (k : ℕ)
      → k < n
      → Matches m s ct k
      → m (s + k) ≢ m (ct + k)
      → r.0 ≡ s + k + 1
      → r.1.zf ≡ false
      → Cmp m s ct n r

Cmp-suc :
    (n s ct : ℕ) (m : Memory) {r : ℕ × Flags}
    → m s ≡ m ct
    → Cmp m (s + 1) (ct + 1) n r
    → Cmp m s ct (suc n) r
Cmp-suc n s ct m e (equal all z) = equal (Matches-suc n s ct m e all) z
Cmp-suc n s ct m e (unequal k small all ne at z) =
    let a : s + suc k ≡ s + 1 + k = omega arith in
    let b : ct + suc k ≡ ct + 1 + k = omega arith in
    unequal (suc k) (omega arith) (Matches-suc k s ct m e all) (rw (a, b) ne) (at ∙ omega arith) z

repe_cmpsb-Cmp :
    (n s ct : ℕ) (m : Memory) (flags : Flags)
    → (n ≡ 0 → flags.zf ≡ true)
    → Cmp m s ct n (repe_cmpsb n s ct m flags)
unfolding repe_cmpsb
repe_cmpsb-Cmp zero s ct m flags h = equal (λ k small. absurd (omega arith)) (h refl)
repe_cmpsb-Cmp (suc n) s ct m flags h = elim (Bool-cases (m s == m ct)) [
  | inl e ↦ rw e (
      Cmp-suc n s ct m (ground arith) (
        repe_cmpsb-Cmp n (s + 1) (ct + 1) m (record { zf = true; lt = less (m s) (m ct) })
          (λ z. refl)))
  | inr e ↦
      let a : s + 0 ≡ s = omega arith in
      let b : ct + 0 ≡ ct = omega arith in
      rw e (
        unequal 0 (omega arith) (λ k small. absurd (omega arith)) (rw (a, b) (λ q. ground arith))
          (omega arith) refl)
]

-- What strstr returns for strings of the lengths `a` and `n`: the first place where the second one
-- stands in the first, or 0 if there is none.
pub data Found (m : Memory) (cs ct a n r : ℕ) : Type 0 where
  found :
      (i : ℕ)
      → i + n ≤ a
      → Matches m (cs + i) ct n
      → ((j : ℕ) → j < i → ¬ Matches m (cs + j) ct n)
      → r ≡ cs + i
      → Found m cs ct a n r
  absent : ((j : ℕ) → j + n ≤ a → ¬ Matches m (cs + j) ct n) → r ≡ 0 → Found m cs ct a n r

-- No match at `cs`, and none of the places behind it for which `P` holds.
later :
    (P : ℕ → Type 0) (cs ct n : ℕ) (m : Memory)
    → ¬ Matches m cs ct n
    → ((j : ℕ) → P (suc j) → ¬ Matches m (cs + 1 + j) ct n)
    → (j : ℕ) → P j
    → ¬ Matches m (cs + j) ct n
later P cs ct n m nm rest zero p = let e : cs + 0 ≡ cs = omega arith in rw e nm
later P cs ct n m nm rest (suc j) p =
    let e : cs + suc j ≡ cs + 1 + j = omega arith in rw e (rest j p)

Found-suc :
    (cs ct a n r : ℕ) (m : Memory)
    → ¬ Matches m cs ct n
    → Found m (cs + 1) ct a n r
    → Found m cs ct (suc a) n r
Found-suc cs ct a n r m nm (found i small here before at) =
    let e : cs + suc i ≡ cs + 1 + i = omega arith in
    found (suc i) (omega arith) (rw e here)
      (later (λ j. j < suc i) cs ct n m nm (λ j h. before j (omega arith))) (at ∙ omega arith)
Found-suc cs ct a n r m nm (absent none_there z) =
    absent (later (λ j. j + n ≤ suc a) cs ct n m nm (λ j h. none_there j (omega arith))) z

-- A mismatch at a NUL: the string at `s` is shorter than the one at `ct`.
nul_at : (s ct a n k : ℕ) (m : Memory) → IsString m s a → k < n → m (s + k) ≡ 0 → a < n
nul_at s ct a n k m f small z = elim (Bool-cases (ltb k a)) [
  | inl before ↦ absurd (f.before k (ground arith) z)
  | inr behind ↦ ground arith
]

Matches-fit :
    (s ct a n : ℕ) (m : Memory) → IsString m s a → IsString m ct n → Matches m s ct n → n ≤ a
Matches-fit s ct a n m f g all = elim (Bool-cases (ltb a n)) [
  | inl over ↦ let h : a < n = ground arith in absurd (g.before a h (sym (all a h) ∙ f.here))
  | inr fits ↦ ground arith
]

-- A mismatch at a byte that is not NUL: the string at `s` is not empty.
not_over :
    (s ct a n k : ℕ) (m : Memory)
    → IsString m s a
    → IsString m ct n
    → k < n
    → Matches m s ct k
    → m (s + k) ≢ 0
    → a ≢ 0
not_over s ct a n zero m f g small all live z = live (ap (λ (i : ℕ). m (s + i)) (sym z) ∙ f.here)
not_over s ct a n (suc k) m f g small all live z =
    g.before 0 (omega arith)
      (sym (all 0 (omega arith)) ∙ ap (λ (i : ℕ). m (s + i)) (sym z) ∙ f.here)

-- One round, with the result of its comparison and what the later rounds return.
round_Found :
    (a n s ct : ℕ) (m : Memory) {compared : ℕ × Flags} {more : Option ℕ}
    → IsString m s a
    → IsString m ct n
    → Cmp m s ct n compared
    → (¬ Matches m s ct n → a ≢ 0 → (r : ℕ) × (more ≡ some r) × Found m s ct a n r)
    → (r : ℕ) × ((if compared.1.zf
          then some s
          else if m (compared.0 - 1) == 0
          then some 0
          else more)
        ≡ some r)
      × Found m s ct a n r
round_Found a n s ct m f g (equal all z) rest =
    let e : s + 0 ≡ s = omega arith in
    rw z (
      s,
      refl,
      found 0 (omega (arith, Matches-fit s ct a n m f g all)) (rw e all)
          (λ j h. absurd (omega arith)) (sym e),
    )
round_Found a n s ct m {compared} f g (unequal k small all ne at z) rest =
    let back : compared.0 - 1 ≡ s + k = omega arith in
    rw (z, back)
      (elim (Bool-cases (m (s + k) == 0)) [
        | inl nul ↦
            let short = nul_at s ct a n k m f small (ground arith) in
            rw nul (0, refl, absent (λ j h. absurd (omega arith)) refl)
        | inr live ↦ rw live (
            rest (λ every. ne (every k small))
              (not_over s ct a n k m f g small all (λ q. ground arith)))
      ])

strstr_loop-Found :
    (a fuel n s ct : ℕ) (m : Memory)
    → IsString m s a
    → IsString m ct n
    → a < fuel
    → (r : ℕ) × (strstr_loop fuel n s ct m ≡ some r) × Found m s ct a n r
unfolding strstr_loop
strstr_loop-Found a zero n s ct m f g small = absurd (omega arith)
strstr_loop-Found zero (suc fuel) n s ct m f g small =
    round_Found zero n s ct m f g
      (repe_cmpsb-Cmp n s ct m (record { zf = n == 0; lt = false }) (λ z. ground arith))
      (λ nm h. absurd (h refl))
strstr_loop-Found (suc a) (suc fuel) n s ct m f g small =
    let (r, e, rest) = strstr_loop-Found a fuel n (s + 1) ct m (First-suc f) g (omega arith) in
    round_Found (suc a) n s ct m f g
      (repe_cmpsb-Cmp n s ct m (record { zf = n == 0; lt = false }) (λ z. ground arith))
      (λ nm h. (r, e, Found-suc s ct a n r m nm rest))

-- For two strings strstr returns the first place of the second in the first, or NULL exactly
-- when it stands nowhere in it.
pub strstr-Found :
    (cs ct a n : ℕ) (m : Memory)
    → IsString m cs a
    → IsString m ct n
    → a < all_addresses
    → n < 0xffffffff
    → (r : ℕ) × (strstr cs ct m ≡ some r) × Found m cs ct a n r
unfolding strstr
strstr-Found cs ct a n m f g small few =
    subst
      (λ (k : ℕ). (r : ℕ) × (strstr_loop all_addresses k cs ct m ≡ some r) × Found m cs ct a n r)
      (sym (scan_length-IsString ct n m g few))
      (strstr_loop-Found a all_addresses n cs ct m f g small)
