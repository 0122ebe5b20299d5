-- ===== src/Strings/Copy/Text.antt =====
-- strcpy and strcat of lib/string.c on strings.
use my_linux_kernel.Common.{
  ℕ, zero, suc, ◌+◌, ◌-◌, ◌≤◌, ◌<◌, ◌==◌, ◌≡◌, ◌≢◌, ◌⊎◌, inl, inr, refl, ap, ◌∙◌, true, false,
  arith, some, if◌then◌else◌,
}
use my_linux_kernel.Strings.Memory.{Memory, store, IsString, all_addresses, rep_movsb}
use my_linux_kernel.Strings.First.{First-zero, First-suc, First-ne, First-store, repne_scasb-First}
use my_linux_kernel.Strings.Copy.{copy_until_nul, end_of, returning, strcpy, strcat}
use my_linux_kernel.Strings.Copy.Blocks.{inside, rep_movsb_lem, rep_movsb_apart}

-- A string of length `n` at `src` that is copied upwards to `dst` is read before it is overwritten.
abbrev pub Clear : ℕ → ℕ → ℕ → Type 0
Clear src n dst = (dst ≤ src) ⊎ (src + n < dst)

module _ {m : Memory} {src : ℕ} where
  pub is_nul : IsString m src zero → (m src == 0) ≡ true
  is_nul f = let z : m src ≡ 0 = First-zero f in ground arith

  pub not_nul : {n : ℕ} → IsString m src (suc n) → (m src == 0) ≡ false
  not_nul f = let z : m src ≢ 0 = First-ne f in ground arith

pub rest_of :
    {m : Memory} {src n : ℕ} (dst : ℕ)
    → IsString m src (suc n)
    → Clear src (suc n) dst
    → IsString (store m dst (m src)) (src + 1) n
rest_of {m} {src} {n} dst f clear = First-store dst (m src) (omega arith) (First-suc f)

pub ap₃ :
    {A : Type 0} (f : ℕ → ℕ → ℕ → A) {a a' b b' c c' : ℕ}
    → a ≡ a'
    → b ≡ b'
    → c ≡ c'
    → f a b c ≡ f a' b' c'
ap₃ f p q r = λ i. f (p i) (q i) (r i)

copy_until_nul-IsString :
    (n fuel src dst : ℕ) (m : Memory)
    → IsString m src n
    → Clear src n dst
    → n < fuel
    → copy_until_nul fuel src dst m ≡ some (rep_movsb (suc n) src dst m)
unfolding copy_until_nul rep_movsb
copy_until_nul-IsString n zero src dst m f clear small = absurd (omega arith)
copy_until_nul-IsString zero (suc fuel) src dst m f clear small = rw (is_nul f) refl
copy_until_nul-IsString (suc n) (suc fuel) src dst m f clear small = rw (not_nul f) (
    copy_until_nul-IsString n fuel (src + 1) (dst + 1) (store m dst (m src)) (rest_of dst f clear)
      (omega arith) (omega arith))

pub end_of-IsString :
    (dest n : ℕ) (m : Memory) → IsString m dest n → n < 0xffffffff → end_of dest m ≡ dest + n
unfolding end_of
end_of-IsString dest n m f small =
    ap (λ r. r.0 - 1) (repne_scasb-First 0xffffffff 0 dest n m false f small) ∙ omega arith

-- The memory `m'` is `m` but for the `n` bytes from `dst` on, which are those from `src` on in `m`.
pub record Copied (m : Memory) (src dst n : ℕ) (m' : Memory) : Type 0 where
  pub copied : (i : ℕ) → i < n → m' (dst + i) ≡ m (src + i)
  pub kept : (b : ℕ) → inside dst n b ≡ false → m' b ≡ m b

pub rep_movsb-Copied :
    (n src dst : ℕ) (m : Memory)
    → (dst ≤ src) ⊎ (src + n ≤ dst)
    → Copied m src dst n (rep_movsb n src dst m)
rep_movsb-Copied n src dst m clear = record {
  copied = λ i small.
      let here : inside dst n (dst + i) ≡ true = ground arith in
      let same : src + (dst + i - dst) ≡ src + i = omega arith in
      at (dst + i) ∙ rw (here, same) refl;
  kept = λ b out. at b ∙ rw out refl;
}
  where
    at : (b : ℕ) → rep_movsb n src dst m b ≡ (if inside dst n b then m (src + (b - dst)) else m b)
    at b = elim clear [
      | inl down ↦ rep_movsb_lem n src dst m b down
      | inr up ↦ rep_movsb_apart n src dst m b up
    ]

pub strcpy_lem :
    (dest src n : ℕ) (m : Memory)
    → IsString m src n
    → Clear src n dest
    → n < 0xffffffff
    → (m' : Memory) × (strcpy dest src m ≡ some (dest, m')) × Copied m src dest (suc n) m'
unfolding strcpy
strcpy_lem dest src n m f clear small = (
  rep_movsb (suc n) src dest m,
  ap (returning dest) (copy_until_nul-IsString n all_addresses src dest m f clear (omega arith)),
  rep_movsb-Copied (suc n) src dest m (omega arith),
)

pub strcat_lem :
    (dest src d n : ℕ) (m : Memory)
    → IsString m dest d
    → IsString m src n
    → Clear src n (dest + d)
    → d < 0xffffffff
    → n < 0xffffffff
    → (m' : Memory) × (strcat dest src m ≡ some (dest, m')) × Copied m src (dest + d) (suc n) m'
unfolding strcat
strcat_lem dest src d n m g f clear few small = (
  rep_movsb (suc n) src (dest + d) m,
  ap (λ e. returning dest (copy_until_nul all_addresses src e m)) (end_of-IsString dest d m g few)
      ∙ ap (returning dest)
          (copy_until_nul-IsString n all_addresses src (dest + d) m f clear (omega arith)),
  rep_movsb-Copied (suc n) src (dest + d) m (omega arith),
)
