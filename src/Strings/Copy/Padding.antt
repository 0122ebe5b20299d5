-- ===== src/Strings/Copy/Padding.antt =====
-- strncpy of lib/string.c on strings.
use my_linux_kernel.Common.{
  ℕ, zero, suc, ◌+◌, ◌-◌, ◌≤◌, ◌<◌, ◌==◌, ◌≡◌, inl, inr, refl, ap₂, ◌∙◌, true, false, Bool-cases,
  arith, ltb, leb, if◌then◌else◌,
}
use my_linux_kernel.Strings.Memory.{Memory, store, IsString, rounds, rep_movsb, rep_stosb}
use my_linux_kernel.Strings.First.{First-zero}
use my_linux_kernel.Strings.Copy.{copy_or_fill, strncpy}
use my_linux_kernel.Strings.Copy.Blocks.{inside, rep_stosb_lem}
use my_linux_kernel.Strings.Copy.Text.{
  Clear, Copied, is_nul, not_nul, rest_of, ap₃, rep_movsb-Copied,
}

copy_or_fill-IsString :
    (n k src dst : ℕ) (m : Memory)
    → IsString m src n
    → Clear src n dst
    → n < k
    → copy_or_fill k src dst m ≡ rep_stosb (k - n - 1) (dst + n + 1) 0 (rep_movsb (suc n) src dst m)
unfolding copy_or_fill rep_movsb
copy_or_fill-IsString n zero src dst m f clear small = absurd (omega arith)
copy_or_fill-IsString zero (suc k) src dst m f clear small = rw (is_nul f) (
    ap₃ (λ (a b c : ℕ). rep_stosb a b c (store m dst (m src))) (omega arith) (omega arith)
      (First-zero f))
copy_or_fill-IsString (suc n) (suc k) src dst m f clear small =
    rw
      (
        not_nul f,
        copy_or_fill-IsString n k (src + 1) (dst + 1) (store m dst (m src)) (rest_of dst f clear)
            (omega arith) (omega arith),
      )
      (ap₂ (λ (a b : ℕ). rep_stosb a b 0 (rep_movsb (suc (suc n)) src dst m)) (omega arith)
        (omega arith))

-- The count is used up before the NUL.
copy_or_fill_short :
    (k n src dst : ℕ) (m : Memory)
    → IsString m src n
    → Clear src n dst
    → k ≤ n
    → copy_or_fill k src dst m ≡ rep_movsb k src dst m
unfolding copy_or_fill rep_movsb
copy_or_fill_short zero n src dst m f clear small = refl
copy_or_fill_short (suc k) zero src dst m f clear small = absurd (omega arith)
copy_or_fill_short (suc k) (suc n) src dst m f clear small = rw (not_nul f) (
    copy_or_fill_short k n (src + 1) (dst + 1) (store m dst (m src)) (rest_of dst f clear)
      (omega arith) (omega arith))

-- What strncpy shall leave: the string, and NULs up to the count.
pub record Padded (m : Memory) (src dst n count : ℕ) (m' : Memory) : Type 0 where
  pub text : (i : ℕ) → i < n → i < count → m' (dst + i) ≡ m (src + i)
  pub nuls : (i : ℕ) → n ≤ i → i < count → m' (dst + i) ≡ 0
  pub kept : (b : ℕ) → inside dst count b ≡ false → m' b ≡ m b

filled-Padded :
    (n k src dst : ℕ) (m : Memory)
    → IsString m src n
    → Clear src n dst
    → n < k
    → Padded m src dst n k (rep_stosb (k - n - 1) (dst + n + 1) 0 (rep_movsb (suc n) src dst m))
filled-Padded n k src dst m f clear small = record {
  text = λ i a b.
      let out : inside (dst + n + 1) (k - n - 1) (dst + i) ≡ false = ground arith in
      fill (dst + i) ∙ rw out (copy.copied i (omega arith));
  nuls = λ i a b. elim (Bool-cases (i == n)) [
    | inl e ↦
        let same : i ≡ n = ground arith in
        let out : inside (dst + n + 1) (k - n - 1) (dst + n) ≡ false = ground arith in
        rw same (fill (dst + n) ∙ rw out (copy.copied n (omega arith)) ∙ f.here)
    | inr e ↦
        let here : inside (dst + n + 1) (k - n - 1) (dst + i) ≡ true = ground arith in
        fill (dst + i) ∙ rw here refl
  ];
  kept = λ b out.
      let off : inside (dst + n + 1) (k - n - 1) b ≡ false = ground arith in
      fill b ∙ rw off (copy.kept b (ground arith));
}
  where
    copy : Copied m src dst (suc n) (rep_movsb (suc n) src dst m)
    copy = rep_movsb-Copied (suc n) src dst m (omega arith)

    fill :
        (b : ℕ)
        → rep_stosb (k - n - 1) (dst + n + 1) 0 (rep_movsb (suc n) src dst m) b
          ≡ (if inside (dst + n + 1) (k - n - 1) b then 0 else rep_movsb (suc n) src dst m b)
    fill b = rep_stosb_lem (k - n - 1) (dst + n + 1) 0 (rep_movsb (suc n) src dst m) b

copy_or_fill-Padded :
    (n k src dst : ℕ) (m : Memory)
    → IsString m src n
    → Clear src n dst
    → Padded m src dst n k (copy_or_fill k src dst m)
copy_or_fill-Padded n k src dst m f clear = elim (Bool-cases (ltb n k)) [
  | inl more ↦
      rw (copy_or_fill-IsString n k src dst m f clear (ground arith))
        (filled-Padded n k src dst m f clear (ground arith))
  | inr less ↦
      let c = rep_movsb-Copied k src dst m (ground arith) in
      rw (copy_or_fill_short k n src dst m f clear (ground arith)) (record {
        text = λ i a b. c.copied i b;
        nuls = λ i a b. absurd (ground arith);
        kept = c.kept;
      })
]

-- For a string that the copy does not run over, and a count of at most 2^31, strncpy returns
-- dest and leaves there the string, cut off at count, with NULs up to count, and nothing else
-- changed.
pub strncpy_lem :
    (dest src n count : ℕ) (m : Memory)
    → IsString m src n
    → Clear src n dest
    → count ≤ 0x80000000
    → ((strncpy dest src count m).0 ≡ dest) × Padded m src dest n count (strncpy dest src count m).1
unfolding strncpy rounds
strncpy_lem dest src n count m f clear small =
    let all : (if leb count 0x80000000 then count else 0) ≡ count = ground arith in
    (refl, rw all (copy_or_fill-Padded n count src dest m f clear))
