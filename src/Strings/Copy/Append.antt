-- ===== src/Strings/Copy/Append.antt =====
-- strncat of lib/string.c on strings.
use my_linux_kernel.Common.{
  ℕ, zero, suc, ◌+◌, ◌≤◌, ◌<◌, ◌==◌, ◌≡◌, inl, inr, refl, ap, sym, subst, ◌∙◌, false, Bool-cases,
  arith, ltb, leb, if◌then◌else◌,
}
use my_linux_kernel.Strings.Memory.{Memory, store, IsString, rounds, rep_movsb}
use my_linux_kernel.Strings.Copy.{copy_and_end, strncat}
use my_linux_kernel.Strings.Copy.Blocks.{inside}
use my_linux_kernel.Strings.Copy.Text.{
  Clear, Copied, is_nul, not_nul, rest_of, end_of-IsString, rep_movsb-Copied,
}

copy_and_end-IsString :
    (n k src dst : ℕ) (m : Memory)
    → IsString m src n
    → Clear src n dst
    → n < k
    → copy_and_end k src dst m ≡ store (rep_movsb (suc n) src dst m) (dst + n + 1) 0
unfolding copy_and_end rep_movsb
copy_and_end-IsString n zero src dst m f clear small = absurd (omega arith)
copy_and_end-IsString zero (suc k) src dst m f clear small =
    rw (is_nul f) (ap (λ (a : ℕ). store (store m dst (m src)) a 0) (omega arith))
copy_and_end-IsString (suc n) (suc k) src dst m f clear small =
    rw
      (
        not_nul f,
        copy_and_end-IsString n k (src + 1) (dst + 1) (store m dst (m src)) (rest_of dst f clear)
            (omega arith) (omega arith),
      )
      (ap (λ (a : ℕ). store (rep_movsb (suc (suc n)) src dst m) a 0) (omega arith))

copy_and_end_short :
    (k n src dst : ℕ) (m : Memory)
    → IsString m src n
    → Clear src n dst
    → k ≤ n
    → copy_and_end k src dst m ≡ store (rep_movsb k src dst m) (dst + k) 0
unfolding copy_and_end rep_movsb
copy_and_end_short zero n src dst m f clear small = ap (λ (a : ℕ). store m a 0) (omega arith)
copy_and_end_short (suc k) zero src dst m f clear small = absurd (omega arith)
copy_and_end_short (suc k) (suc n) src dst m f clear small = rw (not_nul f) (
    copy_and_end_short k n (src + 1) (dst + 1) (store m dst (m src)) (rest_of dst f clear)
      (omega arith) (omega arith)
    ∙ ap (λ (a : ℕ). store (rep_movsb (suc k) src dst m) a 0) (omega arith))

-- What strncat leaves: `k` bytes behind the string at `dst`, and a NUL behind them.
pub record Ended (m : Memory) (src dst k : ℕ) (m' : Memory) : Type 0 where
  pub text : (i : ℕ) → i < k → m' (dst + i) ≡ m (src + i)
  pub nul : m' (dst + k) ≡ 0
  pub kept : (b : ℕ) → inside dst (suc k) b ≡ false → m' b ≡ m b

store-Ended :
    (k src dst : ℕ) (m m' : Memory)
    → Copied m src dst k m'
    → Ended m src dst k (store m' (dst + k) 0)
store-Ended k src dst m m' c = record {
  text =
      λ i small. let far : (dst + k == dst + i) ≡ false = ground arith in rw far (c.copied i small);
  nul = ground arith;
  kept =
      λ b out. let far : (dst + k == b) ≡ false = ground arith in rw far (c.kept b (ground arith));
}

-- For strings of lengths d and n, where the copy does not run over its source, strncat returns
-- dest and appends n + 1 bytes, the NUL of the string among them, if n is below count, else
-- count bytes; it puts a NUL behind those and changes nothing else.
pub strncat_lem :
    (dest src d n count : ℕ) (m : Memory)
    → IsString m dest d
    → IsString m src n
    → Clear src n (dest + d)
    → d < 0xffffffff
    → count ≤ 0x80000000
    → ((strncat dest src count m).0 ≡ dest)
      × Ended m src (dest + d) (if ltb n count then suc n else count) (strncat dest src count m).1
unfolding strncat rounds
strncat_lem dest src d n count m g f clear few small =
    let all : (if leb count 0x80000000 then count else 0) ≡ count = ground arith in
    (
      refl,
      rw (all, end_of-IsString dest d m g few)
          (elim (Bool-cases (ltb n count)) [
            | inl more ↦ rw more (
                subst (Ended m src (dest + d) (suc n))
                  (ap (λ (a : ℕ). store (rep_movsb (suc n) src (dest + d) m) a 0) (omega arith)
                    ∙ sym (copy_and_end-IsString n count src (dest + d) m f clear (ground arith)))
                  (store-Ended (suc n) src (dest + d) m _
                    (rep_movsb-Copied (suc n) src (dest + d) m (omega arith))))
            | inr less ↦
                rw (less, copy_and_end_short count n src (dest + d) m f clear (ground arith))
                  (store-Ended count src (dest + d) m _
                    (rep_movsb-Copied count src (dest + d) m (ground arith)))
          ]),
    )
