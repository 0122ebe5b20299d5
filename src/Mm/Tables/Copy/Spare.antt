-- ===== src/Mm/Tables/Copy/Spare.antt =====
-- The free pages that copy_page_tables of mm/memory.c has to spare.
use my_linux_kernel.Common.{
  ℕ, zero, suc, ◌+◌, ◌≤◌, ◌<◌, ◌==◌, ◌≡◌, ◌≢◌, refl, Bool, true, false, arith, Bool-cases, inl, inr,
  if◌then◌else◌,
}
use my_linux_kernel.Mm.Run.{Mm}
use my_linux_kernel.Mm.Pages.Alloc.{count}
use my_linux_kernel.Mm.Tables.Copy.{is_spare, spare, how_many}

-- Where no page is free there is none to spare, and with one page at most one is gone.
how_many-none : (p : ℕ → Bool) (n : ℕ) → ((j : ℕ) → j < n → p j ≡ false) → how_many p n ≡ 0
unfolding how_many
how_many-none p zero none = refl
how_many-none p (suc n) none =
    let here = none n (omega arith) in
    rw (here, how_many-none p n (λ j small. none j (omega arith))) refl

pub spare-full :
    (size n d : ℕ) (m : Mm) → ((j : ℕ) → j < 3840 → count m j ≢ 0) → spare size n d m ≡ 0
spare-full size n d m full =
    how_many-none (is_spare size n d m) 3840 (λ j small.
      let used : (count m j == 0) ≡ false = ground (arith, full j small) in rw used refl)

pub how_many-le :
    (p q : ℕ → Bool) (n : ℕ)
    → ((j : ℕ) → j < n → p j ≡ true → q j ≡ true)
    → how_many p n ≤ how_many q n
unfolding how_many
how_many-le p q zero less = omega arith
how_many-le p q (suc n) less =
    let rest = how_many-le p q n (λ j small. less j (omega arith)) in
    elim (Bool-cases (p n)) [
      | inl here ↦ let there = less n (omega arith) here in rw (here, there) (omega (arith, rest))
      | inr none ↦ rw none (one_more _ _ _ rest)
    ]
  where
    one_more : (a b c : ℕ) → a ≤ b → 0 + a ≤ c + b
    one_more a b c less = omega arith

pub how_many-step :
    (p q : ℕ → Bool) (n i : ℕ)
    → ((j : ℕ) → j < n → j ≢ i → p j ≡ true → q j ≡ true)
    → how_many p n ≤ suc (how_many q n)
unfolding how_many
how_many-step p q zero i less = omega arith
how_many-step p q (suc n) i less = elim (Bool-cases (n == i)) [
  | inl last ↦
      let rest =
        how_many-le p q n (λ j small.
          less j (omega arith) (λ same. let at : n ≡ i = ground arith in omega arith)) in
      at_most_one (p n) _ _ _ rest
  | inr other ↦
      let rest = how_many-step p q n i (λ j small. less j (omega arith)) in
      elim (Bool-cases (p n)) [
        | inl here ↦
            let there = less n (omega arith) (ground arith) here in
            rw (here, there) (omega (arith, rest))
        | inr none ↦ rw none (one_more _ _ _ rest)
      ]
]
  where
    at_most_one : (b : Bool) (x y z : ℕ) → x ≤ y → (if b then 1 else 0) + x ≤ suc (z + y)
    at_most_one b x y z less = ground arith

    one_more : (a b c : ℕ) → a ≤ suc b → 0 + a ≤ suc (c + b)
    one_more a b c less = omega arith
