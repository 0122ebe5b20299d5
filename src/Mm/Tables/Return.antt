-- ===== src/Mm/Tables/Return.antt =====
-- copy_page_tables and free_page_tables of mm/memory.c: what the entries of the child give back is what
-- has been counted for the parent's.
use my_linux_kernel.Common.{
  ℕ, zero, suc, ◌+◌, ◌%◌, ◌<◌, ◌≡◌, ◌≢◌, inl, inr, refl, ap, ap₂, ◌∙◌, true, false, arith,
  Bool-cases,
}
use my_linux_kernel.Common.Bits.{mask_fffff000}
use my_linux_kernel.Mm.Run.{Ram}
use my_linux_kernel.Mm.Tables.{page_of, read_only}
use my_linux_kernel.Mm.Tables.Share.{skipped, counted, child_entry, adds, added}
use my_linux_kernel.Mm.Tables.Alike.{read_only_lem, present_lem, page_lem, counted_lem}
use my_linux_kernel.Mm.Tables.Free.{releases, drops, dropped}

drops_lem : (e j : ℕ) → e < 4294967296 → drops j (child_entry e 0) ≡ adds j e
drops_lem e j small = elim (Bool-cases (skipped e)) [
  | inl s ↦ rw s refl
  | inr s ↦
      let (page, there) = page_lem e small s in
      let odd : e % 2 ≡ 1 = ground (arith, present_lem e) in
      rw (s, there, page, read_only_lem e small) (ground arith)
]

pub child_page_lem :
    (e high : ℕ)
    → e < 4294967296
    → (counted e ≡ true → page_of e < high)
    → releases (child_entry e 0) ≡ true
    → page_of (child_entry e 0) < high
child_page_lem e high small below releasing = elim (Bool-cases (skipped e)) [
  | inl s ↦ let none : releases 0 ≡ true = rw s at releasing in absurd (false-ne-true none)
  | inr s ↦
      let read_only_releases : releases (read_only e) ≡ true = rw s at releasing in
      let (page, there) = page_lem e small s in
      let old = below (counted_lem e small s ∙ read_only_releases) in
      let new : page_of (read_only e) < high = omega (arith, mask_fffff000 e small) in rw s new
]
  where
    false-ne-true : false ≢ true
    false-ne-true e = cc

pub dropped-added :
    (n from to j : ℕ) (r r' : Ram)
    → ((k : ℕ) → k < n → r (from + k) < 4294967296)
    → ((k : ℕ) → k < n → r' (to + k) ≡ child_entry (r (from + k)) 0)
    → dropped n to j r' ≡ added n from j r
dropped-added zero from to j r r' small same = refl
dropped-added (suc n) from to j r r' small same =
    let here = rw (plus_zero to, plus_zero from) at (same 0 (omega arith)) in
    let word = rw (plus_zero from) at (small 0 (omega arith)) in
    ap₂ ◌+◌ (ap (drops j) here ∙ drops_lem (r from) j word) (
      dropped-added n (from + 1) (to + 1) j r r'
        (λ k h. rw (plus_one from k) (small (k + 1) (omega arith)))
        (λ k h. rw (plus_one from k, plus_one to k) (same (k + 1) (omega arith))))
  where
    plus_zero : (a : ℕ) → a + 0 ≡ a
    plus_zero a = omega arith

    plus_one : (a k : ℕ) → a + 1 + k ≡ a + (k + 1)
    plus_one a k = omega arith
