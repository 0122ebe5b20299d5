-- ===== src/Mm/Tables/Alike.antt =====
-- The entries of page tables of mm/memory.c as words: what the copying of an entry leaves of it.
use my_linux_kernel.Common.{
  ℕ, ◌⊎◌, ap, ◌+◌, ◌*◌, ◌/◌, ◌%◌, ◌<◌, ◌≡◌, inl, inr, refl, sym, ◌∙◌, ◌==◌, true, false, ltb, arith,
  Bool-cases, bit_and,
}
use my_linux_kernel.Common.Bits.{bit_and_digit, bit_and_shift, bit_and_low, mask_fffff000}
use my_linux_kernel.Mm.Run.{low_mem}
use my_linux_kernel.Mm.Tables.{present, page_of, read_only}
use my_linux_kernel.Mm.Tables.Share.{skipped, counted, child_entry, parent_entry, adds}
use my_linux_kernel.Mm.Tables.Free.{releases}

-- The bits of an entry that is a word.
pub read_only_lem : (e : ℕ) → e < 4294967296 → read_only e ≡ e / 4 * 4 + e % 2
read_only_lem e small = omega (
  arith,
  bit_and_digit e 0xfffffffd,
  bit_and_shift 1 (e / 2) 0x3fffffff,
  bit_and_low 30 (e / 2 / 2) 0x3fffffff refl,
)

pub present_lem : (e : ℕ) → bit_and e 1 ≡ e % 2
present_lem e = bit_and_low 1 e 1 refl

-- What the child's new entry gives back is what the parent's entry has added.
pub page_lem :
    (e : ℕ)
    → e < 4294967296
    → skipped e ≡ false
    → (page_of (read_only e) ≡ e / 4096 * 4096) × (present (read_only e) ≡ true)
page_lem e small some =
    let r = read_only_lem e small in
    let p = present_lem e in
    let q = present_lem (read_only e) in
    let page = mask_fffff000 (read_only e) (omega arith) in (omega arith, ground arith)

pub counted_lem : (e : ℕ) → e < 4294967296 → skipped e ≡ false → counted e ≡ releases (read_only e)
counted_lem e small some =
    let r = read_only_lem e small in
    let p = present_lem e in
    let (page, there) = page_lem e small some in
    let odd : e % 2 ≡ 1 = ground arith in rw (some, there, page, r) (ground arith)

-- Two entries that are the same, or differ in that the first is shared and the second has lost its
-- write bit, and that make no difference to a copy.
pub record IsAlike (e e' : ℕ) : Type 0 where
  pub word : e' < 4294967296
  pub same_counted : counted e' ≡ counted e
  pub same_page : page_of e' ≡ page_of e
  pub same_child : child_entry e' 0 ≡ child_entry e 0
  pub same_adds : (j : ℕ) → adds j e' ≡ adds j e
  pub same_read_only : read_only e ≡ e → e' ≡ e
  pub only_read_only : (e' ≡ e) ⊎ ((skipped e ≡ false) × (e' ≡ read_only e))

pub IsAlike-refl : (e : ℕ) → e < 4294967296 → IsAlike e e
IsAlike-refl e small = record {
  word = small;
  same_counted = refl;
  same_page = refl;
  same_child = refl;
  same_adds = λ j. refl;
  same_read_only = λ o. refl;
  only_read_only = inl refl;
}

pub IsAlike-trans : {a b c : ℕ} → IsAlike a b → IsAlike b c → IsAlike a c
IsAlike-trans h k = record {
  word = k.word;
  same_counted = k.same_counted ∙ h.same_counted;
  same_page = k.same_page ∙ h.same_page;
  same_child = k.same_child ∙ h.same_child;
  same_adds = λ j. k.same_adds j ∙ h.same_adds j;
  same_read_only = λ o. let first = h.same_read_only o in k.same_read_only (rw first o) ∙ first;
  only_read_only = once h k;
}
  where
    once :
        {a b c : ℕ}
        → IsAlike a b
        → IsAlike b c
        → (c ≡ a) ⊎ ((skipped a ≡ false) × (c ≡ read_only a))
    once {a} {b} {c} h k = elim h.only_read_only [
      | inl same ↦ elim k.only_read_only [
        | inl still ↦ inl (still ∙ same)
        | inr (some, changed) ↦ inr (rw same at some, changed ∙ ap read_only same)
      ]
      | inr (some, changed) ↦ elim k.only_read_only [
        | inl still ↦ inr (some, still ∙ changed)
        | inr (still_some, again) ↦
            let fixed : read_only b ≡ read_only a = rw (still_some, some) at h.same_child in
            inr (some, again ∙ fixed)
      ]
    ]

twice : (e : ℕ) → e < 4294967296 → read_only (read_only e) ≡ read_only e
twice e small =
    let r = read_only_lem e small in omega (arith, r, read_only_lem (read_only e) (omega arith))

not_skipped : (e : ℕ) → e < 4294967296 → skipped e ≡ false → skipped (read_only e) ≡ false
not_skipped e small some =
    let (page, there) = page_lem e small some in
    let r = read_only_lem e small in
    let odd : e % 2 ≡ 1 = ground (arith, present_lem e) in
    let some_bits : (read_only e == 0) ≡ false = ground arith in rw (some_bits, there) refl

read_only-IsAlike : (e : ℕ) → e < 4294967296 → skipped e ≡ false → IsAlike e (read_only e)
read_only-IsAlike e small some =
    let still = not_skipped e small some in
    let same = twice e small in
    record {
      word = omega (arith, read_only_lem e small);
      same_counted = rw (still, same, some) refl;
      same_page = (page_lem e small some).0 ∙ sym (mask_fffff000 e small);
      same_child = rw (still, same, some) refl;
      same_adds = λ j. rw (still, same, some) refl;
      same_read_only = λ o. o;
      only_read_only = inr (some, refl);
    }

pub parent-IsAlike : (e : ℕ) → e < 4294967296 → IsAlike e (parent_entry e)
parent-IsAlike e small = elim (Bool-cases (skipped e)) [
  | inl s ↦ rw s (IsAlike-refl e small)
  | inr s ↦ rw s (elim (Bool-cases (ltb low_mem (read_only e))) [
    | inl h ↦ rw h (read_only-IsAlike e small s)
    | inr l ↦ rw l (IsAlike-refl e small)
  ])
]

-- What the child gets has no write bit.
pub child-read_only : (e : ℕ) → e < 4294967296 → read_only (child_entry e 0) ≡ child_entry e 0
child-read_only e small = elim (Bool-cases (skipped e)) [
  | inl s ↦ rw s refl
  | inr s ↦ rw s (twice e small)
]

pub child-word : (e : ℕ) → e < 4294967296 → child_entry e 0 < 4294967296
child-word e small = elim (Bool-cases (skipped e)) [
  | inl s ↦ rw s (omega arith)
  | inr s ↦ rw s (omega (arith, read_only_lem e small))
]
