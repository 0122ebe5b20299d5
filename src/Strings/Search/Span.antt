-- ===== src/Strings/Search/Span.antt =====
-- strspn, strcspn and strpbrk of lib/string.c: bytes that stand, or do not stand, in another string.
use my_linux_kernel.Common.{
  ℕ, zero, suc, ◌+◌, ◌≤◌, ◌<◌, ◌==◌, ◌≡◌, ◌≢◌, ◌⊎◌, inl, inr, refl, ap, sym, subst, ◌∙◌, Bool, true,
  false, not, Bool-cases, arith, some, if◌then◌else◌,
}
use my_linux_kernel.Strings.Memory.{Memory, IsString, all_addresses, repne_scasb, scan_length}
use my_linux_kernel.Strings.First.{First-zero, First-suc, First-ne, scan_length-IsString}
use my_linux_kernel.Strings.Search.{is_one_of, span_loop, distance, place, strspn, strcspn, strpbrk}

-- The byte `c` is one of the `n` bytes at `ct`.
abbrev pub IsIn : Memory → ℕ → ℕ → ℕ → Type 0
IsIn m ct n c = (i : ℕ) × (i < n) × (m (ct + i) ≡ c)

-- What the flag of the scan says.
abbrev pub Says : Bool → Memory → ℕ → ℕ → ℕ → Type 0
Says true m ct n c = IsIn m ct n c
Says false m ct n c = ¬ IsIn m ct n c

scan-Says : (n c ct : ℕ) (m : Memory) → Says (repne_scasb n c ct m false).2 m ct n c
unfolding repne_scasb
scan-Says zero c ct m = λ h. absurd (omega arith)
scan-Says (suc n) c ct m = elim (Bool-cases (c == m ct)) [
  | inl e ↦ rw e (0, omega arith, first (ground arith))
  | inr e ↦
      rw e (lift (repne_scasb n c (ct + 1) m false).2 (scan-Says n c (ct + 1) m) (ground arith))
]
  where
    first : m ct ≡ c → m (ct + 0) ≡ c
    first e = let a : ct + 0 ≡ ct = omega arith in rw a e

    lift : (b : Bool) → Says b m (ct + 1) n c → m ct ≢ c → Says b m ct (suc n) c
    lift true (i, small, at) ne = (suc i, omega arith, ap m (omega arith) ∙ at)
    lift false none_there ne = none_here
      where
        none_here : ¬ IsIn m ct (suc n) c
        none_here (zero, small, at) = ne (ap m (omega arith) ∙ at)
        none_here (suc i, small, at) = none_there (i, omega arith, ap m (omega arith) ∙ at)

-- Where the span of bytes that are not `wanted` ends: at the NUL, or at a byte that is `wanted`.
pub record Span (wanted : Bool) (m : Memory) (cs ct n a r : ℕ) (hit : Bool) : Type 0 where
  pub inside : r ≤ a
  pub passed : (j : ℕ) → j < r → Says (not wanted) m ct n (m (cs + j))
  pub stopped :
      ((hit ≡ false) × (r ≡ a)) ⊎ ((hit ≡ true) × (r < a) × Says wanted m ct n (m (cs + r)))

stops :
    (wanted found : Bool) (m : Memory) (ct n c : ℕ)
    → Says found m ct n c
    → (if wanted then found else not found) ≡ true
    → Says wanted m ct n c
stops true true m ct n c h e = h
stops true false m ct n c h e = absurd (ground arith)
stops false true m ct n c h e = absurd (ground arith)
stops false false m ct n c h e = h

passes :
    (wanted found : Bool) (m : Memory) (ct n c : ℕ)
    → Says found m ct n c
    → (if wanted then found else not found) ≡ false
    → Says (not wanted) m ct n c
passes true true m ct n c h e = absurd (ground arith)
passes true false m ct n c h e = h
passes false true m ct n c h e = h
passes false false m ct n c h e = absurd (ground arith)

Span-suc :
    (wanted : Bool) (m : Memory) (cs ct n a r : ℕ) (hit : Bool)
    → Says (not wanted) m ct n (m cs)
    → Span wanted m (cs + 1) ct n a r hit
    → Span wanted m cs ct n (suc a) (suc r) hit
Span-suc wanted m cs ct n a r hit first rest = record {
  inside = omega (arith, rest.inside);
  passed = passed;
  stopped = elim rest.stopped [
    | inl (h, e) ↦ inl (h, ap suc e)
    | inr (h, small, at) ↦
        let e : cs + suc r ≡ cs + 1 + r = omega arith in inr (h, omega arith, rw e at)
  ];
}
  where
    passed : (j : ℕ) → j < suc r → Says (not wanted) m ct n (m (cs + j))
    passed zero small = let e : cs + 0 ≡ cs = omega arith in rw e first
    passed (suc j) small =
        let e : cs + suc j ≡ cs + 1 + j = omega arith in rw e (rest.passed j (omega arith))

pub span_loop-Span :
    (a fuel : ℕ) (wanted : Bool) (n s ct : ℕ) (m : Memory)
    → IsString m s a
    → a < fuel
    → (r : ℕ) × (hit : Bool) × (span_loop wanted fuel n s ct m ≡ some (s + r, hit))
      × Span wanted m s ct n a r hit
unfolding span_loop is_one_of
span_loop-Span a zero wanted n s ct m f small = absurd (omega arith)
span_loop-Span zero (suc fuel) wanted n s ct m f small =
    let z : (m s == 0) ≡ true = ground (arith, First-zero f) in
    let e : s ≡ s + 0 = omega arith in
    rw z (
      0,
      false,
      ap (λ (p : ℕ). some (p, false)) e,
      record {
        inside = omega arith;
        passed = λ j h. absurd (omega arith);
        stopped = inl (refl, refl);
      },
    )
span_loop-Span (suc a) (suc fuel) wanted n s ct m f small =
    let z : (m s == 0) ≡ false = ground (arith, First-ne f) in
    let found = (repne_scasb n (m s) ct m false).2 in
    let says = scan-Says n (m s) ct m in
    let (r, hit, ran, rest) =
      span_loop-Span a fuel wanted n (s + 1) ct m (First-suc f) (omega arith) in
    let e : s ≡ s + 0 = omega arith in
    elim (Bool-cases (if wanted then found else not found)) [
      | inl stop ↦
          rw (z, stop)
            (
              0,
              true,
              ap (λ (p : ℕ). some (p, true)) e,
              record {
                inside = omega arith;
                passed = λ j h. absurd (omega arith);
                stopped =
                    inr (refl, omega arith, rw (sym e) (stops wanted found m ct n (m s) says stop));
              },
            )
      | inr pass ↦
          rw (z, pass)
            (
              suc r,
              hit,
              ran ∙ ap (λ (p : ℕ). some (p, hit)) (omega arith),
              Span-suc wanted m s ct n a r hit (passes wanted found m ct n (m s) says pass) rest,
            )
    ]

-- The spans of the three functions, for strings at `cs` and `ct` of the lengths `a` and `n`.
module _ (cs ct a n : ℕ) (m : Memory) (f : IsString m cs a) (g : IsString m ct n)
    (small : a < all_addresses) (few : n < 0xffffffff) where
  loop-Span :
      (wanted : Bool)
      → (r : ℕ) × (hit : Bool) × (span_loop wanted all_addresses (scan_length ct m) cs ct m
          ≡ some (cs + r, hit))
        × Span wanted m cs ct n a r hit
  loop-Span wanted =
      subst
        (λ (k : ℕ).
          (r : ℕ) × (hit : Bool) × (span_loop wanted all_addresses k cs ct m ≡ some (cs + r, hit))
          × Span wanted m cs ct n a r hit)
        (sym (scan_length-IsString ct n m g few))
        (span_loop-Span a all_addresses wanted n cs ct m f small)

  pub strspn-Span :
      (r : ℕ) × (hit : Bool) × (strspn cs ct m ≡ some r) × Span false m cs ct n a r hit
  unfolding strspn
  strspn-Span =
      let (r, hit, ran, span) = loop-Span false in
      (r, hit, ap (distance cs) ran ∙ ap (λ (k : ℕ). some k) (omega arith), span)

  pub strcspn-Span :
      (r : ℕ) × (hit : Bool) × (strcspn cs ct m ≡ some r) × Span true m cs ct n a r hit
  unfolding strcspn
  strcspn-Span =
      let (r, hit, ran, span) = loop-Span true in
      (r, hit, ap (distance cs) ran ∙ ap (λ (k : ℕ). some k) (omega arith), span)

  -- For two strings strpbrk returns the place of the first byte of the first string that stands
  -- in the second, or NULL if there is none.
  pub strpbrk-Span :
      (r : ℕ) × (hit : Bool) × (strpbrk cs ct m ≡ some (if hit then cs + r else 0))
      × Span true m cs ct n a r hit
  unfolding strpbrk
  strpbrk-Span = let (r, hit, ran, span) = loop-Span true in (r, hit, ap place ran, span)
