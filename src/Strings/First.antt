-- ===== src/Strings/First.antt =====
-- The first place of a byte, for the scanning instructions of lib/string.c.
use my_linux_kernel.Common.{
  ℕ, zero, suc, ◌+◌, ◌-◌, ◌<◌, ◌&&◌, not, inl, inr, Bool-cases, ◌==◌, ◌≡◌, ◌≢◌, ◌⊎◌, ap, ap₂, ◌∙◌,
  Bool, true, false, arith,
}
use my_linux_kernel.Strings.Memory.{
  Memory, store, First, IsString, repne_scasb, scan_length, not_dec,
}

module _ {c : ℕ} {m : Memory} {p : ℕ} where
  pub First-zero : First c m p zero → m p ≡ c
  First-zero f = ap m (omega arith) ∙ f.here

  pub First-suc : {n : ℕ} → First c m p (suc n) → First c m (p + 1) n
  First-suc {n} f = record {
    before = λ i h e. f.before (suc i) (omega arith) (ap m (omega arith) ∙ e);
    here = ap m (omega arith) ∙ f.here;
  }

  pub First-ne : {n : ℕ} → First c m p (suc n) → m p ≢ c
  First-ne f e = f.before 0 (omega arith) (ap m (omega arith) ∙ e)

pub First-cons :
    {c : ℕ} {m : Memory} {s i : ℕ} → m s ≢ c → First c m (s + 1) i → First c m s (suc i)
First-cons {c} {m} {s} {i} ne f = record {
  before = before;
  here = let e : s + suc i ≡ s + 1 + i = omega arith in rw e f.here;
}
  where
    before : (j : ℕ) → j < suc i → m (s + j) ≢ c
    before zero small = let e : s + 0 ≡ s = omega arith in rw e ne
    before (suc j) small =
        let e : s + suc j ≡ s + 1 + j = omega arith in rw e (f.before j (omega arith))

-- A write below the bytes, or behind the one that is looked for, leaves the place.
pub First-store :
    {c : ℕ} {m : Memory} {p n : ℕ} (a v : ℕ)
    → (a < p) ⊎ (p + n < a)
    → First c m p n
    → First c (store m a v) p n
First-store {c} {m} {p} {n} a v off f = record {
  before = λ i h e. let far : (a == p + i) ≡ false = ground arith in f.before i h (rw far at e);
  here = let far : (a == p + n) ≡ false = ground arith in rw far f.here;
}

pub repne_scasb-First :
    (k c p n : ℕ) (m : Memory) (zf : Bool)
    → First c m p n
    → n < k
    → repne_scasb k c p m zf ≡ (p + n + 1, k - n - 1, true)
unfolding repne_scasb
repne_scasb-First zero c p n m zf f small = absurd (omega arith)
repne_scasb-First (suc k) c p zero m zf f small =
    let e : (c == m p) ≡ true = ground (arith, First-zero f) in
    rw e (ap₂ (λ (a b : ℕ). (a, b, true)) (omega arith) (omega arith))
repne_scasb-First (suc k) c p (suc n) m zf f small =
    let e : (c == m p) ≡ false = ground (arith, First-ne f) in
    rw (e, repne_scasb-First k c (p + 1) n m false (First-suc f) (omega arith))
      (ap₂ (λ (a b : ℕ). (a, b, true)) (omega arith) (omega arith))

pub scan_length-IsString :
    (s n : ℕ) (m : Memory) → IsString m s n → n < 0xffffffff → scan_length s m ≡ n
unfolding scan_length
scan_length-IsString s n m f small =
    ap (λ r. not_dec r.1) (repne_scasb-First 0xffffffff 0 s n m false f small) ∙ omega arith

-- Whether the string at `p` has the length `n`.
unfoldable pub is_string : ℕ → ℕ → Memory → Bool
is_string zero p m = m p == 0
is_string (suc n) p m = not (m p == 0) && is_string n (p + 1) m

pub is_string-IsString : (n p : ℕ) (m : Memory) → is_string n p m ≡ true → IsString m p n
unfolding is_string
is_string-IsString zero p m e = record {
  before = λ i h. absurd (omega arith);
  here = let z : p + 0 ≡ p = omega arith in rw z (ground arith);
}
is_string-IsString (suc n) p m e = elim (Bool-cases (m p == 0)) [
  | inl z ↦ absurd (ground arith)
  | inr z ↦ First-cons (ground arith) (is_string-IsString n (p + 1) m (rw z at e))
]
