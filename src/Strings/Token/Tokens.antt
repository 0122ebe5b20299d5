-- ===== src/Strings/Token/Tokens.antt =====
-- strtok of lib/string.c: what one call finds in a string.
use my_linux_kernel.Common.{
  ℕ, ◌+◌, ◌-◌, ◌≤◌, ◌<◌, ◌==◌, ◌≡◌, ◌≢◌, ◌⊎◌, inl, inr, refl, ap, subst, ◌∙◌, Bool, true, false,
  Bool-cases, arith, some, if◌then◌else◌,
}
use my_linux_kernel.Strings.Memory.{Memory, store, IsString, all_addresses}
use my_linux_kernel.Strings.First.{scan_length-IsString}
use my_linux_kernel.Strings.Search.{span_loop}
use my_linux_kernel.Strings.Search.Span.{Span, IsIn, span_loop-Span}
use my_linux_kernel.Strings.Token.{Token, no_token, end_token, start_token, next_token, strtok}

drop-IsString : (s a i : ℕ) (m : Memory) → IsString m s a → i ≤ a → IsString m (s + i) (a - i)
drop-IsString s a i m f small = record {
  before =
      λ j h. let e : s + i + j ≡ s + (i + j) = omega arith in rw e (f.before (i + j) (omega arith));
  here = let e : s + i + (a - i) ≡ s + a = omega arith in rw e f.here;
}

-- One call on a string of length `a` at `s`, with the `n` delimiters at `ct`: all its bytes are
-- delimiters, or the token is the first run of bytes that are none.
pub data IsToken (m : Memory) (s ct a n : ℕ) (t : Token) : Type 0 where
  exhausted : ((j : ℕ) → j < a → IsIn m ct n (m (s + j))) → t ≡ no_token m → IsToken m s ct a n t
  token :
      (i k : ℕ)
      → i + k ≤ a
      → 0 < k
      → ((j : ℕ) → j < i → IsIn m ct n (m (s + j)))
      → ((j : ℕ) → j < k → ¬ IsIn m ct n (m (s + i + j)))
      → t.res ≡ s + i
      → ((i + k ≡ a) × (t.saved ≡ 0) × (t.memory ≡ m))
        ⊎ ((i + k < a)
            × IsIn m ct n (m (s + i + k))
            × (t.saved ≡ s + i + k + 1)
            × (t.memory ≡ store m (s + i + k) 0))
      → IsToken m s ct a n t

-- The end of a token that starts at `p`, in a string of length `a` there.
record Cut (m : Memory) (p ct a n k : ℕ) (t : Token) : Type 0 where
  pub some_bytes : 0 < k
  pub at : t.res ≡ p
  pub over :
      ((k ≡ a) × (t.saved ≡ 0) × (t.memory ≡ m))
      ⊎ ((k < a) × IsIn m ct n (m (p + k)) × (t.saved ≡ p + k + 1) × (t.memory ≡ store m (p + k) 0))

end_token-Cut :
    (p ct a n k : ℕ) (hit : Bool) (m : Memory)
    → IsString m p a
    → Span true m p ct n a k hit
    → 0 < a
    → m p ≢ 0
    → ¬ IsIn m ct n (m p)
    → (t : Token) × (end_token p m (some (p + k, hit)) ≡ some t) × Cut m p ct a n k t
unfolding end_token
end_token-Cut p ct a n k hit m f span filled live out = elim span.stopped [
  | inl (e, whole) ↦
      let full : (m p == 0) ≡ false = ground arith in
      rw (e, full)
        (_, refl, record { some_bytes = omega arith; at = refl; over = inl (whole, refl, refl) })
  | inr (e, less, delimiter) ↦
      let positive : 0 < k = elim (Bool-cases (k == 0)) [
        | inl z ↦
            let same : p + k ≡ p = ground arith in
            absurd (out (subst (λ (q : ℕ). IsIn m ct n (m q)) same delimiter))
        | inr q ↦ ground arith
      ] in
      let full : (store m (p + k) 0 p == 0) ≡ false = ground arith in
      let cut : (m (p + k) == 0) ≡ false = ground (arith, f.before k less) in
      rw (e, cut, full)
        (
          _,
          refl,
          record { some_bytes = positive; at = refl; over = inr (less, delimiter, refl, refl) },
        )
]

whole_token :
    (s ct a n i k : ℕ) (m : Memory) (t : Token)
    → i < a
    → ((j : ℕ) → j < i → IsIn m ct n (m (s + j)))
    → ((j : ℕ) → j < k → ¬ IsIn m ct n (m (s + i + j)))
    → k ≤ a - i
    → Cut m (s + i) ct (a - i) n k t
    → IsToken m s ct a n t
whole_token s ct a n i k m t small before none_in fits cut =
    token i k (omega arith) cut.some_bytes before none_in cut.at (elim cut.over [
      | inl (e, saved, kept) ↦ inl (omega arith, saved, kept)
      | inr (less, delimiter, saved, cut_off) ↦ inr (omega arith, delimiter, saved, cut_off)
    ])

module _ (s ct a n : ℕ) (m : Memory) (f : IsString m s a) (small : a < all_addresses) where
  start_token-IsToken :
      (i : ℕ) (hit : Bool)
      → Span false m s ct n a i hit
      → (t : Token) × (start_token n ct m (some (s + i, hit)) ≡ some t) × IsToken m s ct a n t
  unfolding start_token
  start_token-IsToken i hit span = elim span.stopped [
    | inl (e, whole) ↦
        rw e (no_token m, refl, exhausted (λ j less. span.passed j (omega arith)) refl)
    | inr (e, less, out) ↦
        let tail = drop-IsString s a i m f (omega arith) in
        let (k, hit', ran, rest) =
          span_loop-Span (a - i) all_addresses true n (s + i) ct m tail (omega arith) in
        let live : m (s + i) ≢ 0 = f.before i less in
        let full : (m (s + i) == 0) ≡ false = ground arith in
        let (t, cut, c) =
          end_token-Cut (s + i) ct (a - i) n k hit' m tail rest (omega arith) live out in
        rw (e, full)
          (
            t,
            ap (end_token (s + i) m) ran ∙ cut,
            whole_token s ct a n i k m t less span.passed rest.passed rest.inside c,
          )
  ]

  pub next_token-IsToken :
      IsString m ct n
      → 0 < n
      → n < 0xffffffff
      → (t : Token) × (next_token s ct m ≡ some t) × IsToken m s ct a n t
  unfolding next_token
  next_token-IsToken g filled few =
      let (i, hit, ran, skipped) = span_loop-Span a all_addresses false n s ct m f small in
      let (t, started, found) = start_token-IsToken i hit skipped in
      let full : (n == 0) ≡ false = ground arith in
      (
        t,
        ap
              (λ (k : ℕ).
                if k == 0
                then some (no_token m)
                else start_token k ct m (span_loop false all_addresses k s ct m))
              (scan_length-IsString ct n m g few)
            ∙ rw full (ap (start_token n ct m) ran ∙ started),
        found,
      )

-- For a string at s, or where s is NULL at ___strtok, and a string of at least one delimiter,
-- strtok returns: NULL with ___strtok NULL if all bytes are delimiters, else the first run of
-- other bytes, which it ends with a NUL in place of the next delimiter, with ___strtok behind
-- it or NULL at the end.
pub strtok-IsToken :
    (saved s ct a n : ℕ) (m : Memory)
    → let p = if s == 0 then saved else s in
      p ≢ 0
      → IsString m p a
      → IsString m ct n
      → a < all_addresses
      → 0 < n
      → n < 0xffffffff
      → (t : Token) × (strtok saved s ct m ≡ some t) × IsToken m p ct a n t
unfolding strtok
strtok-IsToken saved s ct a n m null f g small filled few = elim (Bool-cases (s == 0)) [
  | inl z ↦
      let live : (saved == 0) ≡ false = ground arith in
      rw (z, live) (next_token-IsToken saved ct a n m (rw z at f) small g filled few)
  | inr z ↦ rw z (next_token-IsToken s ct a n m (rw z at f) small g filled few)
]
