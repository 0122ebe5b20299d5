-- ===== src/Build/Writes.antt =====
-- How tools/build.c writes a buffer, copies a file and fills up the setup.
use my_linux_kernel.Common.{
  ℕ, zero, suc, ◌+◌, ◌-◌, ◌*◌, ◌≤◌, ◌==◌, ◌≡◌, ◌≢◌, true, false, if◌then◌else◌, ◌⊎◌, inl, inr, refl,
  ap, sym, ◌∙◌, Bool-cases, List, [], ◌∷◌, ◌++◌, append_assoc, append-nil, ltb, length,
  length-append, take, drop, arith,
}
use my_linux_kernel.Build.Run.{Outcome, W, overflow, returned, died, and_then, write_failed}
use my_linux_kernel.Build.{int_max, setup_size, buf_size, zeros, fill, put, copy_chunks, pad}

-- All bytes of a file.
abbrev pub bytes : List (List ℕ) → List ℕ
bytes [] = []
bytes (chunk ∷ chunks) = chunk ++ bytes chunks

-- A write that has taken fewer or more bytes than it was given ends the run with `out` written:
-- `before` was written before it, and `c` bytes of `buf` were to be.
pub record WriteFails (accepted : List ℕ → ℕ → ℕ) (out : List ℕ) : Type 0 where
  pub before : List ℕ
  pub buf : List ℕ
  pub c : ℕ
  pub wrong : accepted before c ≢ c
  pub written : out ≡ before ++ take (accepted before c) buf

-- A run as it shall be, unless a write fails.
abbrev pub Meets : {A : Type 0} → (List ℕ → ℕ → ℕ) → Outcome A → Outcome A → Type 0
Meets accepted run wanted =
    (run ≡ wanted) ⊎ ((out : List ℕ) × (run ≡ died write_failed out) × WriteFails accepted out)

pub bind_lem :
    {A B : Type 0} {run wanted : Outcome A} {accepted : List ℕ → ℕ → ℕ} (k : A → W B)
    {after : Outcome B}
    → Meets accepted run wanted
    → Meets accepted (and_then wanted k) after
    → Meets accepted (and_then run k) after
bind_lem k (inl same) rest = rw same rest
bind_lem k (inr (out, failed, why)) rest = inr (out, rw failed, why)

pub take_filled : (chunk buf : List ℕ) → take (length chunk) (fill chunk buf) ≡ chunk
take_filled chunk buf = go chunk (drop (length chunk) buf)
  where
    go : (xs ys : List ℕ) → take (length xs) (xs ++ ys) ≡ xs
    go [] ys = refl
    go (x ∷ xs) ys = ap (λ (t : List ℕ). x ∷ t) (go xs ys)

take-zeros : (n k : ℕ) → k ≤ n → take k (zeros n) ≡ zeros k
take-zeros n zero small = refl
take-zeros zero (suc k) small = absurd (omega arith)
take-zeros (suc n) (suc k) small = ap (λ (t : List ℕ). 0 ∷ t) (take-zeros n k (omega arith))

zeros_split : (out : List ℕ) (a n : ℕ) → a ≤ n → (out ++ zeros a) ++ zeros (n - a) ≡ out ++ zeros n
zeros_split out a n small =
    append_assoc out (zeros a) (zeros (n - a)) ∙ ap (λ (t : List ℕ). out ++ t) (go a n small)
  where
    go : (a n : ℕ) → a ≤ n → zeros a ++ zeros (n - a) ≡ zeros n
    go zero n small = let all : n - 0 ≡ n = omega arith in rw all refl
    go (suc a) zero small = absurd (omega arith)
    go (suc a) (suc n) small =
        let less : suc n - suc a ≡ n - a = omega arith in
        rw less (ap (λ (t : List ℕ). 0 ∷ t) (go a n (omega arith)))

-- The outcome of the loop that copies a file, whose count is an int.
abbrev pub copied_bytes : ℕ → List ℕ → List ℕ → Outcome (ℕ × List ℕ)
copied_bytes n last out = if ltb int_max n then overflow else returned (n, last) out

module _ (accepted : List ℕ → ℕ → ℕ) where
  pub put_lem :
      (buf : List ℕ) (c : ℕ) (out : List ℕ)
      → Meets accepted (put accepted buf c out) (returned tt (out ++ take c buf))
  unfolding put
  put_lem buf c out = elim (Bool-cases (accepted out c == c)) [
    | inl all ↦ let e : accepted out c ≡ c = ground arith in inl (rw (all, e) refl)
    | inr part ↦ inr (
      out ++ take (accepted out c) buf,
      rw part refl,
      record { before = out; buf = buf; c = c; wrong = ground arith; written = refl },
    )
  ]

  copy_chunks_lem :
      (chunks : List (List ℕ)) (i : ℕ) (buf out : List ℕ)
      → i ≤ int_max
      → (last : List ℕ) × Meets accepted
          (copy_chunks accepted chunks i buf out)
          (copied_bytes (i + length (bytes chunks)) last (out ++ bytes chunks))
  unfolding copy_chunks
  copy_chunks_lem [] i buf out small =
      let none_left : i + 0 ≡ i = omega arith in
      let fits : ltb int_max i ≡ false = ground arith in
      (buf, inl (rw (none_left, append-nil out, fits) refl))
  copy_chunks_lem (chunk ∷ chunks) i buf out small =
      elim (Bool-cases (ltb int_max (i + length chunk))) [
        | inl over ↦
            let all_over : ltb int_max (i + (length chunk + length (bytes chunks))) ≡ true =
              ground arith in
            (
              buf,
              bind_lem _ (put_lem (fill chunk buf) (length chunk) out)
                  (rw (over, length-append chunk (bytes chunks), all_over) (inl refl)),
            )
        | inr fits ↦
            let (last, rest) =
              copy_chunks_lem chunks (i + length chunk) (fill chunk buf) (out ++ chunk)
                (ground arith) in
            (
              last,
              bind_lem _ (put_lem (fill chunk buf) (length chunk) out) (
                  rw
                    (
                      fits,
                      take_filled chunk buf,
                      length-append chunk (bytes chunks),
                      sym (append_assoc out chunk (bytes chunks)),
                      added i (length chunk) (length (bytes chunks)),
                    )
                    rest),
            )
      ]
    where
      added : (i a b : ℕ) → i + (a + b) ≡ i + a + b
      added i a b = omega arith

  pub pad_lem :
      (fuel i : ℕ) (out : List ℕ)
      → i ≤ setup_size
      → setup_size - i + buf_size ≤ fuel * buf_size
      → Meets accepted
          (pad accepted fuel i (zeros buf_size) out)
          (returned tt (out ++ zeros (setup_size - i)))
  unfolding pad
  pad_lem zero i out small enough = absurd (omega arith)
  pad_lem (suc fuel) i out small enough = elim (Bool-cases (ltb i setup_size)) [
    | inl more ↦ rw more (elim (Bool-cases (ltb buf_size (setup_size - i))) [
      | inl big ↦ rw big (
          round buf_size (ground arith) (ground arith)
            (pad_lem fuel (i + buf_size) (out ++ zeros buf_size) (ground arith) (ground arith)))
      | inr last ↦ rw last (
          round (setup_size - i) (ground arith) (ground arith) (
            pad_lem fuel (i + (setup_size - i)) (out ++ zeros (setup_size - i)) (ground arith)
              (ground arith)))
    ])
    | inr full ↦
        let nothing : setup_size - i ≡ 0 = ground arith in
        inl (rw (full, nothing, append-nil out) refl)
  ]
    where
      left : (c : ℕ) → setup_size - (i + c) ≡ setup_size - i - c
      left c = omega arith

      round :
          (c : ℕ)
          → c ≤ buf_size
          → i + c ≤ setup_size
          → Meets accepted
              (pad accepted fuel (i + c) (zeros buf_size) (out ++ zeros c))
              (returned tt ((out ++ zeros c) ++ zeros (setup_size - (i + c))))
          → Meets accepted
              (and_then
                (put accepted (zeros buf_size) c out)
                (λ _. pad accepted fuel (i + c) (zeros buf_size)))
              (returned tt (out ++ zeros (setup_size - i)))
      round c fits inside rest = bind_lem _ (put_lem (zeros buf_size) c out) (
          rw (take-zeros buf_size c fits)
            (rw (sym (zeros_split out c (setup_size - i) (omega arith)), sym (left c)) rest))

  pub copy_file_lem :
      (chunks : List (List ℕ)) (buf out : List ℕ)
      → (last : List ℕ) × Meets accepted
          (copy_chunks accepted chunks 0 buf out)
          (copied_bytes (length (bytes chunks)) last (out ++ bytes chunks))
  copy_file_lem chunks buf out =
      let (last, copied) = copy_chunks_lem chunks 0 buf out (omega arith) in
      let same : 0 + length (bytes chunks) ≡ length (bytes chunks) = omega arith in
      (last, rw same at copied)
