-- ===== src/Tty/Queue/Fifo.antt =====
-- Valid tty queues and their contents, for CHARS, PUTCH, GETCH and EMPTY of kernel/chr_drv/tty_io.c.
use my_linux_kernel.Common.{
  ℕ, zero, suc, ◌+◌, ◌-◌, ◌%◌, ◌<◌, ◌≡◌, ◌≢◌, refl, ap, ap₂, ◌∙◌, true, false, List, [], ◌∷◌, ◌++◌,
  arith, add32, sub32, get_or, set, length, length-set, sym, ◌↔◌, ==_iff,
}
use my_linux_kernel.Common.Bits.{bit_and_low}
use my_linux_kernel.Tty.Queue.{TtyQueue, new_queue, chars, putch, getch, empty}

pub record IsValid (q : TtyQueue) : Type 0 where
  pub head_in : q.head < 1024
  pub tail_in : q.tail < 1024
  pub room : length q.buf ≡ 1024

module _ (buf : List ℕ) where
  -- the `n` characters from index `i` on, with indices taken modulo the size
  abbrev pub span : ℕ → ℕ → List ℕ
  span i zero = []
  span i (suc n) = get_or buf (i % 1024) 0 ∷ span (i + 1) n

  length-span : (i n : ℕ) → length (span i n) ≡ n
  length-span i zero = refl
  length-span i (suc n) = ap suc (length-span (i + 1) n)

  pub span_eq : (i n m : ℕ) → n ≡ m → span i n ≡ span i m
  span_eq i n m e = ap (span i) e

  span-mod : (i j n : ℕ) → i % 1024 ≡ j % 1024 → span i n ≡ span j n
  span-mod i j zero e = refl
  span-mod i j (suc n) e =
      ap₂ ◌∷◌ (ap (λ k. get_or buf k 0) e) (span-mod (i + 1) (j + 1) n (omega arith))

  span-suc : (i n : ℕ) → span i (suc n) ≡ span i n ++ get_or buf ((i + n) % 1024) 0 ∷ []
  span-suc i zero = ap (λ k. get_or buf (k % 1024) 0 ∷ []) (omega arith)
  span-suc i (suc n) =
      ap (λ l. get_or buf (i % 1024) 0 ∷ l)
        (span-suc (i + 1) n
          ∙ ap (λ k. span (i + 1) n ++ get_or buf (k % 1024) 0 ∷ []) (omega arith))

get_or-set_same : (xs : List ℕ) (i v : ℕ) → i < length xs → get_or (set xs i v) i 0 ≡ v
get_or-set_same [] i v h = absurd (omega arith)
get_or-set_same (x ∷ xs) zero v h = refl
get_or-set_same (x ∷ xs) (suc i) v h = get_or-set_same xs i v (omega arith)

get_or-set_other : (xs : List ℕ) (i j v : ℕ) → i ≢ j → get_or (set xs i v) j 0 ≡ get_or xs j 0
get_or-set_other [] i j v h = refl
get_or-set_other (x ∷ xs) zero zero v h = absurd (h refl)
get_or-set_other (x ∷ xs) zero (suc j) v h = refl
get_or-set_other (x ∷ xs) (suc i) zero v h = refl
get_or-set_other (x ∷ xs) (suc i) (suc j) v h = get_or-set_other xs i j v (λ e. h (ap suc e))

-- A write just behind a span that is not the whole buffer leaves the span.
span-set :
    (buf : List ℕ) (i n j c : ℕ)
    → n < 1024
    → j ≡ (i + n) % 1024
    → span (set buf j c) i n ≡ span buf i n
span-set buf i zero j c small e = refl
span-set buf i (suc n) j c small e =
    ap₂ ◌∷◌ (get_or-set_other buf j (i % 1024) c (omega arith))
      (span-set buf (i + 1) n j c (omega arith) (omega arith))

-- what a queue holds, oldest first
abbrev pub contents : TtyQueue → List ℕ
contents q = span q.buf q.tail (chars q)

pub chars_lem : {q : TtyQueue} → IsValid q → chars q ≡ (q.head + 1024 - q.tail) % 1024
unfolding chars
chars_lem {q} v = omega (arith, bit_and_low 10 (sub32 q.head q.tail) 1023 refl)

head-putch : {q : TtyQueue} (c : ℕ) → IsValid q → (putch c q).head ≡ (q.head + 1) % 1024
unfolding putch
head-putch {q} c v = omega (arith, bit_and_low 10 (add32 q.head 1) 1023 refl)

tail-getch : {q : TtyQueue} → IsValid q → (getch q).1.tail ≡ (q.tail + 1) % 1024
unfolding getch
tail-getch {q} v = omega (arith, bit_and_low 10 (add32 q.tail 1) 1023 refl)

-- CHARS is the number of characters in the queue, and it is below the size.
pub length-contents :
    {q : TtyQueue} → IsValid q → (length (contents q) ≡ chars q) × (chars q < 1024)
length-contents {q} v = (length-span q.buf q.tail (chars q), omega (arith, chars_lem v))

pub new_queue-IsValid : IsValid new_queue
unfolding new_queue
new_queue-IsValid = record { head_in = omega arith; tail_in = omega arith; room = refl }

pub contents-new_queue : contents new_queue ≡ []
unfolding new_queue chars
contents-new_queue = refl

pub putch-IsValid : {q : TtyQueue} (c : ℕ) → IsValid q → IsValid (putch c q)
putch-IsValid {q} c v = record {
  head_in = omega (arith, head-putch c v);
  tail_in = unfold putch in v.tail_in;
  room = unfold putch in length-set q.buf q.head c ∙ v.room;
}

pub getch-IsValid : {q : TtyQueue} → IsValid q → IsValid (getch q).1
getch-IsValid {q} v = record {
  head_in = unfold getch in v.head_in;
  tail_in = omega (arith, tail-getch v);
  room = unfold getch in v.room;
}

chars-putch : {q : TtyQueue} (c : ℕ) → IsValid q → chars (putch c q) ≡ (chars q + 1) % 1024
chars-putch {q} c v =
    let same : (putch c q).tail ≡ q.tail = unfold putch in refl in
    omega (arith, chars_lem (putch-IsValid c v), chars_lem v, head-putch c v)

pub chars-getch : {q : TtyQueue} → IsValid q → chars q ≢ 0 → chars (getch q).1 ≡ chars q - 1
chars-getch {q} v some_left =
    let same : (getch q).1.head ≡ q.head = unfold getch in refl in
    omega (arith, chars_lem (getch-IsValid v), chars_lem v, tail-getch v)

-- PUTCH on a queue with fewer than 1023 characters adds the character at the end.
pub contents-putch :
    {q : TtyQueue} (c : ℕ)
    → IsValid q
    → chars q < 1023
    → contents (putch c q) ≡ contents q ++ c ∷ []
contents-putch {q} c v free =
    ap (λ n. span (putch c q).buf (putch c q).tail n) more
    ∙ unfold putch in
      (span-suc (set q.buf q.head c) q.tail (chars q)
        ∙ ap₂ (λ xs x. xs ++ x ∷ [])
            (span-set q.buf q.tail (chars q) q.head c (omega arith) at_head)
            (ap (λ k. get_or (set q.buf q.head c) k 0) (sym at_head)
              ∙ get_or-set_same q.buf q.head c (omega arith)))
  where
    more : chars (putch c q) ≡ suc (chars q)
    more = omega (arith, chars-putch c v)

    at_head : q.head ≡ (q.tail + chars q) % 1024
    at_head = omega (arith, chars_lem v)

-- PUTCH on a valid queue with 1023 characters loses them all: the queue is empty afterwards.
pub contents-putch_full :
    {q : TtyQueue} (c : ℕ) → IsValid q → chars q ≡ 1023 → contents (putch c q) ≡ []
contents-putch_full {q} c v full =
    span_eq (putch c q).buf (putch c q).tail (chars (putch c q)) 0 (omega (arith, chars-putch c v))

-- GETCH on a queue that is not empty returns the oldest character and removes it.
pub getch-contents :
    {q : TtyQueue} → IsValid q → chars q ≢ 0 → contents q ≡ (getch q).0 ∷ contents (getch q).1
getch-contents {q} v some_left =
    span_eq q.buf q.tail (chars q) (suc (chars q - 1)) (omega arith)
    ∙ ap₂ ◌∷◌ (unfold getch in ap (λ k. get_or q.buf k 0) in_place) (
        span-mod q.buf (q.tail + 1) (getch q).1.tail (chars q - 1) (omega (arith, tail-getch v))
        ∙ ap (λ n. span q.buf (getch q).1.tail n) (sym (chars-getch v some_left))
        ∙ (unfold getch in refl))
  where
    in_place : q.tail % 1024 ≡ q.tail
    in_place = omega arith

-- EMPTY of a valid queue is true exactly when the queue holds nothing.
pub empty_iff : {q : TtyQueue} → IsValid q → (empty q ≡ true) ↔ (contents q ≡ [])
empty_iff {q} v = (
  (λ e. span_eq q.buf q.tail (chars q) 0 (omega (arith, same.0 e, chars_lem v))),
  λ e. same.1 (omega (arith, chars_lem v, length-span q.buf q.tail (chars q), ap length e)),
)
  where
    same : (empty q ≡ true) ↔ (q.head ≡ q.tail)
    same = unfold empty in ==_iff q.head q.tail

pub chars-ne-zero : {q : TtyQueue} → IsValid q → empty q ≡ false → chars q ≢ 0
unfolding empty
chars-ne-zero {q} v e = ground (arith, chars_lem v)
