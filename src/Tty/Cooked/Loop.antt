-- ===== src/Tty/Cooked/Loop.antt =====
-- The loops of copy_to_cooked (kernel/chr_drv/tty_io.c) and con_write (kernel/chr_drv/console.c).
use my_linux_kernel.Common.{
  ℕ, zero, suc, ◌+◌, ◌==◌, ◌&&◌, ◌||◌, ◌≡◌, ◌≢◌, ◌<◌, refl, ap, ap₂, ◌∙◌, sym, List, [], ◌∷◌, ◌++◌,
  some, arith, if◌then◌else◌, length, Bool-cases, inl, inr, ltb, u8, not,
}
use my_linux_kernel.Tty.Queue.{TtyQueue, tty_buf_size, chars, putch, getch, empty}
use my_linux_kernel.Tty.Queue.Fifo.{
  IsValid, contents, length-contents, putch-IsValid, getch-IsValid, contents-putch, getch-contents,
  empty_iff, chars-ne-zero, span_eq, chars-getch,
}
use my_linux_kernel.Console.{Console, write_char}
use my_linux_kernel.Tty.Cooked.{
  Tty, con_write_loop, con_write, put_cooked, cook, copy_loop, copy_to_cooked,
}

-- What the terminal echoes for a byte: a line feed also returns the carriage, a control character
-- and a byte above 127 show as `^` and a letter, and all else shows as it is.
unfoldable pub echo : ℕ → List ℕ
echo c =
    if c == 10
    then 10 ∷ 13 ∷ []
    else (if (ltb c 32 && not (c == 8 || c == 9 || c == 13)) || ltb 127 c
        then b'^' ∷ u8 (c + 64) ∷ []
        else c ∷ [])

unfoldable pub echo_list : List ℕ → List ℕ
echo_list [] = []
echo_list (c ∷ cs) = echo c ++ echo_list cs

unfoldable pub show : List ℕ → Console → Console
show [] s = s
show (c ∷ cs) s = show cs (write_char c s)

show-append : (xs ys : List ℕ) (s : Console) → show (xs ++ ys) s ≡ show ys (show xs s)
unfolding show
show-append [] ys s = refl
show-append (x ∷ xs) ys s = show-append xs ys (write_char x s)

abbrev pub Emptied : TtyQueue → Type 0
Emptied q = IsValid q × (contents q ≡ [])

-- The loop of con_write takes all characters of the queue, and shows them in order.
con_write_loop-show :
    (n : ℕ) {q : TtyQueue} (s : Console)
    → IsValid q
    → chars q ≡ n
    → let (q', s') = con_write_loop n q s in Emptied q' × (s' ≡ show (contents q) s)
unfolding con_write_loop show
con_write_loop-show zero {q} s v e =
    let none_left : contents q ≡ [] = span_eq q.buf q.tail (chars q) 0 e in
    ((v, none_left), rw none_left)
con_write_loop-show (suc n) {q} s v e =
    let more : chars q ≢ 0 = omega arith in
    let (left, out) =
      con_write_loop-show n {q = (getch q).1} (write_char (getch q).0 s) (getch-IsValid v)
        (omega (arith, chars-getch v more)) in
    (left, rw (getch-contents v more) out)

-- con_write empties a valid write queue onto the screen, in order, and leaves the read queue.
pub con_write_lem :
    (t : Tty)
    → IsValid t.write_q
    → Emptied (con_write t).write_q
      × ((con_write t).console ≡ show (contents t.write_q) t.console)
      × ((con_write t).read_q ≡ t.read_q)
unfolding con_write
con_write_lem t v =
    let (left, out) = con_write_loop-show (chars t.write_q) t.console v refl in (left, out, refl)

-- A queue that holds just `xs`.
abbrev Holds : List ℕ → TtyQueue → Type 0
Holds xs q = IsValid q × (contents q ≡ xs)

put_one : (c : ℕ) {q : TtyQueue} → Emptied q → Holds (c ∷ []) (putch c q)
put_one c {q} (v, none_left) =
    let room : chars q < 1023 = omega (arith, length-contents v, ap length none_left) in
    (putch-IsValid c v, rw (contents-putch c v room, none_left))

put_two : (c d : ℕ) {q : TtyQueue} → Emptied q → Holds (c ∷ d ∷ []) (putch d (putch c q))
put_two c d {q} e =
    let (v, one) = put_one c e in
    let room : chars (putch c q) < 1023 = omega (arith, length-contents v, ap length one) in
    (putch-IsValid d v, rw (contents-putch d v room, one))

-- An empty queue has the room for what one byte puts.
put_cooked-echo : (c : ℕ) {q : TtyQueue} → Emptied q → Holds (echo c) (put_cooked c q)
unfolding put_cooked echo
put_cooked-echo c {q} e = ground (arith, put_one c e, put_two 10 13 e, put_two b'^' (u8 (c + 64)) e)

record Cooked (t t' : Tty) : Type 0 where
  rest : t'.read_q ≡ (getch t.read_q).1
  written : Emptied t'.write_q
  shown : t'.console ≡ show (echo (getch t.read_q).0) t.console

cook-Cooked : (t : Tty) → Emptied t.write_q → Cooked t (cook t)
unfolding cook
cook-Cooked t w =
    let c = (getch t.read_q).0 in
    let (v, put) = put_cooked-echo c w in
    let (left, out, same) =
      con_write_lem (record t { read_q = (getch t.read_q).1; write_q = put_cooked c t.write_q })
        v in
    record { rest = same; written = left; shown = rw put at out }

-- all that copy_to_cooked shall do to `t`
pub record Drained (t t' : Tty) : Type 0 where
  pub read_all : Emptied t'.read_q
  pub wrote_all : Emptied t'.write_q
  pub shown : t'.console ≡ show (echo_list (contents t.read_q)) t.console

cook-Drained :
    (t t' : Tty)
    → IsValid t.read_q
    → chars t.read_q ≢ 0
    → Cooked t (cook t)
    → Drained (cook t) t'
    → Drained t t'
cook-Drained t t' v more k d = record {
  read_all = d.read_all;
  wrote_all = d.wrote_all;
  shown =
      d.shown
      ∙ ap₂ (λ q s. show (echo_list (contents q)) s) k.rest k.shown
      ∙ sym (show-append (echo c) (echo_list (contents (getch t.read_q).1)) t.console)
      ∙ ap (λ cs. show cs t.console)
          (unfold echo_list in ap echo_list (sym (getch-contents v more)));
}
  where
    c : ℕ
    c = (getch t.read_q).0

copy_loop-Drained :
    (n : ℕ) (t : Tty)
    → IsValid t.read_q
    → Emptied t.write_q
    → chars t.read_q < n
    → (t' : Tty) × (copy_loop n t ≡ some t') × Drained t t'
unfolding copy_loop
copy_loop-Drained zero t v w fuel = absurd (omega arith)
copy_loop-Drained (suc n) t v w fuel = elim (Bool-cases (empty t.read_q)) [
  | inl done ↦
      let none_left = (empty_iff v).0 done in
      rw done (
        t,
        refl,
        record {
          read_all = (v, none_left);
          wrote_all = w;
          shown = rw none_left (unfold echo_list show in refl);
        },
      )
  | inr more ↦
      let left : chars t.read_q ≢ 0 = chars-ne-zero v more in
      let k = cook-Cooked t w in
      let (t', returned, drained) =
        copy_loop-Drained n (cook t) (rw k.rest (getch-IsValid v)) k.written
          (rw k.rest (omega (arith, chars-getch v left))) in
      rw more (t', returned, cook-Drained t t' v left k drained)
]

-- From a valid read queue and a valid, empty write queue the loop of copy_to_cooked ends.
-- Afterwards both queues are empty, and the screen shows what the bytes of the read queue echo,
-- in their order.
pub copy_to_cooked-Drained :
    (t : Tty)
    → IsValid t.read_q
    → Emptied t.write_q
    → (t' : Tty) × (copy_to_cooked t ≡ some t') × Drained t t'
unfolding copy_to_cooked
copy_to_cooked-Drained t v w = copy_loop-Drained tty_buf_size t v w (length-contents v).1
