-- ===== src/Tty/Queue/Script.antt =====
-- PUTCH and GETCH of kernel/chr_drv/tty_io.c in any order, against a list of characters.
use my_linux_kernel.Common.{
  ℕ, ◌==◌, ◌≡◌, refl, ap, ◌∙◌, List, [], ◌∷◌, ◌++◌, Option, none, some, arith, if◌then◌else◌,
  length, Bool-cases, ==_iff, inl, inr,
}
use my_linux_kernel.Tty.Queue.{TtyQueue, putch, getch, empty}
use my_linux_kernel.Tty.Queue.Fifo.{
  IsValid, contents, length-contents, putch-IsValid, getch-IsValid, contents-putch,
  contents-putch_full, getch-contents, empty_iff, chars-ne-zero,
}

pub data Op : Type 0 where
  put : ℕ → Op
  get : Op

-- The callers' use of the queue: GETCH only when EMPTY says that there is something.
unfoldable pub run : TtyQueue → List Op → List (Option ℕ) × TtyQueue
run q [] = ([], q)
run q (put c ∷ ops) = run (putch c q) ops
run q (get ∷ ops) =
    let took = run (getch q).1 ops in
    let idle = run q ops in
    if empty q then (none ∷ idle.0, idle.1) else (some (getch q).0 ∷ took.0, took.1)

unfoldable pub push : ℕ → List ℕ → List ℕ
push c xs = if length xs == 1023 then [] else xs ++ c ∷ []

-- the same calls on the list of characters
unfoldable pub run_list : List ℕ → List Op → List (Option ℕ) × List ℕ
run_list xs [] = ([], xs)
run_list xs (put c ∷ ops) = run_list (push c xs) ops
run_list [] (get ∷ ops) = let (out, ys) = run_list [] ops in (none ∷ out, ys)
run_list (x ∷ xs) (get ∷ ops) = let (out, ys) = run_list xs ops in (some x ∷ out, ys)

contents-putch_lem : {q : TtyQueue} (c : ℕ) → IsValid q → contents (putch c q) ≡ push c (contents q)
unfolding push
contents-putch_lem {q} c v = elim (Bool-cases (length (contents q) == 1023)) [
  | inl full ↦
      rw full (contents-putch_full c v (omega (arith, (==_iff _ _).0 full, length-contents v)))
  | inr free ↦ rw free (contents-putch c v (ground (arith, length-contents v)))
]

-- From a valid queue, every sequence of PUTCH and guarded GETCH returns what the same calls on
-- a list of at most 1023 characters return, and the contents afterwards are that list.
pub run_refines :
    (ops : List Op) {q : TtyQueue}
    → IsValid q
    → let (out, q') = run q ops in (out, contents q') ≡ run_list (contents q) ops
unfolding run run_list
run_refines [] v = refl
run_refines (put c ∷ ops) v =
    run_refines ops (putch-IsValid c v) ∙ ap (λ xs. run_list xs ops) (contents-putch_lem c v)
run_refines (get ∷ ops) {q} v = elim (Bool-cases (empty q)) [
  | inl e ↦
      rw (e, (empty_iff v).0 e)
        (ap (λ r. (none ∷ r.0, r.1))
          (run_refines ops v ∙ ap (λ xs. run_list xs ops) ((empty_iff v).0 e)))
  | inr e ↦
      rw (e, getch-contents v (chars-ne-zero v e))
        (ap (λ r. (some (getch q).0 ∷ r.0, r.1)) (run_refines ops (getch-IsValid v)))
]
