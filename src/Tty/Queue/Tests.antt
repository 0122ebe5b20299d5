-- ===== src/Tty/Queue/Tests.antt =====
-- Runs of the queue, and witnesses of its theorems.
use my_linux_kernel.Common.{◌≡◌, refl, arith, [], ◌∷◌, replicate}
use my_linux_kernel.Tty.Queue.{TtyQueue, new_queue, chars, putch}
use my_linux_kernel.Tty.Queue.Fifo.{IsValid, contents, new_queue-IsValid, putch-IsValid}
use my_linux_kernel.Tty.Queue.Script.{put, get, run, run_list, run_refines}

-- It holds 1023 characters.
abbrev brimming : TtyQueue
brimming = record { queue_data = 0; head = 5; tail = 6; proc_list = 0; buf = replicate 1024 97 }

brimming-IsValid : IsValid brimming
brimming-IsValid = record { head_in = omega arith; tail_in = omega arith; room = refl }

brimming-chars : chars brimming ≡ 1023
unfolding chars
brimming-chars = refl

abbrev two_chars : TtyQueue
two_chars = putch 98 (putch 97 new_queue)

two_chars-IsValid : IsValid two_chars
two_chars-IsValid = putch-IsValid 98 (putch-IsValid 97 new_queue-IsValid)

wrapped : (putch 97 (record new_queue { head = 1023; tail = 1023 })).head ≡ 0
unfolding putch new_queue
wrapped = refl

run_refines_example :
    let (out, q') = run two_chars (get ∷ put 99 ∷ get ∷ get ∷ get ∷ []) in
    (out, contents q') ≡ run_list (contents two_chars) (get ∷ put 99 ∷ get ∷ get ∷ get ∷ [])
run_refines_example = run_refines (get ∷ put 99 ∷ get ∷ get ∷ get ∷ []) two_chars-IsValid
