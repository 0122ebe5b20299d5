-- ===== src/Tty/Cooked/Tests.antt =====
-- Witnesses of the theorems on the terminal: `a`, a line feed and Ctrl-A wait to be read.
use my_linux_kernel.Console.Init.Screen.{IsUsable}
use my_linux_kernel.Tty.Init.{tty_init}
use my_linux_kernel.Tty.Init.Ready.{IsReady, tty_init-IsReady}
use my_linux_kernel.Common.{ℕ, ◌==◌, if◌then◌else◌, arith, inl, ◌≡◌, refl, [], ◌∷◌, some}
use my_linux_kernel.Console.{Console}
use my_linux_kernel.Tty.Queue.{TtyQueue, new_queue, putch}
use my_linux_kernel.Tty.Queue.Fifo.{IsValid, new_queue-IsValid, contents-new_queue, putch-IsValid}
use my_linux_kernel.Console.Valid
use my_linux_kernel.Tty.Cooked.{Tty, copy_to_cooked, do_tty_interrupt}
use my_linux_kernel.Tty.Cooked.Safe.{do_tty_interrupt-Outside}
use my_linux_kernel.Tty.Cooked.Loop.{Drained, echo, copy_to_cooked-Drained}

abbrev screen : Console
screen = record {
  video_num_columns = 80;
  video_num_lines = 25;
  video_mem_base = 0xb8000;
  video_mem_end = 0xbc000;
  video_size_row = 160;
  video_port_reg = 0x3d4;
  video_port_val = 0x3d5;
  video_erase_char = 0x0720;
  origin = 0xb8000;
  scr_end = 0xb8fa0;
  pos = 0xb8000;
  x = 0;
  y = 0;
  top = 0;
  bottom = 25;
  attr = 7;
  vram = λ a. 0;
  ports = [];
}

abbrev typed : TtyQueue
typed = putch 1 (putch 10 (putch 97 new_queue))

typed-IsValid : IsValid typed
typed-IsValid = putch-IsValid 1 (putch-IsValid 10 (putch-IsValid 97 new_queue-IsValid))

abbrev waiting : Tty
waiting = record { read_q = typed; write_q = new_queue; console = screen }

abbrev writing : Tty
writing = record { read_q = new_queue; write_q = typed; console = screen }

control_a : echo 1 ≡ 94 ∷ 65 ∷ []
unfolding echo
control_a = refl

copy_to_cooked-Drained_example :
    (t' : Tty) × (copy_to_cooked waiting ≡ some t') × Drained waiting t'
copy_to_cooked-Drained_example =
    copy_to_cooked-Drained waiting typed-IsValid (new_queue-IsValid, contents-new_queue)

screen-IsValid : Valid.IsValid screen
screen-IsValid = record {
  wide = omega arith;
  columns_byte = omega arith;
  lines_byte = omega arith;
  row = refl;
  fits = omega arith;
  bank = omega arith;
  low = omega arith;
  whole = refl;
  all_lines = refl;
  above_base = omega arith;
  window = refl;
  below_end = omega arith;
  line = omega arith;
  column = omega arith;
  cursor = refl;
}

do_tty_interrupt-Outside_example :
    (t' : Tty) × (do_tty_interrupt waiting ≡ some t')
    × Valid.IsValid t'.console
    × (t'.console.vram 0x1000 ≡ 0)
do_tty_interrupt-Outside_example =
    do_tty_interrupt-Outside waiting 0x1000 typed-IsValid (new_queue-IsValid, contents-new_queue)
      screen-IsValid (inl (omega arith))

-- An EGA display of 25 lines and 80 columns in colour, with the cursor in line 3.
abbrev ega : ℕ → ℕ
ega a =
    if a == 0x90001
    then 3
    else if a == 0x90006
    then 3
    else if a == 0x90007
    then 80
    else if a == 0x9000e
    then 25
    else 0

ega-IsUsable : IsUsable ega
ega-IsUsable = record {
  wide = omega arith;
  fits = omega arith;
  line = omega arith;
  column = omega arith;
}

tty_init-IsReady_example : IsReady (tty_init ega 0xff 0 writing)
tty_init-IsReady_example = tty_init-IsReady ega 0xff 0 writing ega-IsUsable
