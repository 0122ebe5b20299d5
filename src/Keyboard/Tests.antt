-- ===== src/Keyboard/Tests.antt =====
-- Witnesses of the theorems on the keyboard: caps lock (0x3a) and the key `a` (0x1e) are pressed.
use my_linux_kernel.Common.{◌≡◌, refl, true, arith, [], ◌∷◌, some}
use my_linux_kernel.Console.{Console}
use my_linux_kernel.Tty.Queue.{new_queue, empty}
use my_linux_kernel.Tty.Queue.Fifo.{new_queue-IsValid, contents-new_queue}
use my_linux_kernel.Tty.Cooked.Loop.{Emptied}
use my_linux_kernel.Keyboard.{Kboard, tests, out, keyboard_handler}
use my_linux_kernel.Keyboard.Lights.{IsSynced}
use my_linux_kernel.Keyboard.Lock.{keyboard_handler-Handled}
use my_linux_kernel.Keyboard.Scan.{keyboard_handler-do_self}

abbrev screen : Console
screen = record {
  video_num_columns = 80;
  video_num_lines = 25;
  video_mem_base = 0xb8000;
  video_mem_end = 0xbc000;
  video_size_row = 160;
  video_port_reg = 0x3d4;
  video_port_val = 0x3d5;
  video_erase_char = 0x0720;
  origin = 0xb8000;
  scr_end = 0xb8fa0;
  pos = 0xb8000;
  x = 0;
  y = 0;
  top = 0;
  bottom = 25;
  attr = 7;
  vram = λ a. 0;
  ports = [];
}

abbrev idle : Kboard
idle = record {
  scan_code = 0;
  leds = 0;
  mode = 0;
  e0 = 0;
  status = 2 ∷ 2 ∷ [];
  ports = [];
  beyond = λ i. 0;
  tty = record { read_q = new_queue; write_q = new_queue; console = screen };
}

idle-IsSynced : IsSynced 0 0
unfolding tests
idle-IsSynced = record { mode_byte = omega arith; leds_byte = omega arith; same = refl }

none_waiting : empty new_queue ≡ true
unfolding empty new_queue
none_waiting = refl

keyboard_handler-Handled_example :
    (k' : Kboard) × (keyboard_handler 0x3a idle ≡ some k')
    × IsSynced k'.mode k'.leds
    × Emptied k'.tty.read_q
    × Emptied k'.tty.write_q
keyboard_handler-Handled_example =
    keyboard_handler-Handled 0x3a idle [] idle-IsSynced new_queue-IsValid
      (new_queue-IsValid, contents-new_queue) refl

keyboard_handler-do_self_example : keyboard_handler 0x1e idle ≡ some (out 0x20 0x20 idle)
keyboard_handler-do_self_example = keyboard_handler-do_self 0x1e idle refl refl none_waiting
