-- ===== src/Boot/Tests.antt =====
-- Witnesses of the theorems on main of kernel/main.c: 15 MB of extended memory, an EGA display of 25
-- lines, and empty strings.
use my_linux_kernel.Common.{ℕ, ◌<◌, ◌≡◌, ◌==◌, refl, arith, [], replicate, some, if◌then◌else◌}
use my_linux_kernel.Segments.{no_desc}
use my_linux_kernel.Traps.{Handler, page_fault}
use my_linux_kernel.Console.{Console}
use my_linux_kernel.Console.Init.Screen.{IsUsable}
use my_linux_kernel.Tty.Queue.{new_queue}
use my_linux_kernel.Printk.Tests.{no_strings}
use my_linux_kernel.Boot.{Given, System, main}
use my_linux_kernel.Boot.Booted.{IsBooted, main-IsBooted}
use my_linux_kernel.Boot.Paging.{setup_paging}
use my_linux_kernel.Boot.First.{HasForked, first_kernel, main-HasForked}
use my_linux_kernel.Sched.{TaskStruct}
use my_linux_kernel.Sched.InitTask.{init_task}
use my_linux_kernel.Fork.Tests.{regs}

abbrev ega : ℕ → ℕ
ega a =
    if a == 0x90001
    then 3
    else if a == 0x90006
    then 3
    else if a == 0x90007
    then 80
    else if a == 0x9000e
    then 25
    else 0

ega-IsUsable : IsUsable ega
ega-IsUsable = record {
  wide = omega arith;
  fits = omega arith;
  line = omega arith;
  column = omega arith;
}

abbrev handler : Handler → ℕ
handler page_fault = 0x7040
handler h = 0x7100

handler_word : (h : Handler) → handler h < 4294967296
handler_word page_fault = omega arith
handler_word h = omega arith

abbrev given : Given
given = record {
  ext_mem_k = 15360;
  bios = ega;
  handler = handler;
  timer_interrupt = 0x7200;
  system_call = 0x7210;
  keyboard_interrupt = 0x7220;
  init_task = 0x9000;
  mask_1 = 0xff;
  mask_2 = 0xff;
  mask_3 = 0xfb;
  mask_4 = 0xfa;
  bell = 0;
}

abbrev blank_screen : Console
blank_screen = record {
  video_num_columns = 0;
  video_num_lines = 0;
  video_mem_base = 0;
  video_mem_end = 0;
  video_size_row = 0;
  video_port_reg = 0;
  video_port_val = 0;
  video_erase_char = 0;
  origin = 0;
  scr_end = 0;
  pos = 0;
  x = 0;
  y = 0;
  top = 0;
  bottom = 0;
  attr = 7;
  vram = λ a. 0;
  ports = [];
}

abbrev fresh : System
fresh = record {
  memory = record { high_memory = 0; mem_map = []; ram = λ w. 0 };
  boot = record {
    task = replicate 64 0x9000;
    gdt = λ v. no_desc;
    idt = λ v. no_desc;
    tr = 0;
    ldtr = 0;
    ports = [];
  };
  tty = record { read_q = new_queue; write_q = new_queue; console = blank_screen };
}

main-IsBooted_example :
    (s' : System) × (main no_strings given fresh ≡ some s') × IsBooted given fresh s'
main-IsBooted_example =
    main-IsBooted no_strings given fresh (omega arith) handler_word refl ega-IsUsable

-- The memory that head.S has mapped, of zeros behind the tables.
abbrev paged : System
paged = record fresh {
  memory = record { high_memory = 0; mem_map = []; ram = setup_paging (λ w. 0) };
}

abbrev tasks : ℕ → TaskStruct
tasks a = init_task a 0

main-HasForked_example :
    (s' : System) × (main no_strings given paged ≡ some s')
    × HasForked regs (first_kernel given s' tasks) s'.memory
main-HasForked_example =
    main-HasForked no_strings given paged (λ w. 0) regs tasks (omega arith) (omega arith)
      handler_word refl ega-IsUsable refl (λ x. omega arith) (omega arith) refl
