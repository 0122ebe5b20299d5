-- ===== src/Boot/Booted.antt =====
-- main of kernel/main.c: the state in which it leaves the parts of the kernel.
use my_linux_kernel.Common.{
  ℕ, zero, suc, ◌+◌, ◌<◌, ◌≡◌, ◌∙◌, refl, ap, Bool, true, false, ◌==◌, ◌*◌, ◌&&◌, leb, ltb, ◌||◌,
  subst, sym, if◌then◌else◌, arith, length, get_or, [], ◌∷◌, some,
}
use my_linux_kernel.Mm.Pages.Alloc.{count, IsManaged}
use my_linux_kernel.Mm.Run.{low_mem, used}
use my_linux_kernel.Mm.Layout.{memory_end, buffer_memory_end, init_memory, init_memory-IsManaged}
use my_linux_kernel.Segments.{Desc, set_intr_gate, set_trap_gate, set_system_gate}
use my_linux_kernel.Traps.{Handler, reserved}
use my_linux_kernel.Traps.Gates.{IsGate, exceptions, level_of, has_gate, trap_init-Gated}
use my_linux_kernel.Sched.Init.{Boot, clear_slot, clear_slots, sched_init}
use my_linux_kernel.Sched.Init.Cleared.{sched_init-Cleared}
use my_linux_kernel.Console.Valid
use my_linux_kernel.Console.Init.Screen.{IsUsable}
use my_linux_kernel.Tty.Queue.Fifo.{IsValid, contents}
use my_linux_kernel.Tty.Cooked.{Tty}
use my_linux_kernel.Tty.Init.Ready.{tty_init-IsReady}
use my_linux_kernel.Strings.Memory.{Memory}
use my_linux_kernel.Printk.Shown.{printk-Fits}
use my_linux_kernel.Printk.Fits.{Fits, short-Fits}
use my_linux_kernel.Vsprintf.Format.{
  skip_atoi, skip_flags, read_width, read_precision, skip_qualifier,
}
use my_linux_kernel.Boot.{Given, System, memory_message, init_traps, init_parts, with_tty, main}

-- The vectors of the timer, the keyboard and the system calls.
abbrev pub is_own : ℕ → Bool
is_own v = v == 0x20 || v == 0x21 || v == 0x80

-- The kernel that is ready to go on in user mode.
pub record IsBooted (g : Given) (s s' : System) : Type 0 where
  pub memory : IsManaged s'.memory
  pub pages :
      (j : ℕ)
      → j < 3840
      → let page = low_mem + j * 4096 in
        count s'.memory j ≡ (
          if leb (buffer_memory_end (memory_end g.ext_mem_k)) page
            && ltb page (memory_end g.ext_mem_k)
          then 0
          else used)
  pub divided : s'.memory ≡ init_memory g.ext_mem_k s.memory
  pub timer : s'.boot.idt 0x20 ≡ set_intr_gate g.timer_interrupt
  pub keyboard : s'.boot.idt 0x21 ≡ set_trap_gate g.keyboard_interrupt
  pub system_calls : s'.boot.idt 0x80 ≡ set_system_gate g.system_call
  pub traps :
      (v : ℕ)
      → has_gate v ≡ true
      → is_own v ≡ false
      → IsGate (s'.boot.idt v) (g.handler (get_or exceptions v reserved)) (level_of v)
  pub other_vectors : (v : ℕ) → has_gate v ≡ false → is_own v ≡ false → s'.boot.idt v ≡ s.boot.idt v
  pub slots : (j : ℕ) → j < 64 → get_or s'.boot.task j 0 ≡ 0
  pub tasks : length s'.boot.task ≡ 64
  pub screen : Valid.IsValid s'.tty.console
  pub nothing_read : IsValid s'.tty.read_q × (contents s'.tty.read_q ≡ [])

clear_slots-idt : (n i p : ℕ) (b : Boot) → (clear_slots n i p b).idt ≡ b.idt
unfolding clear_slots
clear_slots-idt zero i p b = refl
clear_slots-idt (suc n) i p b = clear_slots-idt n (i + 1) (p + 4) (clear_slot i p b)

-- The interrupt gates in the order in which main writes them.
idt_lem :
    (g : Given) (s : System) (v : ℕ)
    → (init_parts g s).boot.idt v ≡ (
        if 0x21 == v
        then set_trap_gate g.keyboard_interrupt
        else if 0x80 == v
        then set_system_gate g.system_call
        else if 0x20 == v
        then set_intr_gate g.timer_interrupt
        else (init_traps g s.boot).idt v)
unfolding init_parts sched_init
idt_lem g s v =
    ap
      (λ (idt : ℕ → Desc).
        if 0x21 == v
        then set_trap_gate g.keyboard_interrupt
        else if 0x80 == v
        then set_system_gate g.system_call
        else if 0x20 == v
        then set_intr_gate g.timer_interrupt
        else idt v)
      (clear_slots-idt 64 0 7 _)

own_lem :
    {A : Type 0} (v : ℕ) (k c t d : A)
    → is_own v ≡ false
    → (if 0x21 == v then k else if 0x80 == v then c else if 0x20 == v then t else d) ≡ d
own_lem v k c t d other = ground arith

parts_idt-other :
    (g : Given) (s : System) (v : ℕ)
    → is_own v ≡ false
    → (init_parts g s).boot.idt v ≡ (init_traps g s.boot).idt v
parts_idt-other g s v other = idt_lem g s v ∙ own_lem v _ _ _ _ other

init_traps-task : (g : Given) (b : Boot) → (init_traps g b).task ≡ b.task
unfolding init_traps
init_traps-task g b = refl

-- What the parts are before the message is printed, and with any terminal after it.
parts-IsBooted :
    (g : Given) (s : System) (t : Tty)
    → g.ext_mem_k < 65536
    → ((h : Handler) → g.handler h < 4294967296)
    → length s.boot.task ≡ 64
    → Valid.IsValid t.console
    → IsValid t.read_q × (contents t.read_q ≡ [])
    → IsBooted g s (record (init_parts g s) { tty = t })
unfolding init_parts init_traps
parts-IsBooted g s t size words long screen reads =
    let gated =
      trap_init-Gated g.handler g.mask_1 g.mask_2
        (record { idt = s.boot.idt; ports = s.boot.ports }) words in
    record {
      memory = (init_memory-IsManaged g.ext_mem_k s.memory size).0;
      pages = (init_memory-IsManaged g.ext_mem_k s.memory size).1;
      divided = refl;
      timer = idt_lem g s 0x20;
      keyboard = idt_lem g s 0x21;
      system_calls = idt_lem g s 0x80;
      traps = λ v h other.
          subst (λ d. IsGate d (g.handler (get_or exceptions v reserved)) (level_of v))
            (sym (parts_idt-other g s v other)) (gated.gates v h);
      other_vectors = λ v h other. parts_idt-other g s v other ∙ gated.left v h;
      slots =
          (sched_init-Cleared g.init_task g.timer_interrupt g.system_call g.mask_3
            (init_traps g s.boot) long).slots;
      tasks =
          (sched_init-Cleared g.init_task g.timer_interrupt g.system_call g.mask_3
            (init_traps g s.boot) long).tasks;
      screen = screen;
      nothing_read = reads;
    }

message-Fits : (strings : Memory) (a b : ℕ) → Fits strings memory_message (a ∷ b ∷ [])
unfolding skip_flags read_width read_precision skip_qualifier skip_atoi
message-Fits strings a b = short-Fits strings memory_message (a ∷ b ∷ []) (omega arith)

-- For every size of the extended memory, a usable display and handlers at 32-bit addresses,
-- main gets as far as move_to_user_mode. The map of the pages is then managed, with the pages
-- from the end of the buffers to the end of the memory free, the timer, the keyboard and the
-- system calls have their gates, the other vectors below 48 but 7 and 16 those of trap_init, no
-- slot holds a task, and the screen is valid with nothing read.
pub main-IsBooted :
    (strings : Memory) (g : Given) (s : System)
    → g.ext_mem_k < 65536
    → ((h : Handler) → g.handler h < 4294967296)
    → length s.boot.task ≡ 64
    → IsUsable g.bios
    → (s' : System) × (main strings g s ≡ some s') × IsBooted g s s'
unfolding main init_parts
main-IsBooted strings g s size words long usable =
    let end_mem = memory_end g.ext_mem_k in
    let ready = tty_init-IsReady g.bios g.mask_4 g.bell s.tty usable in
    let (n, t, ran, screen, outside, same) =
      printk-Fits strings memory_message (buffer_memory_end end_mem ∷ end_mem ∷ [])
        (init_parts g s).tty (message-Fits strings (buffer_memory_end end_mem) end_mem)
        ready.screen in
    (
      record (init_parts g s) { tty = t },
      ap (with_tty (init_parts g s)) ran,
      parts-IsBooted g s t size words long screen (rw same (ready.reads, ready.nothing_read)),
    )
