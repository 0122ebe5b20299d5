-- ===== src/Lib.antt =====
-- The kernel in the version that this repository keeps: a small Linux 0.11 for the i386.
--
-- The kernel boots in assembler, divides the memory (main in kernel/main.c), and then works through
-- interrupts: the keyboard fills the read queue of the terminal, which is echoed onto the text
-- screen; the timer makes the scheduler choose among at most 64 tasks; fork and the write faults
-- after it work on the page tables. A definition has the name of the C function, macro or variable
-- that it translates; a loop or a block of a function that has no name in C gets a name of its own,
-- and the comment above it says which part it is.
--
-- Common     helpers: Boolean tests, lists, 32-bit words, bit masks, signed integers.
-- Tty        Queue: the ring buffer of include/linux/tty.h and CHARS, PUTCH, GETCH and EMPTY of
--            kernel/chr_drv/tty_io.c. Cooked: copy_to_cooked, do_tty_interrupt, tty_write, and
--            con_write of kernel/chr_drv/console.c. Init: tty_init.
-- Console    kernel/chr_drv/console.c: the variables of the screen as one record with
--            the bytes of memory and the port writes, and one function for each of the file.
-- Keyboard   kernel/chr_drv/kboard.c: the tables, every handler, and the interrupt, which ends in
--            Tty's do_tty_interrupt.
-- Mm         Run: the memory and the results of a run (a panic and an endless loop are results).
--            Pages: free_page and mem_init of mm/memory.c and get_free_page of mm/swap.c. Tables:
--            the page tables, their copying, their freeing and the write faults of mm/memory.c.
--            Layout: main's division of the memory, from which mem_init's arguments come.
-- Sched      kernel/sched.c: schedule, do_timer, and switch_to of include/linux/sched.h. Sleep:
--            __sleep_on, cut in two where it calls schedule, and wake_up. Init: sched_init.
-- Traps      trap_init of kernel/traps.c. Die: die, and the do_ functions, which print the
--            registers.
-- Panic      panic of kernel/panic.c: what it shows before its endless loop.
-- Segments   the descriptors of include/linux/head.h, and the macros of include/asm/system.h and
--            include/linux/sched.h that write and read them.
-- Fork       kernel/fork.c over Sched, Mm and Segments: find_empty_process, copy_mem, copy_process;
--            and sys_fork of kernel/sys_call.S, which calls the first and the last of them.
-- Vsprintf   kernel/vsprintf.c. Number: number and do_div. Format: skip_atoi and vsprintf, with the
--            format and the text as lists, the arguments as a list of words, and strings in memory.
-- Printk     printk of kernel/printk.c, from vsprintf to Tty's tty_write.
-- Strings    lib/string.c: Memory: the bytes and the string instructions. Copy, Compare, Search and
--            Token: the functions, a child each for what is said of them.
--
-- Boot       main of kernel/main.c up to move_to_user_mode: the set-up functions of Mm, Traps,
--            Sched and Tty, one after the other, and printk's message. Paging: setup_paging of
--            kernel/head.S, whose page tables the first fork copies.
-- Syscall    system_call of kernel/sys_call.S over the table of include/linux/sys.h, with the numbers
--            and _syscall0 of include/unistd.h, up to what fork returns to a program.
-- Build      main of tools/build.c, which runs on the host: Run: a run with its output and its end.
--            Files, Image and Layout: what is said of the image. stat, open, read and write are
--            parameters; what fprintf writes to stderr is left out but for the causes of die.
--
-- State is passed on as a record. An unsigned long is a number below 2^32 with its wrap-around
-- written out, and an unsigned char one below 2^8; counters and sizes are integers.
-- Assembler text in the C files is translated instruction by instruction: `rep movsl` and
-- `rep stosw` of the console, the scan and the clearing of get_free_page.
--
-- Fuel: get_free_page runs for two rounds more than there are pages, and one round is enough on a
-- managed map. copy_to_cooked runs for as many rounds as the queue has places, one more than it can
-- hold. schedule runs for two rounds, and tmp_digits for the 32 digits that a word can have.
-- find_empty_process runs for 65 rounds, one more than there are tasks.
-- kb_wait waits for readings of a port, which are a list; where they run out it waits for ever.
-- A string function runs for as many rounds as there are addresses, which is enough for every
-- string. No string or block of memory goes round the end of the addresses.
-- vsprintf runs for one round more than the format has bytes.
-- The padding of the setup in tools/build.c runs for three rounds, and two are enough.
--
-- Left out: the assembler files but for system_call, sys_fork and setup_paging; what setup.S
-- leaves at 0x90000 is a parameter of con_init. The structures of the tasks stand apart from the
-- memory of mm/, and so does what %n writes. A text that overruns printk's buffer, a read of die
-- that faults, and a sum of tools/build.c beyond an int have no result. In number of
-- kernel/vsprintf.c the size does not wrap around. Interrupts do not arrive inside a function.
pub mod Common
pub mod Tty
pub mod Console
pub mod Mm
pub mod Keyboard
pub mod Sched
pub mod Vsprintf
pub mod Strings
pub mod Segments
pub mod Fork
pub mod Traps
pub mod Printk
pub mod Boot
pub mod Panic
pub mod Build
pub mod Syscall
