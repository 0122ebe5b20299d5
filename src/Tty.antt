-- ===== src/Tty.antt =====
-- kernel/chr_drv/tty_io.c and include/linux/tty.h: the character queues of the terminal, and what
-- goes from one to the other and to the screen.
pub mod Queue
pub mod Cooked
pub mod Init
