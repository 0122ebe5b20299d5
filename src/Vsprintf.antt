-- ===== src/Vsprintf.antt =====
-- kernel/vsprintf.c: the formatting of texts for printk.
pub mod Number
pub mod Format
