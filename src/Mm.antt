-- ===== src/Mm.antt =====
-- mm/memory.c, mm/swap.c and include/linux/mm.h: physical pages and page tables.
pub mod Run
pub mod Pages
pub mod Tables
pub mod Layout
