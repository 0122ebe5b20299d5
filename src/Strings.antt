-- ===== src/Strings.antt =====
-- lib/string.c and include/string.h: the functions on strings and blocks of bytes.
pub mod Memory
pub mod First
pub mod Copy
pub mod Compare
pub mod Search
pub mod Token
mod Tests
