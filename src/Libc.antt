-- ===== src/Libc.antt =====
-- libc/string.c. libc/mem.c is with the memory that it works on.
pub mod Strings
