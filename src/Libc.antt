-- ===== src/Libc.antt =====
-- The kernel's C library: libc/src/ctype.c, libc/src/memory.c and libc/src/string.c.
pub mod Ctype
pub mod Memory
pub mod Strings
mod Examples
