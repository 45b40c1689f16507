-- ===== src/Clib.antt =====
-- The C library that the kernel and the programs share: lab/lib/string.c and lab/lib/printfmt.c.
pub mod Str
pub mod Format
pub mod Number
pub mod Readline
mod Tests
