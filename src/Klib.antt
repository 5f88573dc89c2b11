-- ===== src/Klib.antt =====
-- The C library of the abstract machine (abstract-machine/klib/src): string.c and stdlib.c over
-- byte memory, and the formatter of stdio.c.
pub mod Strings
pub mod Stdlib
pub mod Stdio
mod Tests
