-- ===== src/Libc.antt =====
-- What the code uses of the C library: `string.h`, and `strtoull` with the conversions of `printf`.
pub mod Text
pub mod Number
pub mod Print
