-- ===== src/Text.antt =====
-- Decimal text as the programs read and write it: what `printf("%jd")`, `strtol` and `strtoul` of
-- the C library do with bytes.
pub mod Digits
pub mod Print
pub mod Number
pub mod Strings
