-- ===== src/Text.antt =====
-- What the program uses of Rust's `str`: UTF-8 validation, decimal numbers, white space.
pub mod Utf8
pub mod Decimal
pub mod Whitespace
