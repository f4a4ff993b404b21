-- ===== src/Decimal.antt =====
-- src/runtime/decimal.cpp: the 128-bit decimal type of the language.
pub mod Word
pub mod Digits
pub mod Encode
pub mod Returned
pub mod Arith
pub mod Convert
pub mod Strings
mod Tests
