-- ===== src/Crypto.antt =====
-- src/runtime/crypto.cpp: random bytes, the portable AES and its counter mode, and the choice of the
-- routines on x86-64.
pub mod Bytes
pub mod Random
pub mod Aes
pub mod Counter
pub mod Features
mod Tests
