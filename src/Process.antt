-- ===== src/Process.antt =====
-- src/runtime/io.cpp: child processes. Strings are lists of bytes.
pub mod System
pub mod Args
pub mod Context
pub mod Filter
pub mod Child
pub mod Spawn
pub mod Lifetime
mod Tests
