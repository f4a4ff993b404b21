-- ===== src/Memory.antt =====
-- src/runtime/alloc.cpp: the objects of a running program, their counts and the audit of leaks.
pub mod Table
pub mod State
pub mod Arena
pub mod Count
pub mod Audit
mod Tests
