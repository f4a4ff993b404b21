-- ===== src/Text.antt =====
-- src/runtime/core.cpp: text helpers of the runtime. A string is a list of bytes.
pub mod Integers
pub mod BigEndian
pub mod Urls
pub mod Html
mod Tests
