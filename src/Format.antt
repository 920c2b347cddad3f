-- ===== src/Format.antt =====
-- The C++ formatting command and commit hook, scripts/format_cpp.py.
pub mod Paths
pub mod Names
pub mod Version
pub mod Run
mod Tests
