-- ===== src/Decoder.antt =====
-- The schema-2 event decoder, benchmark/tail-localization/decode_v3.py.
pub mod Faults
pub mod Wire
pub mod Threads
pub mod Merge
pub mod Group
pub mod Finish
pub mod Associate
pub mod Capture
mod Tests
