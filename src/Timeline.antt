-- ===== src/Timeline.antt =====
-- Request timelines, benchmark/tail-localization/analyze.py.
pub mod Errors
pub mod Intervals
pub mod Document
pub mod Events
pub mod Rows
pub mod Analyze
mod Tests
