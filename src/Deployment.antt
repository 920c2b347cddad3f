-- ===== src/Deployment.antt =====
-- scripts/verify_deployment.py
pub mod Process
pub mod Streams
pub mod Exchange
pub mod Finish
mod Tests
