-- ===== src/Demo.antt =====
-- scripts/demo_task_application.py
pub mod Output
pub mod Server
pub mod Exchange
pub mod Finalize
pub mod Demonstrate
mod Tests
