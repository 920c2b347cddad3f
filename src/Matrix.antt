-- ===== src/Matrix.antt =====
-- The benchmark matrix: benchmark/matrix/.
pub mod Budget
mod Tests
