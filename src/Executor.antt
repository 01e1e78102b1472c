-- ===== src/Executor.antt =====
-- The executor (executor): paths, the command line of a function, and its execution.
pub mod Decimal
pub mod Paths
pub mod Command
mod Tests
