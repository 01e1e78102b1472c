-- ===== src/Pbft/Tests.antt =====
-- The theorems at concrete inputs, and runs of a small cluster.
pub mod Fixtures
mod Views
mod Parts
mod Runs
mod Encoding
