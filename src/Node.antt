-- ===== src/Node.antt =====
-- The head node: the choice of peers, and what it does with the results of an execution (node).
pub mod RollCall
pub mod Gate
pub mod Sending
pub mod Cluster
pub mod Work
pub mod Waiting
pub mod Queue
pub mod Head
pub mod Attributes
pub mod Results
pub mod Aggregate
mod Tests
