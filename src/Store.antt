-- ===== src/Store.antt =====
-- The database of a node: store/*.go.
pub mod Key
pub mod Database
pub mod Records
pub mod Table
pub mod View
pub mod Tests
