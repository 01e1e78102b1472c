-- ===== src/FunctionStore.antt =====
-- The function store (fstore): what is installed, and how it is put back.
pub mod Archive
pub mod Outside
pub mod World
pub mod Files
pub mod Install
pub mod Sync
mod Tests
