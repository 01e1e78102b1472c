-- ===== src/Pbft.antt =====
-- PBFT consensus (consensus/pbft), one module for each source file.
pub mod Core
pub mod Message
pub mod Config
pub mod State
pub mod Action
pub mod Signature
pub mod Messaging
pub mod Timer
pub mod Conditions
pub mod Execute
pub mod Commit
pub mod Prepare
pub mod PrePrepare
pub mod Request
pub mod Cleanup
pub mod ViewChange
pub mod NewView
pub mod Process
pub mod Json
pub mod Serialization
pub mod Receipts
pub mod Tests
pub mod Evolve
pub mod Reached
pub mod Agreement
pub mod Ascent
pub mod Placed
pub mod Order
