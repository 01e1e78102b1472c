-- ===== src/Models.antt =====
-- Types shared by the parts of the node: models/execute, models/response, models/codes, and the
-- peer identities of libp2p.
pub mod Execute
pub mod Function
pub mod Code
pub mod Consensus
pub use Execute.*
pub use Function.*
