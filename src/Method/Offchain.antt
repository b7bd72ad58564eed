-- ===== src/Method/Offchain.antt =====
-- crates/midnight-did-method/src/offchain.rs: off-chain DID states and their encoding.
pub mod Errors
pub mod Frame
pub mod Keys
pub mod State
pub mod Projection
