-- ===== src/Api/Resolution.antt =====
-- crates/midnight-did-api/src/resolution.rs: the ledger's state as a DID document.
pub mod Time
pub mod Ids
pub mod Keys
pub mod Services
pub mod State
