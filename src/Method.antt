-- ===== src/Method.antt =====
-- crates/midnight-did-method: the `did:midnight` method.
pub mod Network
pub mod Hex
pub mod Did
pub mod Offchain
