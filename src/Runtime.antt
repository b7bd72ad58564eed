-- ===== src/Runtime.antt =====
-- crates/midnight-did-runtime: the calls of the DID contract and the backends that take them.
pub mod HexCheck
pub mod Ledger
pub mod Call
pub mod Backend
pub mod Contract
