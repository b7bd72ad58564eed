-- ===== src/Api.antt =====
-- crates/midnight-did-api: operations of a DID controller on its private state and its contract.
pub mod Errors
pub mod PrivateState
pub mod Controller
pub mod Subject
pub mod Mappers
pub mod MethodOperations
pub mod Entries
pub mod Did
pub mod ReadOnly
pub mod Resolution
