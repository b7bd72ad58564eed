-- ===== src/Domain.antt =====
-- crates/midnight-did-domain: the W3C DID data model and its validation.
pub mod Codecs
pub mod Validation
pub mod Names
pub mod Json
pub mod Jwk
pub mod Uri
pub mod Methods
pub mod Services
pub mod Builder
pub mod Document
pub mod Metadata
pub mod Ledger
pub mod Ids
