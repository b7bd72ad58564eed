-- ===== src/Tests.antt =====
-- Concrete codecs and runs of the theorems at concrete inputs.
pub mod Base64
pub mod Hex
pub mod Wire
pub mod Calls
pub mod Documents
mod Dids
mod Builders
pub mod Keys
mod Ledgers
mod Resolving
mod Bindings
