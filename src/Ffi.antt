-- ===== src/Ffi.antt =====
-- crates/midnight-did-uniffi/src: the functions that foreign languages call, over one handle.
pub mod Errors
pub mod Calls
