-- ===== src/Lib.antt =====
-- Verification of the Midnight DID libraries.
--
-- The program is a Rust workspace. crates/midnight-did-domain holds the W3C data model and its
-- validation, crates/midnight-did-method the `did:midnight` strings and the off-chain states,
-- crates/midnight-did-api the operations of a controller on its private state and its contract,
-- and crates/midnight-did-runtime the contract calls and the backends that they are submitted to.
-- The method crate builds on the domain crate's keys and codecs, the runtime crate on the method
-- crate's addresses, and the API crate on all three. crates/midnight-did-uniffi gives foreign
-- languages five calls of the API on one handle.
--
-- Domain is crates/midnight-did-domain/src:
--   Domain/Codecs      crypto_codecs.rs: base64url and field elements.
--   Domain/Validation  the issues and errors of did_document.rs.
--   Domain/Names       DIDs, DID URLs, relative references and key ids of did_document.rs.
--   Domain/Jwk         `PublicKeyJwk` and its rules.
--   Domain/Methods     `VerificationMethod`.
--   Domain/Services    `Service` and the normalisation of endpoints.
--   Domain/Document    `DidDocument` and `validate`.
--   Domain/Builder     the document builder and `create_did_document`.
--   Domain/Uri         uri.rs.
--   Domain/Ledger      ledger_utils.rs.
--   Domain/Ids         ids.rs.
--   Domain/Metadata    the metadata of documents and resolutions of did_document.rs.
--   Domain/Json        the JSON values that documents carry.
-- Method is crates/midnight-did-method/src:
--   Method/Network     network_mapping.rs and the networks of midnight_did.rs.
--   Method/Hex         hex_ext.rs.
--   Method/Did         midnight_did.rs: the parser, the builder, the subject of a DID.
--   Method/Offchain    offchain.rs: key kinds and masks (Keys), the MOD1 frame (Frame), states,
--                      their encoding and their DID strings (State), and the fields of a DID
--                      document that they project to (Projection).
-- Runtime is crates/midnight-did-runtime/src:
--   Runtime/HexCheck   contract_call.rs: the hex texts of Schnorr-Jubjub values.
--   Runtime/Ledger     contract_call.rs: the values of the ledger and its snapshot.
--   Runtime/Call       contract_call.rs: the calls and what is asked of their serialiser.
--   Runtime/Backend    backend.rs: the trait, the recording and the read-only backend.
--   Runtime/Contract   contract_wrapper.rs: the circuits over any backend.
-- Api is crates/midnight-did-api/src:
--   Api/PrivateState   private_state.rs: the store trait, the in-memory store (Memory), the
--                      operations.
--   Api/Controller     controller_operations.rs: rotation and recovery of the controller key.
--   Api/Errors         error.rs.
--   Api/Subject        subject.rs: the DID of a contract.
--   Api/Mappers        ledger_mappers.rs: from the domain's values to the ledger's.
--   Api/MethodOperations  verification_method_operations.rs: methods and their relations.
--   Api/Entries        service_operations.rs and document_operations.rs.
--   Api/Did            did_operations.rs: creation, patches, deactivation.
--   Api/ReadOnly       all these operations over the read-only backend.
--   Api/Resolution     resolution.rs: ids (Ids), keys (Keys), services (Services), timestamps (Time)
--                      and the document of a ledger state (State).
-- Ffi is crates/midnight-did-uniffi/src:
--   Ffi/Errors         error.rs: the flat errors and the hex texts of 32 bytes.
--   Ffi/Calls          api.rs and handle.rs: the five functions over one handle, sequences of their
--                      calls (Session) and the replacement of keys (Replacing).
-- Common holds the helpers that the parts share, and Tests concrete codecs and runs.
--
-- Text is the list of its Unicode scalar values, and its length in bytes is computed from the
-- UTF-8 widths. A fallible function returns a `Result` with the source's error. An operation on a
-- store or on a backend is an action: it takes the state, and returns its result and the state that
-- it leaves; an operation on both passes the pair. Loops over slices are recursion on lists; the
-- frame's reader recurses on the chunk count of the header, as the loop does, so no fuel is needed.
-- The loop over the years of a timestamp runs on 8030 rounds of fuel, which take it from 1970 to the
-- year 10000, where it returns. A `BTreeMap` is the list of its entries in the order of its keys.
--
-- Code outside the repository is a parameter: the `base64` engine, the `hex` crate, the parser of
-- the `url` crate, `serde_json`, the Blake2s and Blake2b digests and the chunk codec that
-- `CompactValueCodec` stands for. Where a theorem relies on one, the laws its documentation states
-- are a hypothesis, and Tests has an instance that keeps them.
--
-- A store of private states is any implementation of its trait. Where a theorem relies on one, its
-- hypothesis is that the calls touch no slot but the one that they name, and do to it, where they
-- succeed, what the trait documents. The trait says nothing of the slot that a failing call names,
-- and neither does the hypothesis.
--
-- Not modelled: derived serialisation, the generated contract bindings, the live backend, which is
-- `todo!()` throughout, the raw state of the compact runtime that `read_state` hands out, the
-- command line, the marshalling of the foreign-function interface, and the locks and the executor
-- around the stores and backends: each call is one step.
pub mod Api
pub mod Common
pub mod Domain
pub mod Ffi
pub mod Method
pub mod Runtime
pub mod Tests
