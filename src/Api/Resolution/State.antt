-- ===== src/Api/Resolution/State.antt =====
-- crates/midnight-did-api/src/resolution.rs: `ledger_state_to_did_document`, its metadata and
pub mod Growth
pub mod Resolved
use midnight_did_rs.Common.{
  ℕ, Bool, true, false, not, ◌||◌, Option, none, some, List, [], ◌∷◌, ◌++◌, Text, codes, decimal,
  is_empty, if◌then◌else◌, Result, ok, err, ◌>>=◌, ◌>>◌, guard, map_err,
}
use midnight_did_rs.Common.Actions.{Action, resume, done, map_action_err}
use midnight_did_rs.Domain.Codecs.{Bytes, Base64}
use midnight_did_rs.Domain.Json.{JsonValue, empty}
use midnight_did_rs.Domain.Jwk.{PublicKeyJwk, VerificationMethodType, json_web_key}
use midnight_did_rs.Domain.Validation.{ValidationError}
use midnight_did_rs.Domain.Names.{DidString, DidKeyId, parse_did_string, parse_did_key_id}
use midnight_did_rs.Domain.Methods.{VerificationMethod, new_method}
use midnight_did_rs.Domain.Services.{Service}
use midnight_did_rs.Domain.Uri.{UrlParser}
use midnight_did_rs.Domain.Document.{DidDocument, many_contexts, one_controller, contains}
use midnight_did_rs.Domain.Metadata.{DidDocumentMetadata}
use midnight_did_rs.Method.Network.{MidnightNetwork}
use midnight_did_rs.Method.Hex.{HexCodec, address_to_hex}
use midnight_did_rs.Method.Did.{create_midnight_did_string}
use midnight_did_rs.Runtime.Ledger.{
  DidLedgerSnapshot, LedgerVerificationMethod, LedgerSchnorrJubjubVerificationMethod, LedgerService,
}
use midnight_did_rs.Runtime.Backend.{show_backend}
use midnight_did_rs.Runtime.Contract.{Contract}
use midnight_did_rs.Api.Errors.{
  ApiError, contract_error, failed, mapping, validation_error, show_validation,
}
use midnight_did_rs.Api.Resolution.Time.{timestamp_to_iso}
use midnight_did_rs.Api.Resolution.Ids.{verification_method_fragment_id, absolute_did_url_reference}
use midnight_did_rs.Api.Resolution.Keys.{
  ledger_jwk_to_domain, schnorr_jubjub_pk_to_jwk, ledger_verification_method_type_to_domain,
}
use midnight_did_rs.Api.Resolution.Services.{parse_ledger_service}

pub record Crates : Type 0 where
  pub engine : Base64
  pub urls : UrlParser
  pub decode_hex : Text → Result Text Bytes
  pub strings : Text → Option (List Text)
  pub value : Text → Option JsonValue

-- The two tables that the loops fill: the normalized ids and the methods, in their order.
pub record Collected : Type 0 where
  pub seen_ids : List Text
  pub methods : List VerificationMethod

-- `None` for an empty list.
abbrev non_empty : {A : Type 0} → List A → Option (List A)
non_empty [] = none
non_empty (a ∷ rest) = some (a ∷ rest)

abbrev invalid : Text → ValidationError → ApiError
invalid what e = mapping (codes "invalid DID " ++ (what ++ (codes ": " ++ show_validation e)))

module _ (crates : Crates) (did : Text) where
  -- The body of the loops, from the key of the entry and its type.
  collect :
      Text
      → Result ApiError PublicKeyJwk
      → Result ApiError VerificationMethodType
      → Collected
      → Result ApiError Collected
  collect id jwk typ so_far = do
    domain_jwk ← jwk
    let normalized = verification_method_fragment_id id
    guard (not (contains so_far.seen_ids normalized))
        (mapping (codes "Duplicate verification method id"))
    type_ ← typ
    vm ← map_err validation_error (
        new_method crates.engine crates.urls (record {
          id = absolute_did_url_reference did id;
          type_ = type_;
          controller = did;
          public_key_jwk = domain_jwk;
        }))
    ok (record { seen_ids = normalized ∷ so_far.seen_ids; methods = so_far.methods ++ vm ∷ [] })

  pub method_entries :
      List (Text × LedgerVerificationMethod) → Collected → Result ApiError Collected
  unfolding collect
  method_entries [] so_far = ok so_far
  method_entries ((id, method) ∷ rest) so_far =
      collect id (ledger_jwk_to_domain crates.engine method.public_key_jwk)
        (ledger_verification_method_type_to_domain method.typ) so_far
      >>= method_entries rest

  pub schnorr_entries :
      List (Text × LedgerSchnorrJubjubVerificationMethod) → Collected → Result ApiError Collected
  unfolding collect
  schnorr_entries [] so_far = ok so_far
  schnorr_entries ((id, method) ∷ rest) so_far =
      collect id (schnorr_jubjub_pk_to_jwk crates.engine crates.decode_hex method) (ok json_web_key)
        so_far
      >>= schnorr_entries rest

  -- The closure `assert_targets`.
  assert_targets : List Text → Text → List Text → Result ApiError (Unit {0})
  assert_targets seen name [] = ok tt
  assert_targets seen name (member ∷ members) =
      guard (contains seen (verification_method_fragment_id member)) (
        mapping (
          name
          ++ (codes " references missing verification method '"
              ++ (absolute_did_url_reference did member ++ codes "'"))))
      >> assert_targets seen name members

  -- The closure `map_relation`.
  parse_members : List Text → Result ApiError (List DidKeyId)
  parse_members [] = ok []
  parse_members (m ∷ members) = do
    key ←
        map_err
          (λ (e : ValidationError).
            mapping (codes "invalid DID key id in relation: " ++ show_validation e))
          (parse_did_key_id crates.urls.joins (verification_method_fragment_id m))
    keys ← parse_members members
    ok (key ∷ keys)

  map_relation : List Text → Result ApiError (Option (List DidKeyId))
  unfolding parse_members
  map_relation [] = ok none
  map_relation (m ∷ members) = parse_members (m ∷ members) >>= λ keys. ok (some keys)

  parse_services : List (Text × LedgerService) → Result ApiError (List Service)
  parse_services [] = ok []
  parse_services ((id, svc) ∷ rest) = do
    s ← parse_ledger_service crates.urls crates.strings crates.value svc did
    services ← parse_services rest
    ok (s ∷ services)

  -- The five calls of `assert_targets`.
  check_targets : List Text → DidLedgerSnapshot → Result ApiError (Unit {0})
  unfolding assert_targets
  check_targets seen state = do
    assert_targets seen (codes "authentication") state.authentication_relation
    assert_targets seen (codes "assertionMethod") state.assertion_method_relation
    assert_targets seen (codes "keyAgreement") state.key_agreement_relation
    assert_targets seen (codes "capabilityInvocation") state.capability_invocation_relation
    assert_targets seen (codes "capabilityDelegation") state.capability_delegation_relation

  -- What follows them, from the methods that were collected.
  assemble : DidLedgerSnapshot → List VerificationMethod → Result ApiError DidDocument
  unfolding map_relation parse_services
  assemble state methods = do
    services ← parse_services state.services
    id ← map_err (invalid (codes "id")) (parse_did_string did)
    controller ← map_err (invalid (codes "controller")) (parse_did_string did)
    authentication ← map_relation state.authentication_relation
    assertion_method ← map_relation state.assertion_method_relation
    key_agreement ← map_relation state.key_agreement_relation
    capability_invocation ← map_relation state.capability_invocation_relation
    capability_delegation ← map_relation state.capability_delegation_relation
    ok (record {
      context = many_contexts (
          codes "https://www.w3.org/ns/did/v1"
          ∷ codes "https://w3c.github.io/vc-jws-2020/contexts/v1"
          ∷ []);
      id = id;
      also_known_as = non_empty state.also_known_as;
      controller = some (one_controller controller);
      verification_method = non_empty methods;
      authentication = authentication;
      assertion_method = assertion_method;
      key_agreement = key_agreement;
      capability_invocation = capability_invocation;
      capability_delegation = capability_delegation;
      service = non_empty services;
      extra = empty;
    })

  document_of : DidLedgerSnapshot → Result ApiError DidDocument
  unfolding method_entries schnorr_entries check_targets assemble
  document_of state = do
    published ← method_entries state.verification_methods (record { seen_ids = []; methods = [] })
    collected ← schnorr_entries state.schnorr_jubjub_verification_methods published
    check_targets collected.seen_ids state
    assemble state collected.methods

unfoldable pub ledger_state_to_did_document :
    Crates → DidLedgerSnapshot → MidnightNetwork → Text → Result ApiError DidDocument
unfolding document_of
ledger_state_to_did_document crates state network contract_address =
    document_of crates (create_midnight_did_string contract_address network).value state

unfoldable pub ledger_state_to_metadata : DidLedgerSnapshot → DidDocumentMetadata
ledger_state_to_metadata state = record {
  created = timestamp_to_iso state.created_ms;
  updated = timestamp_to_iso state.updated_ms;
  deactivated = if state.deactivated || not state.active then some true else none;
  version_id = some (decimal state.version);
  next_update = none;
  next_version_id = none;
  equivalent_id = none;
  canonical_id = none;
  extra = empty;
}

pub record ResolvedMidnightDid : Type 0 where
  pub did_document : DidDocument
  pub did_document_metadata : DidDocumentMetadata

module _ (crates : Crates) (hex : HexCodec) {β : Type 0} (contract : Contract β) where
  -- What `resolve` makes of the state that it read.
  resolved : DidLedgerSnapshot → Result ApiError (Option ResolvedMidnightDid)
  resolved state = do
    did_document ←
        ledger_state_to_did_document crates state contract.network
          (address_to_hex hex contract.address)
    ok (
        some (record {
          did_document = did_document;
          did_document_metadata = ledger_state_to_metadata state;
        }))

  unfoldable pub resolve : Action β ApiError (Option ResolvedMidnightDid)
  unfolding resolved
  resolve backend =
      resume (λ state. done (resolved state))
        (map_action_err (λ e. contract_error (failed (show_backend e)))
          contract.backend.read_snapshot backend)
