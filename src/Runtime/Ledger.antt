-- ===== src/Runtime/Ledger.antt =====
-- crates/midnight-did-runtime/src/contract_call.rs: the values of the ledger and its snapshot.
-- A `BTreeMap` is the list of its entries in the order of its keys.
use midnight_did_rs.Common.{ℕ, Bool, false, Option, none, some, List, [], Text, text_eq, any}
use midnight_did_rs.Domain.Jwk.{KeyType, CurveType, VerificationMethodType}
use midnight_did_rs.Runtime.HexCheck.{JubjubPointHex}

pub data MapMutation : Type 0 where
  insert update : MapMutation

pub data SetMutation : Type 0 where
  insert remove : SetMutation

pub data LedgerVerificationMethodRelation : Type 0 where
  undefined authentication assertion_method : LedgerVerificationMethodRelation
  key_agreement capability_invocation : LedgerVerificationMethodRelation
  capability_delegation : LedgerVerificationMethodRelation

pub record LedgerPublicKeyJwk : Type 0 where
  pub kty : KeyType
  pub crv : CurveType
  pub x : Text
  pub y : Text

pub record LedgerVerificationMethod : Type 0 where
  pub id : Text
  pub typ : VerificationMethodType
  pub public_key_jwk : LedgerPublicKeyJwk

pub record LedgerSchnorrJubjubVerificationMethod : Type 0 where
  pub id : Text
  pub public_key : JubjubPointHex

pub record LedgerService : Type 0 where
  pub id : Text
  pub typ : Text
  pub service_endpoint : Text

pub record DidLedgerSnapshot : Type 0 where
  pub id_hex : Text
  pub active : Bool
  pub deactivated : Bool
  pub controller_public_key_hex : Text
  pub version : ℕ
  pub operation_count : ℕ
  pub contract_version : ℕ
  pub created_ms : ℕ
  pub updated_ms : ℕ
  pub also_known_as : List Text
  pub verification_methods : List (Text × LedgerVerificationMethod)
  pub schnorr_jubjub_verification_methods : List (Text × LedgerSchnorrJubjubVerificationMethod)
  pub authentication_relation : List Text
  pub assertion_method_relation : List Text
  pub key_agreement_relation : List Text
  pub capability_invocation_relation : List Text
  pub capability_delegation_relation : List Text
  pub services : List (Text × LedgerService)

-- `Default`
unfoldable pub default_snapshot : DidLedgerSnapshot
default_snapshot = record {
  id_hex = [];
  active = false;
  deactivated = false;
  controller_public_key_hex = [];
  version = 0;
  operation_count = 0;
  contract_version = 0;
  created_ms = 0;
  updated_ms = 0;
  also_known_as = [];
  verification_methods = [];
  schnorr_jubjub_verification_methods = [];
  authentication_relation = [];
  assertion_method_relation = [];
  key_agreement_relation = [];
  capability_invocation_relation = [];
  capability_delegation_relation = [];
  services = [];
}

unfoldable pub relation_set :
    DidLedgerSnapshot → LedgerVerificationMethodRelation → Option (List Text)
relation_set state undefined = none
relation_set state authentication = some state.authentication_relation
relation_set state assertion_method = some state.assertion_method_relation
relation_set state key_agreement = some state.key_agreement_relation
relation_set state capability_invocation = some state.capability_invocation_relation
relation_set state capability_delegation = some state.capability_delegation_relation

-- `.map(|members| members.iter().any(…)).unwrap_or(false)`
abbrev holds : Text → Option (List Text) → Bool
holds id none = false
holds id (some members) = any (λ m. text_eq m id) members

unfoldable pub relation_contains :
    DidLedgerSnapshot → LedgerVerificationMethodRelation → Text → Bool
unfolding relation_set
relation_contains state relation normalized_method_id =
    holds normalized_method_id (relation_set state relation)
