-- ===== src/Api/Mappers.antt =====
-- crates/midnight-did-api/src/ledger_mappers.rs: from the domain's values to the ledger's.
-- `serde_json::to_string` is the parameters `json_strings` and `json_endpoint`.
pub mod Stored
use midnight_did_rs.Common.{
  ℕ, Bool, true, false, not, ◌&&◌, ◌||◌, Option, none, some, List, [], ◌∷◌, ◌++◌, Text, codes,
  text_eq, is_empty, if◌then◌else◌, Result, ok, err, ◌>>=◌, ◌>>◌, guard, ok_or, map_err,
}
use midnight_did_rs.Domain.Codecs.{Base64, decode_base64url_bytes}
use midnight_did_rs.Domain.Json.{contains_key}
use midnight_did_rs.Domain.Jwk.{
  KeyType, ec, rsa, oct, okp, CurveType, ed25519, x25519, jubjub, p256, secp256k1, bls12381g1,
  bls12381g2, VerificationMethodType, json_web_key, VerificationMethodRelation, PublicKeyJwk,
  coordinate_x, coordinate_y, public_key_jwk_coordinate_byte_length,
}
use midnight_did_rs.Domain.Jwk
use midnight_did_rs.Domain.Methods.{VerificationMethod}
use midnight_did_rs.Domain.Services.{Service, ServiceEndpoint, normalize_service_endpoint}
use midnight_did_rs.Domain.Uri.{UrlParser}
use midnight_did_rs.Domain.Ledger.{
  verification_method_id, schnorr_jubjub_verification_method_id, service_id, service_type_to_ledger,
}
use midnight_did_rs.Method.Hex.{HexCodec}
use midnight_did_rs.Runtime.HexCheck.{JubjubPointHex}
use midnight_did_rs.Runtime.Ledger.{
  LedgerVerificationMethodRelation, LedgerPublicKeyJwk, LedgerVerificationMethod,
  LedgerSchnorrJubjubVerificationMethod, LedgerService, DidLedgerSnapshot, relation_set,
}
use midnight_did_rs.Runtime.Contract.{Contract}
use midnight_did_rs.Api.Errors.{
  ApiError, invalid_argument, codec_error, controller_error, subject_mismatch, ledger_utils_error,
}
use midnight_did_rs.Api.Subject.{get_did_subject, normalize_bound_fragment_id_for}

-- `{:?}` of the two enums.
debug_key_type : KeyType → Text
debug_key_type ec = codes "EC"
debug_key_type rsa = codes "RSA"
debug_key_type oct = codes "oct"
debug_key_type okp = codes "OKP"

debug_curve : CurveType → Text
debug_curve ed25519 = codes "Ed25519"
debug_curve x25519 = codes "X25519"
debug_curve jubjub = codes "Jubjub"
debug_curve p256 = codes "P256"
debug_curve secp256k1 = codes "Secp256k1"
debug_curve bls12381g1 = codes "BLS12381G1"
debug_curve bls12381g2 = codes "BLS12381G2"

-- `NewSchnorrJubjubVerificationMethod` has the same fields.
pub record SchnorrJubjubVerificationMethod : Type 0 where
  pub id : Text
  pub public_key : JubjubPointHex

unfoldable pub new_schnorr_method :
    SchnorrJubjubVerificationMethod → Result ApiError SchnorrJubjubVerificationMethod
new_schnorr_method args = do
  guard (not (is_empty args.id))
      (invalid_argument (codes "SchnorrJubjubVerificationMethod.id must not be empty"))
  ok args

unsupported : Text → PublicKeyJwk → ApiError
unfolding debug_key_type debug_curve
unsupported coordinate jwk = invalid_argument (
    codes "Unsupported publicKeyJwk."
    ++ (coordinate
        ++ (codes " profile " ++ (debug_key_type jwk.kty ++ b'/' ∷ debug_curve jwk.crv))))

module _ (engine : Base64) where
  -- The `match` on `jwk.y()`.
  y_to_ledger : PublicKeyJwk → Option Text → Result ApiError Text
  unfolding unsupported
  y_to_ledger jwk none = ok []
  y_to_ledger jwk (some y) = do
    y_len ←
        ok_or (public_key_jwk_coordinate_byte_length jwk.kty jwk.crv coordinate_y)
          (unsupported (codes "y") jwk)
    _ ← map_err codec_error (decode_base64url_bytes engine y y_len "publicKeyJwk.y")
    ok y

  unfoldable pub public_key_jwk_to_ledger : PublicKeyJwk → Result ApiError LedgerPublicKeyJwk
  unfolding unsupported y_to_ledger
  public_key_jwk_to_ledger jwk = do
    guard (not (contains_key (codes "d") jwk.extensions))
        (invalid_argument (codes "publicKeyJwk must not include private key material"))
    x_len ←
        ok_or (public_key_jwk_coordinate_byte_length jwk.kty jwk.crv coordinate_x)
          (unsupported (codes "x") jwk)
    _ ← map_err codec_error (decode_base64url_bytes engine jwk.x x_len "publicKeyJwk.x")
    y_value ← y_to_ledger jwk jwk.y
    ok (record { kty = jwk.kty; crv = jwk.crv; x = jwk.x; y = y_value })

abbrev is_none : Option Text → Bool
is_none none = true
is_none (some y) = false

okp_allowed : CurveType → Bool
okp_allowed ed25519 = true
okp_allowed x25519 = true
okp_allowed bls12381g1 = true
okp_allowed bls12381g2 = true
okp_allowed _ = false

is_jubjub : CurveType → Bool
is_jubjub jubjub = true
is_jubjub _ = false

ec_allowed : CurveType → Bool
ec_allowed p256 = true
ec_allowed secp256k1 = true
ec_allowed _ = false

check_profile : KeyType → CurveType → Option Text → Result ApiError (Unit {0})
unfolding okp_allowed is_jubjub ec_allowed
check_profile okp crv y = do
  guard (okp_allowed crv)
      (invalid_argument (codes "OKP keys must use Ed25519, X25519, BLS12381G1, or BLS12381G2"))
  guard (is_none y) (invalid_argument (codes "OKP keys must not include a y coordinate"))
check_profile ec crv y = do
  guard (not (is_jubjub crv))
      (invalid_argument (codes "Jubjub keys must use addSchnorrJubjubVerificationMethod"))
  guard (ec_allowed crv) (
      invalid_argument
        (codes "EC keys must use P-256 or secp256k1; use SchnorrJubjub methods for Jubjub"))
  guard (not (is_none y)) (invalid_argument (codes "EC keys must include a y coordinate"))
check_profile _ crv y = err (
    invalid_argument (
      codes
        "Only OKP (Ed25519/X25519/BLS12381G1/BLS12381G2) and EC (P-256/secp256k1) keys are supported"))

unfoldable pub assert_midnight_key_profile : PublicKeyJwk → Result ApiError (Unit {0})
unfolding check_profile
assert_midnight_key_profile jwk = check_profile jwk.kty jwk.crv jwk.y

is_json_web_key : VerificationMethodType → Bool
is_json_web_key json_web_key = true
is_json_web_key _ = false

module _ (hex : HexCodec) {β : Type 0} (contract : Contract β) where
  unfoldable pub verification_method_to_ledger :
      Base64 → VerificationMethod → Result ApiError LedgerVerificationMethod
  unfolding is_json_web_key
  verification_method_to_ledger engine vm = do
    guard (is_json_web_key vm.type_)
        (invalid_argument (codes "verificationMethod.type must be JsonWebKey"))
    assert_midnight_key_profile vm.public_key_jwk
    let subject = get_did_subject hex contract
    guard (text_eq vm.controller.did subject) (controller_error (subject_mismatch subject))
    id ← normalize_bound_fragment_id_for hex contract vm.id.key_id verification_method_id
    jwk ← public_key_jwk_to_ledger engine vm.public_key_jwk
    ok (record { id = id; typ = vm.type_; public_key_jwk = jwk })

  unfoldable pub schnorr_jubjub_verification_method_to_ledger :
      SchnorrJubjubVerificationMethod → Result ApiError LedgerSchnorrJubjubVerificationMethod
  schnorr_jubjub_verification_method_to_ledger vm = do
    id ← normalize_bound_fragment_id_for hex contract vm.id schnorr_jubjub_verification_method_id
    ok (record { id = id; public_key = vm.public_key })

  unfoldable pub service_to_ledger :
      UrlParser
      → (List Text → Text)
      → (ServiceEndpoint → Text)
      → Service
      → Result ApiError LedgerService
  service_to_ledger urls json_strings json_endpoint s = do
    let endpoint = json_endpoint (normalize_service_endpoint urls s.service_endpoint)
    typ ← map_err ledger_utils_error (service_type_to_ledger json_strings s.type_)
    id ← normalize_bound_fragment_id_for hex contract s.id service_id
    ok (record { id = id; typ = typ; service_endpoint = endpoint })

unfoldable pub ledger_verification_method_relation_for :
    VerificationMethodRelation → LedgerVerificationMethodRelation
ledger_verification_method_relation_for VerificationMethodRelation.undefined =
    LedgerVerificationMethodRelation.undefined
ledger_verification_method_relation_for VerificationMethodRelation.authentication =
    LedgerVerificationMethodRelation.authentication
ledger_verification_method_relation_for VerificationMethodRelation.assertion_method =
    LedgerVerificationMethodRelation.assertion_method
ledger_verification_method_relation_for VerificationMethodRelation.key_agreement =
    LedgerVerificationMethodRelation.key_agreement
ledger_verification_method_relation_for VerificationMethodRelation.capability_invocation =
    LedgerVerificationMethodRelation.capability_invocation
ledger_verification_method_relation_for VerificationMethodRelation.capability_delegation =
    LedgerVerificationMethodRelation.capability_delegation

abbrev is_undefined : VerificationMethodRelation → Bool
is_undefined VerificationMethodRelation.undefined = true
is_undefined _ = false

unfoldable pub relation_set_from_state :
    DidLedgerSnapshot → VerificationMethodRelation → Result ApiError (List Text)
relation_set_from_state state relation = do
  guard (not (is_undefined relation)) (invalid_argument (codes "relation must be defined"))
  ok_or (relation_set state (ledger_verification_method_relation_for relation))
      (invalid_argument (codes "relation must be defined"))
