-- ===== src/Domain/Jwk.antt =====
-- crates/midnight-did-domain/src/did_document.rs: the verification-method enums and
-- `PublicKeyJwk`, with its validation rules.
pub mod Rules
use midnight_did_rs.Common.{
  ℕ, ◌≡◌, Bool, true, false, ◌&&◌, ◌||◌, not, Option, none, some, List, [], ◌∷◌, ◌++◌, String, Text,
  codes, str_len, if◌then◌else◌, Result, ok, err, is_ok, ◌>>=◌, ◌>>◌,
}
use midnight_did_rs.Domain.Codecs.{Bytes, Base64, CodecError, decode_base64url_bytes}
use midnight_did_rs.Domain.Validation.{ValidationIssue, ValidationError, issue, checked}
use midnight_did_rs.Domain.Json.{JsonMap, contains_key}

pub data VerificationMethodType : Type 0 where
  undefined json_web_key : VerificationMethodType

pub data KeyType : Type 0 where
  ec rsa oct okp : KeyType

pub data CurveType : Type 0 where
  ed25519 x25519 jubjub p256 secp256k1 bls12381g1 bls12381g2 : CurveType

pub data VerificationMethodRelation : Type 0 where
  undefined authentication assertion_method key_agreement : VerificationMethodRelation
  capability_invocation capability_delegation : VerificationMethodRelation

pub data PublicKeyJwkCoordinate : Type 0 where
  coordinate_x coordinate_y : PublicKeyJwkCoordinate

abbrev is_okp : KeyType → Bool
is_okp okp = true
is_okp _ = false

abbrev is_ec : KeyType → Bool
is_ec ec = true
is_ec _ = false

x_byte_length : KeyType → CurveType → Option ℕ
x_byte_length kty bls12381g1 = if is_okp kty then some 48 else none
x_byte_length kty bls12381g2 = if is_okp kty then some 96 else none
x_byte_length kty _ = some 32

unfoldable pub public_key_jwk_coordinate_byte_length :
    KeyType → CurveType → PublicKeyJwkCoordinate → Option ℕ
unfolding x_byte_length
public_key_jwk_coordinate_byte_length kty crv coordinate_x = x_byte_length kty crv
public_key_jwk_coordinate_byte_length kty crv coordinate_y = if is_ec kty then some 32 else none

pub record PublicKeyJwk : Type 0 where
  pub kty : KeyType
  pub crv : CurveType
  pub x : Text
  pub y : Option Text
  pub extensions : JsonMap

abbrev okp_curve : CurveType → Bool
okp_curve ed25519 = true
okp_curve x25519 = true
okp_curve bls12381g1 = true
okp_curve bls12381g2 = true
okp_curve _ = false

abbrev ec_curve : CurveType → Bool
ec_curve jubjub = true
ec_curve p256 = true
ec_curve secp256k1 = true
ec_curve _ = false

-- `if test { issues.push(ValidationIssue::new(message)); }`
abbrev pub push_if : Bool → Text → List ValidationIssue → List ValidationIssue
push_if test message issues = if test then issue message ∷ issues else issues

module _ (engine : Base64) where
  -- The `y` rules in the order of the key type: an OKP key has none, any other key has one.
  y_issues : KeyType → Option Text → List ValidationIssue → List ValidationIssue
  y_issues okp (some y) rest = issue (codes "OKP keys must not include a y coordinate") ∷ rest
  y_issues okp none rest = rest
  y_issues _ none rest = issue (codes "Non-OKP keys must include a y coordinate") ∷ rest
  y_issues _ (some y) rest = rest

  -- A coordinate that is present and whose length the key prescribes must decode to that length.
  coordinate_issues :
      Option Text → Option ℕ → String → Text → List ValidationIssue → List ValidationIssue
  coordinate_issues (some v) (some expected) label message rest =
      push_if (not (is_ok (decode_base64url_bytes engine v expected label))) message rest
  coordinate_issues _ _ label message rest = rest

  unfoldable pub collect_issues : PublicKeyJwk → List ValidationIssue
  unfolding y_issues coordinate_issues
  collect_issues jwk =
      push_if (contains_key (codes "d") jwk.extensions)
        (codes "publicKeyJwk must not include private key material")
        (push_if (is_okp jwk.kty && not (okp_curve jwk.crv))
          (codes "OKP keys must use the Ed25519, X25519, BLS12381G1, or BLS12381G2 curve")
          (push_if (is_ec jwk.kty && not (ec_curve jwk.crv))
            (codes "EC keys must use Jubjub, P-256, or secp256k1 curve")
            (y_issues jwk.kty jwk.y (
              coordinate_issues (some jwk.x)
                (public_key_jwk_coordinate_byte_length jwk.kty jwk.crv coordinate_x)
                "publicKeyJwk.x"
                (codes "publicKeyJwk.x must be canonical base64url for the supported curve length")
                (coordinate_issues jwk.y
                  (public_key_jwk_coordinate_byte_length jwk.kty jwk.crv coordinate_y)
                  "publicKeyJwk.y"
                  (codes
                    "publicKeyJwk.y must be canonical base64url for the supported curve length")
                  [])))))

  unfoldable pub validate_jwk : PublicKeyJwk → Result ValidationError (Unit {0})
  validate_jwk jwk = checked tt (collect_issues jwk)

  -- `PublicKeyJwk::new`; the `New…` struct has the same fields.
  unfoldable pub new_jwk : PublicKeyJwk → Result ValidationError PublicKeyJwk
  new_jwk params = validate_jwk params >> ok params

  decode_x_length : Option ℕ → Text → ℕ
  decode_x_length none x = str_len x
  decode_x_length (some n) x = n

  unfoldable pub decode_x : PublicKeyJwk → Result CodecError Bytes
  unfolding decode_x_length
  decode_x jwk =
      decode_base64url_bytes engine jwk.x
        (decode_x_length (public_key_jwk_coordinate_byte_length jwk.kty jwk.crv coordinate_x) jwk.x)
        "publicKeyJwk.x"
