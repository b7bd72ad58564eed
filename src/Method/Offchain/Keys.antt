-- ===== src/Method/Offchain/Keys.antt =====
-- crates/midnight-did-method/src/offchain.rs: key kinds and relationship masks.
pub mod Laws
use midnight_did_rs.Common.{
  ℕ, Bool, true, false, not, Option, none, some, List, [], ◌∷◌, Text, bit_and, bit_or, ◌==◌,
  if◌then◌else◌, Result, ok, err,
}
use midnight_did_rs.Domain.Codecs.{Base64}
use midnight_did_rs.Domain.Validation.{ValidationError}
use midnight_did_rs.Domain.Json.{JsonMap, empty}
use midnight_did_rs.Domain.Jwk.{
  KeyType, ec, rsa, oct, okp, CurveType, ed25519, x25519, jubjub, p256, secp256k1, bls12381g1,
  bls12381g2, PublicKeyJwk, new_jwk,
}
use midnight_did_rs.Method.Offchain.Errors.{OffchainError, unsupported_key_type}

pub data OffchainKeyKind : Type 0 where
  jubjub_kind ed25519_kind p256_kind x25519_kind secp256k1_kind : OffchainKeyKind
  bls12381g1_kind bls12381g2_kind : OffchainKeyKind

-- The discriminants of the `repr(u8)` enum.
unfoldable pub to_u8 : OffchainKeyKind → ℕ
to_u8 jubjub_kind = 1
to_u8 ed25519_kind = 2
to_u8 p256_kind = 3
to_u8 x25519_kind = 4
to_u8 secp256k1_kind = 5
to_u8 bls12381g1_kind = 6
to_u8 bls12381g2_kind = 7

unfoldable pub from_u8 : ℕ → Option OffchainKeyKind
from_u8 value =
    if value == 1
    then some jubjub_kind
    else if value == 2
    then some ed25519_kind
    else if value == 3
    then some p256_kind
    else if value == 4
    then some x25519_kind
    else if value == 5
    then some secp256k1_kind
    else if value == 6
    then some bls12381g1_kind
    else if value == 7
    then some bls12381g2_kind
    else none

key_kind : KeyType → CurveType → Result OffchainError OffchainKeyKind
key_kind ec jubjub = ok jubjub_kind
key_kind okp ed25519 = ok ed25519_kind
key_kind okp x25519 = ok x25519_kind
key_kind ec p256 = ok p256_kind
key_kind ec secp256k1 = ok secp256k1_kind
key_kind okp bls12381g1 = ok bls12381g1_kind
key_kind okp bls12381g2 = ok bls12381g2_kind
key_kind kty crv = err (unsupported_key_type kty crv)

unfoldable pub key_kind_from_jwk : PublicKeyJwk → Result OffchainError OffchainKeyKind
unfolding key_kind
key_kind_from_jwk jwk = key_kind jwk.kty jwk.crv

-- `(kty, crv, has_y)`
kind_profile : OffchainKeyKind → KeyType × CurveType × Bool
kind_profile jubjub_kind = (ec, jubjub, true)
kind_profile ed25519_kind = (okp, ed25519, false)
kind_profile p256_kind = (ec, p256, true)
kind_profile x25519_kind = (okp, x25519, false)
kind_profile secp256k1_kind = (ec, secp256k1, true)
kind_profile bls12381g1_kind = (okp, bls12381g1, false)
kind_profile bls12381g2_kind = (okp, bls12381g2, false)

unfoldable pub jwk_from_key_kind :
    Base64 → OffchainKeyKind → Text → Text → Result ValidationError PublicKeyJwk
unfolding kind_profile
jwk_from_key_kind engine kind x y =
    let (kty, crv, has_y) = kind_profile kind in
    new_jwk engine (record {
      kty = kty;
      crv = crv;
      x = x;
      y = if has_y then some y else none;
      extensions = empty;
    })

pub record OffchainVerificationRelationships : Type 0 where
  pub authentication : Bool
  pub assertion_method : Bool
  pub key_agreement : Bool
  pub capability_invocation : Bool
  pub capability_delegation : Bool

-- `if flag { mask |= bit; }`
abbrev or_if : Bool → ℕ → ℕ → ℕ
or_if flag bit mask = if flag then bit_or mask bit else mask

unfoldable pub relationships_to_mask : OffchainVerificationRelationships → ℕ
relationships_to_mask r = or_if r.capability_delegation 16 (
    or_if r.capability_invocation 8
      (or_if r.key_agreement 4 (or_if r.assertion_method 2 (or_if r.authentication 1 0))))

unfoldable pub mask_to_relationships : ℕ → OffchainVerificationRelationships
mask_to_relationships mask = record {
  authentication = not (bit_and mask 1 == 0);
  assertion_method = not (bit_and mask 2 == 0);
  key_agreement = not (bit_and mask 4 == 0);
  capability_invocation = not (bit_and mask 8 == 0);
  capability_delegation = not (bit_and mask 16 == 0);
}
