-- ===== src/Api/Mappers/Stored.antt =====
-- A key that is written to the ledger and read back.
use midnight_did_rs.Common.{
  ◌≡◌, refl, false, not, ◌&&◌, is_empty, Option, none, some, [], ◌∷◌, Text, ok, arith,
}
use midnight_did_rs.Domain.Codecs.{Base64, decode_base64url_bytes, is_base64url_text}
use midnight_did_rs.Domain.Json.{JsonMap, empty, contains_key}
use midnight_did_rs.Domain.Jwk.{
  KeyType, ec, okp, CurveType, ed25519, x25519, p256, secp256k1, bls12381g1, bls12381g2,
  PublicKeyJwk, public_key_jwk_coordinate_byte_length,
}
use midnight_did_rs.Domain.Jwk.Rules.{Profile, new_jwk_iff}
use midnight_did_rs.Runtime.Ledger.{LedgerPublicKeyJwk}
use midnight_did_rs.Api.Mappers.{
  check_profile, assert_midnight_key_profile, public_key_jwk_to_ledger, y_to_ledger,
}
use midnight_did_rs.Api.Resolution.Keys.{y_value, is_okp_key, ledger_jwk_to_domain}

module _ (engine : Base64) where
  -- What is stored of a key.
  abbrev ledger_y : Option Text → Text
  ledger_y none = []
  ledger_y (some y) = y

  abbrev Stored : KeyType → CurveType → Text → Option Text → LedgerPublicKeyJwk → Type 0
  Stored kty crv x y l =
      (l ≡ record { kty = kty; crv = crv; x = x; y = ledger_y y })
      × Profile engine kty crv x y
      × (y_value (ledger_y y) ≡ y)
      × ((is_okp_key kty && not (is_empty (ledger_y y))) ≡ false)

  no_y :
      (crv : CurveType) (x : Text) (ext : JsonMap) (l : LedgerPublicKeyJwk) {y : Option Text}
      → public_key_jwk_to_ledger engine
          (record { kty = ec; crv = crv; x = x; y = some []; extensions = ext })
        ≡ ok l
      → Stored ec crv x y l
  unfolding public_key_jwk_to_ledger y_to_ledger public_key_jwk_coordinate_byte_length
      decode_base64url_bytes is_base64url_text
  no_y crv x ext l h = ground arith

  to_ledger-Stored :
      (kty : KeyType) (crv : CurveType) (x : Text) (y : Option Text) (ext : JsonMap)
      (l : LedgerPublicKeyJwk)
      → check_profile kty crv y ≡ ok tt
      → public_key_jwk_to_ledger engine
          (record { kty = kty; crv = crv; x = x; y = y; extensions = ext })
        ≡ ok l
      → Stored kty crv x y l
  unfolding check_profile public_key_jwk_to_ledger y_to_ledger public_key_jwk_coordinate_byte_length
  to_ledger-Stored okp ed25519 x none ext l p h = ground arith
  to_ledger-Stored okp x25519 x none ext l p h = ground arith
  to_ledger-Stored okp bls12381g1 x none ext l p h = ground arith
  to_ledger-Stored okp bls12381g2 x none ext l p h = ground arith
  to_ledger-Stored ec p256 x (some []) ext l p h = no_y p256 x ext l h
  to_ledger-Stored ec secp256k1 x (some []) ext l p h = no_y secp256k1 x ext l h
  to_ledger-Stored ec p256 x (some (c ∷ y)) ext l p h = ground arith
  to_ledger-Stored ec secp256k1 x (some (c ∷ y)) ext l p h = ground arith
  to_ledger-Stored kty crv x y ext l p h = cc

  -- A key that passes the profile of the ledger and that is written to the ledger is read back as
  -- it was, less its extensions.
  pub ledger_jwk_to_domain-public_key_jwk_to_ledger :
      (jwk : PublicKeyJwk) (l : LedgerPublicKeyJwk)
      → assert_midnight_key_profile jwk ≡ ok tt
      → public_key_jwk_to_ledger engine jwk ≡ ok l
      → ledger_jwk_to_domain engine l ≡ ok (record jwk { extensions = empty })
  unfolding assert_midnight_key_profile ledger_jwk_to_domain contains_key
  ledger_jwk_to_domain-public_key_jwk_to_ledger jwk l p h =
      let (made, profile, y, allowed) =
        to_ledger-Stored jwk.kty jwk.crv jwk.x jwk.y jwk.extensions l p h in
      let kept : PublicKeyJwk = record jwk { extensions = empty } in
      let accepted = (new_jwk_iff engine kept kept).1 (refl, refl, profile) in
      rw (made, allowed, y, accepted) refl
