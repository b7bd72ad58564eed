-- ===== src/Method/Offchain/Keys/Laws.antt =====
-- Key kinds and masks lose nothing.
use midnight_did_rs.Common.{
  ℕ, ◌%◌, ◌<◌, ◌≡◌, ◌↔◌, refl, sym, ap, ◌∙◌, subst, Bool, true, Option, none, some, [], Text, ◌==◌,
  if◌then◌else◌, ok, arith, all_below, all_below_sound, ==_iff,
}
use midnight_did_rs.Domain.Codecs.{Base64}
use midnight_did_rs.Domain.Json.{empty}
use midnight_did_rs.Domain.Jwk.{KeyType, CurveType, PublicKeyJwk, new_jwk}
use midnight_did_rs.Domain.Jwk.Rules.{new_jwk_iff, Profile}
use midnight_did_rs.Method.Offchain.Keys.{
  OffchainKeyKind, jubjub_kind, to_u8, from_u8, key_kind, key_kind_from_jwk, kind_profile,
  jwk_from_key_kind, OffchainVerificationRelationships, relationships_to_mask,
  mask_to_relationships,
}

-- The wire byte of a key kind is read back as that kind, and no other byte is.
from_u8_iff :
    (value : ℕ) (kind : OffchainKeyKind) → (from_u8 value ≡ some kind) ↔ (value ≡ to_u8 kind)
unfolding from_u8 to_u8
from_u8_iff value jubjub_kind = ((λ h. ground arith), (λ h. ground arith))
from_u8_iff value _ = ((λ h. ground arith), (λ h. ground arith))

mask_of_flags :
    (a b c d e : Bool)
    → let r : OffchainVerificationRelationships = record {
      authentication = a;
      assertion_method = b;
      key_agreement = c;
      capability_invocation = d;
      capability_delegation = e;
    } in
      (mask_to_relationships (relationships_to_mask r) ≡ r) × (relationships_to_mask r < 32)
unfolding mask_to_relationships relationships_to_mask
mask_of_flags a b c d e = (ground arith, ground arith)

mask_table : all_below 256 (λ m. relationships_to_mask (mask_to_relationships m) == m % 32) ≡ true
unfolding all_below relationships_to_mask mask_to_relationships
mask_table = refl

-- Five relationship flags are one mask below 32 that reads back as the flags; and of any byte the
-- five low bits are kept.
pub mask_round_trip :
    (r : OffchainVerificationRelationships) (mask : ℕ)
    → mask < 256
    → (mask_to_relationships (relationships_to_mask r) ≡ r)
      × (relationships_to_mask r < 32)
      × (relationships_to_mask (mask_to_relationships mask) ≡ mask % 32)
mask_round_trip r mask h =
    let (back, small) =
      mask_of_flags r.authentication r.assertion_method r.key_agreement r.capability_invocation
        r.capability_delegation in
    (back, small, (==_iff _ _).0 (all_below_sound 256 _ mask mask_table h))

kind_of_profile :
    (kind : OffchainKeyKind) → key_kind (kind_profile kind).0 (kind_profile kind).1 ≡ ok kind
unfolding key_kind kind_profile
kind_of_profile jubjub_kind = refl
kind_of_profile _ = refl

-- A JWK that `jwk_from_key_kind` builds has the kind that it was built for.
pub key_kind_from_jwk_of_kind :
    (engine : Base64) (kind : OffchainKeyKind) (x y : Text) (jwk : PublicKeyJwk)
    → jwk_from_key_kind engine kind x y ≡ ok jwk
    → key_kind_from_jwk jwk ≡ ok kind
unfolding key_kind_from_jwk jwk_from_key_kind
key_kind_from_jwk_of_kind engine kind x y jwk h =
    ap (λ (j : PublicKeyJwk). key_kind j.kty j.crv) (((new_jwk_iff engine _ jwk).0 h).0)
    ∙ kind_of_profile kind

-- The key that a kind, an `x` and a `y` stand for.
abbrev key_of : OffchainKeyKind → Text → Text → PublicKeyJwk
key_of kind x y = record {
  kty = (kind_profile kind).0;
  crv = (kind_profile kind).1;
  x = x;
  y = if (kind_profile kind).2 then some y else none;
  extensions = empty;
}

abbrev y_text : Option Text → Text
y_text none = []
y_text (some y) = y

same_key :
    (engine : Base64) (kind : OffchainKeyKind) (kty : KeyType) (crv : CurveType) (x : Text)
    (y : Option Text)
    → key_kind kty crv ≡ ok kind
    → Profile engine kty crv x y
    → key_of kind x (y_text y) ≡ record { kty = kty; crv = crv; x = x; y = y; extensions = empty }
unfolding key_kind kind_profile
same_key engine jubjub_kind kty crv x y k p = ground arith
same_key engine kind kty crv x y k p = ground arith

-- A key of a supported kind, with no extensions, that `PublicKeyJwk::new` accepted is rebuilt from
-- its kind and its coordinates; a missing `y` is given as the empty text.
pub jwk_from_key_kind_of_jwk :
    (engine : Base64) (jwk : PublicKeyJwk) (kind : OffchainKeyKind)
    → new_jwk engine jwk ≡ ok jwk
    → jwk.extensions ≡ empty
    → key_kind_from_jwk jwk ≡ ok kind
    → jwk_from_key_kind engine kind jwk.x (y_text jwk.y) ≡ ok jwk
unfolding key_kind_from_jwk jwk_from_key_kind
jwk_from_key_kind_of_jwk engine jwk kind h e k =
    let accepted = (new_jwk_iff engine jwk jwk).0 h in
    let same = same_key engine kind jwk.kty jwk.crv jwk.x jwk.y k accepted.2 ∙ (λ i. record {
      kty = jwk.kty;
      crv = jwk.crv;
      x = jwk.x;
      y = jwk.y;
      extensions = sym e i;
    }) in
    subst (λ (j : PublicKeyJwk). new_jwk engine j ≡ ok jwk) (sym same) h
