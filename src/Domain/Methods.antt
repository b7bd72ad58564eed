-- ===== src/Domain/Methods.antt =====
-- crates/midnight-did-domain/src/did_document.rs: `VerificationMethod`.
pub mod Accepted
use midnight_did_rs.Common.{
  Bool, true, false, not, List, [], ◌∷◌, ◌++◌, Text, codes, if◌then◌else◌, Result, ok, err, ◌>>=◌,
  ◌>>◌,
}
use midnight_did_rs.Domain.Codecs.{Base64}
use midnight_did_rs.Domain.Validation.{ValidationIssue, ValidationError, issue, checked}
use midnight_did_rs.Domain.Names.{
  DidString, DidKeyId, is_did_key_id, is_did_string, parse_did_key_id, parse_did_string,
}
use midnight_did_rs.Domain.Jwk.{VerificationMethodType, PublicKeyJwk, collect_issues, push_if}
use midnight_did_rs.Domain.Uri.{UrlParser}

pub record VerificationMethod : Type 0 where
  pub id : DidKeyId
  pub type_ : VerificationMethodType
  pub controller : DidString
  pub public_key_jwk : PublicKeyJwk

pub record NewVerificationMethod : Type 0 where
  pub id : Text
  pub type_ : VerificationMethodType
  pub controller : Text
  pub public_key_jwk : PublicKeyJwk

module _ (engine : Base64) (urls : UrlParser) where
  -- The issues that `VerificationMethod::validate` gathers.
  method_issues : VerificationMethod → List ValidationIssue
  method_issues vm =
      push_if (not (is_did_key_id urls.joins vm.id.key_id))
        (codes "Invalid DID Key ID format: invalid or missing fragment")
        (push_if (not (is_did_string vm.controller.did)) (codes "Invalid DID format")
          (collect_issues engine vm.public_key_jwk))

  unfoldable pub validate_method : VerificationMethod → Result ValidationError (Unit {0})
  unfolding method_issues
  validate_method vm = checked tt (method_issues vm)

  -- `VerificationMethod::new`
  unfoldable pub new_method : NewVerificationMethod → Result ValidationError VerificationMethod
  new_method input = do
    id ← parse_did_key_id urls.joins input.id
    controller ← parse_did_string input.controller
    let vm : VerificationMethod = record {
      id = id;
      type_ = input.type_;
      controller = controller;
      public_key_jwk = input.public_key_jwk;
    }
    validate_method vm
    ok vm
