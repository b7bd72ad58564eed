-- ===== src/Domain/Methods/Accepted.antt =====
-- When `VerificationMethod::new` succeeds.
use midnight_did_rs.Common.{◌≡◌, ◌↔◌, sym, ap, ◌∙◌, true, [], ◌∷◌, ◌++◌, Text, ok, arith}
use midnight_did_rs.Domain.Codecs.{Base64}
use midnight_did_rs.Domain.Names.{
  is_did_key_id, is_did_string, is_key_fragment, parse_did_key_id, parse_did_string,
}
use midnight_did_rs.Domain.Names.Grammar.{is_did_key_id-append}
use midnight_did_rs.Domain.Jwk.{PublicKeyJwk, collect_issues, new_jwk}
use midnight_did_rs.Domain.Jwk.Rules.{new_jwk_issues}
use midnight_did_rs.Domain.Uri.{UrlParser}
use midnight_did_rs.Domain.Methods.{
  VerificationMethod, NewVerificationMethod, validate_method, new_method,
}

module _ (engine : Base64) (urls : UrlParser) where
  -- The method that the input stands for.
  abbrev pub method_of : NewVerificationMethod → VerificationMethod
  method_of input = record {
    id = record { key_id = input.id };
    type_ = input.type_;
    controller = record { did = input.controller };
    public_key_jwk = input.public_key_jwk;
  }

  new_method_sound :
      (input : NewVerificationMethod) {vm : VerificationMethod}
      → new_method engine urls input ≡ ok vm
      → (vm ≡ method_of input)
        × (is_did_key_id urls.joins input.id ≡ true)
        × (is_did_string input.controller ≡ true)
        × (collect_issues engine input.public_key_jwk ≡ [])
  unfolding new_method parse_did_key_id parse_did_string validate_method
  new_method_sound input h = ground arith

  new_method_complete :
      (input : NewVerificationMethod)
      → is_did_key_id urls.joins input.id ≡ true
      → is_did_string input.controller ≡ true
      → collect_issues engine input.public_key_jwk ≡ []
      → new_method engine urls input ≡ ok (method_of input)
  unfolding new_method parse_did_key_id parse_did_string validate_method
  new_method_complete input a b c = ground arith

  -- `VerificationMethod::new` accepts an input exactly if its id is a key id, its controller a DID
  -- and its key has no issue, and it then returns the input's own values.
  pub new_method_iff :
      (input : NewVerificationMethod) (vm : VerificationMethod)
      → (new_method engine urls input ≡ ok vm) ↔ (
          (vm ≡ method_of input)
          × (is_did_key_id urls.joins input.id ≡ true)
          × (is_did_string input.controller ≡ true)
          × (collect_issues engine input.public_key_jwk ≡ []))
  new_method_iff input vm =
      (new_method_sound input, (λ h. new_method_complete input h.1 h.2 h.3 ∙ ap ok (sym h.0)))

  -- A key that `PublicKeyJwk::new` accepted makes a verification method under every DID: with the
  -- id `did#fragment` of a key fragment and the DID as controller, `VerificationMethod::new`
  -- succeeds.
  pub new_method_of_did :
      (did fragment : Text) (input : NewVerificationMethod) (jwk : PublicKeyJwk)
      → is_did_string did ≡ true
      → is_key_fragment fragment ≡ true
      → new_jwk engine input.public_key_jwk ≡ ok jwk
      → input.id ≡ did ++ b'#' ∷ fragment
      → input.controller ≡ did
      → new_method engine urls input ≡ ok (method_of input)
  new_method_of_did did fragment input jwk hd hf hj hi hc =
      new_method_complete input (rw hi (is_did_key_id-append urls.joins did fragment hd hf))
        (rw hc hd) (new_jwk_issues engine input.public_key_jwk hj)
