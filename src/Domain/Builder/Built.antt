-- ===== src/Domain/Builder/Built.antt =====
-- The documents that the builders return.
use midnight_did_rs.Common.{
  ◌≡◌, refl, sym, ap, ◌∙◌, subst, true, Option, none, some, List, [], ◌∷◌, map, Text, ok, >>=-eq-ok,
  ok-injective, arith,
}
use midnight_did_rs.Domain.Validation.{checked}
use midnight_did_rs.Domain.Json.{JsonValue}
use midnight_did_rs.Domain.Names.{DidString, DidKeyId, is_did_string, parse_did_string}
use midnight_did_rs.Domain.Uri.{UrlParser}
use midnight_did_rs.Domain.Methods.{VerificationMethod}
use midnight_did_rs.Domain.Services.{Service, normalize_service_endpoint}
use midnight_did_rs.Domain.Document.{
  DidDocument, Controller, or_nil, validate, with_normalized_service_endpoints,
}
use midnight_did_rs.Domain.Document.Consistent.{IsConsistent, validate_iff}
use midnight_did_rs.Domain.Builder.{
  DidDocumentBuilder, CreateDidDocumentParams, builder_issues, document_of, document_with,
  some_if_any, finished, build, create_did_document,
}

parse_did_string_sound :
    (s : Text) {d : DidString} → parse_did_string s ≡ ok d → (is_did_string s ≡ true) × (d.did ≡ s)
unfolding parse_did_string
parse_did_string_sound s h = ground arith

or_nil-some_if_any : {A : Type 0} (xs : List A) → or_nil (some_if_any xs) ≡ xs
or_nil-some_if_any [] = refl
or_nil-some_if_any (x ∷ xs) = refl

-- The service with its endpoint normalised.
abbrev pub normalized : UrlParser → Service → Service
normalized urls s = record s {
  service_endpoint = normalize_service_endpoint urls s.service_endpoint;
}

-- The document carries the parts that were given, its services with their endpoints normalised.
pub record Carries (urls : UrlParser) (doc : DidDocument) (also_known_as : Option (List Text))
    (controller : Option Controller) (methods : List VerificationMethod)
    (authentication assertion_method key_agreement : List DidKeyId)
    (capability_invocation capability_delegation : List DidKeyId) (services : List Service)
    : Type 0 where
  pub aliases : doc.also_known_as ≡ also_known_as
  pub controllers : doc.controller ≡ controller
  pub methods_kept : or_nil doc.verification_method ≡ methods
  pub authentication_kept : or_nil doc.authentication ≡ authentication
  pub assertion_method_kept : or_nil doc.assertion_method ≡ assertion_method
  pub key_agreement_kept : or_nil doc.key_agreement ≡ key_agreement
  pub capability_invocation_kept : or_nil doc.capability_invocation ≡ capability_invocation
  pub capability_delegation_kept : or_nil doc.capability_delegation ≡ capability_delegation
  pub services_normalized : or_nil doc.service ≡ map (normalized urls) services

-- What the builder, and what the parameters, give to a document.
abbrev pub CarriesBuilder : UrlParser → DidDocument → DidDocumentBuilder → Type 0
CarriesBuilder urls doc b =
    Carries urls doc b.also_known_as b.controller b.verification_method b.authentication
      b.assertion_method b.key_agreement b.capability_invocation b.capability_delegation b.service

abbrev pub CarriesParams : UrlParser → DidDocument → CreateDidDocumentParams → Type 0
CarriesParams urls doc p =
    Carries urls doc p.also_known_as p.controller (or_nil p.verification_method)
      (or_nil p.authentication) (or_nil p.assertion_method) (or_nil p.key_agreement)
      (or_nil p.capability_invocation) (or_nil p.capability_delegation) (or_nil p.service)

module _ (json_text : JsonValue → Text) (urls : UrlParser) where
  normalized_services :
      (services : Option (List Service)) (doc : DidDocument)
      → doc.service ≡ services
      → or_nil (with_normalized_service_endpoints urls doc).service
        ≡ map (normalized urls) (or_nil services)
  unfolding with_normalized_service_endpoints
  normalized_services none doc e = rw e refl
  normalized_services (some services) doc e = rw e refl

  -- A finished document is consistent, and is the document before with its endpoints normalised.
  finished_sound :
      (before doc : DidDocument)
      → finished json_text urls before ≡ ok doc
      → IsConsistent json_text doc × (doc ≡ with_normalized_service_endpoints urls before)
  unfolding finished
  finished_sound before doc h =
      let (_, valid, e) = >>=-eq-ok (validate json_text urls before) _ h in
      let same = ok-injective e in
      let good = (validate_iff json_text urls before).0 valid in
      (subst (IsConsistent json_text) same good, sym same)

  document_of-Carries :
      (b : DidDocumentBuilder) (subject : DidString)
      → CarriesBuilder urls (with_normalized_service_endpoints urls (document_of b subject)) b
  unfolding document_of with_normalized_service_endpoints
  document_of-Carries b subject = record {
    aliases = refl;
    controllers = refl;
    methods_kept = or_nil-some_if_any b.verification_method;
    authentication_kept = or_nil-some_if_any b.authentication;
    assertion_method_kept = or_nil-some_if_any b.assertion_method;
    key_agreement_kept = or_nil-some_if_any b.key_agreement;
    capability_invocation_kept = or_nil-some_if_any b.capability_invocation;
    capability_delegation_kept = or_nil-some_if_any b.capability_delegation;
    services_normalized =
        normalized_services (some_if_any b.service) (document_of b subject) refl
        ∙ ap (map (normalized urls)) (or_nil-some_if_any b.service);
  }

  document_with-Carries :
      (params : CreateDidDocumentParams) (subject : DidString)
      → CarriesParams urls
          (with_normalized_service_endpoints urls (document_with params subject))
          params
  unfolding document_with with_normalized_service_endpoints
  document_with-Carries params subject = record {
    aliases = refl;
    controllers = refl;
    methods_kept = refl;
    authentication_kept = refl;
    assertion_method_kept = refl;
    key_agreement_kept = refl;
    capability_invocation_kept = refl;
    capability_delegation_kept = refl;
    services_normalized = normalized_services params.service (document_with params subject) refl;
  }

  -- Every document that the builder returns is consistent and carries what was given: the aliases,
  -- the controller, the verification methods, the five relations, and the services with their
  -- endpoints normalised. Its id is the subject that was given, which is a DID.
  pub build-IsConsistent :
      (b : DidDocumentBuilder) (doc : DidDocument)
      → build json_text urls b ≡ ok doc
      → IsConsistent json_text doc
        × CarriesBuilder urls doc b
        × (doc.id.did ≡ b.id)
        × (is_did_string b.id ≡ true)
  unfolding build document_of with_normalized_service_endpoints
  build-IsConsistent b doc h =
      let (subject, p, h1) = >>=-eq-ok (parse_did_string b.id) _ h in
      let (_, clean, h2) = >>=-eq-ok (checked tt (builder_issues b)) _ h1 in
      let (good, made) = finished_sound (document_of b subject) doc h2 in
      let (is, same) = parse_did_string_sound b.id p in
      let carried =
        subst (λ (d : DidDocument). CarriesBuilder urls d b) (sym made)
          (document_of-Carries b subject) in
      (good, carried, ap (λ (d : DidDocument). d.id.did) made ∙ same, is)

  -- Every document that `create_did_document` returns is consistent and carries what was given:
  -- the aliases, the controller, the verification methods, the five relations, and the services
  -- with their endpoints normalised. Its id is the subject that was given, which is a DID.
  pub create_did_document-IsConsistent :
      (params : CreateDidDocumentParams) (doc : DidDocument)
      → create_did_document json_text urls params ≡ ok doc
      → IsConsistent json_text doc
        × CarriesParams urls doc params
        × (doc.id.did ≡ params.id)
        × (is_did_string params.id ≡ true)
  unfolding create_did_document document_with with_normalized_service_endpoints
  create_did_document-IsConsistent params doc h =
      let (subject, p, h1) = >>=-eq-ok (parse_did_string params.id) _ h in
      let (good, made) = finished_sound (document_with params subject) doc h1 in
      let (is, same) = parse_did_string_sound params.id p in
      let carried =
        subst (λ (d : DidDocument). CarriesParams urls d params) (sym made)
          (document_with-Carries params subject) in
      (good, carried, ap (λ (d : DidDocument). d.id.did) made ∙ same, is)
