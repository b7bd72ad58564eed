-- ===== src/Method/Offchain/Projection/Accepted.antt =====
-- When an off-chain state has a projection, by the loops over its methods and services.
use midnight_did_rs.Common.{
  ◌≡◌, ◌↔◌, refl, sym, ap, ap₂, ◌∙◌, arith, true, List, [], ◌∷◌, Text, codes, All, map, ok,
  >>=-eq-ok, ok-injective,
}
use midnight_did_rs.Domain.Codecs.{Base64}
use midnight_did_rs.Domain.Uri.{UrlParser}
use midnight_did_rs.Domain.Jwk.{collect_issues}
use midnight_did_rs.Domain.Names.{DidString, is_did_key_id, is_did_string, parse_did_string}
use midnight_did_rs.Domain.Methods.{VerificationMethod, new_method}
use midnight_did_rs.Domain.Methods.Accepted.{method_of, new_method_iff}
use midnight_did_rs.Domain.Services.{
  Service, new_service, validate_service, normalize_service_endpoint,
}
use midnight_did_rs.Domain.Document.{many_contexts}
use midnight_did_rs.Method.Did.{MidnightDidString}
use midnight_did_rs.Method.Offchain.State.{
  OffchainVerificationMethod, OffchainService, OffchainMidnightDidState,
}
use midnight_did_rs.Method.Offchain.Projection.{
  OffchainProjectedDocument, maybe_some, ids_with, new_of, service_of, project_methods,
  project_services, offchain_verification_method_to_did_document_method,
  offchain_service_to_did_document_service, offchain_state_to_did_document,
}

module _ (engine : Base64) (urls : UrlParser) where
  -- The method is accepted under the DID.
  abbrev pub AcceptsMethod : OffchainVerificationMethod → Type 0
  AcceptsMethod m =
      (is_did_key_id urls.joins m.id ≡ true) × (collect_issues engine m.public_key_jwk ≡ [])

  abbrev pub AcceptsService : OffchainService → Type 0
  AcceptsService s = validate_service urls (service_of s) ≡ ok tt

  abbrev pub projected_service : OffchainService → Service
  projected_service s =
      let plain = service_of s in
      record plain { service_endpoint = normalize_service_endpoint urls plain.service_endpoint }

  project_methods_sound :
      (did : MidnightDidString) (vms : List OffchainVerificationMethod)
      (methods : List VerificationMethod)
      → project_methods engine urls did vms ≡ ok methods
      → (methods
          ≡ map (λ (m : OffchainVerificationMethod). method_of engine urls (new_of did m)) vms)
        × All AcceptsMethod vms
  unfolding project_methods offchain_verification_method_to_did_document_method
  project_methods_sound did [] methods h = (sym (ok-injective h), tt)
  project_methods_sound did (vm ∷ vms) methods h =
      let (m, one, h1) = >>=-eq-ok (new_method engine urls (new_of did vm)) _ h in
      let (ms, more, h2) = >>=-eq-ok (project_methods engine urls did vms) _ h1 in
      let (same, key_id, _, issues) = (new_method_iff engine urls (new_of did vm) m).0 one in
      let (rest, accepted) = project_methods_sound did vms ms more in
      (sym (ok-injective h2) ∙ ap₂ ◌∷◌ same rest, ((key_id, issues), accepted))

  project_methods_complete :
      (did : MidnightDidString) (vms : List OffchainVerificationMethod)
      → is_did_string did.value ≡ true
      → All AcceptsMethod vms
      → project_methods engine urls did vms
        ≡ ok (map (λ (m : OffchainVerificationMethod). method_of engine urls (new_of did m)) vms)
  unfolding project_methods offchain_verification_method_to_did_document_method
  project_methods_complete did [] d h = refl
  project_methods_complete did (vm ∷ vms) d ((key_id, issues), h) =
      let made =
        (new_method_iff engine urls (new_of did vm) (method_of engine urls (new_of did vm))).1
          (refl, key_id, d, issues) in
      rw (made, project_methods_complete did vms d h) refl

  new_service_iff :
      (s : OffchainService) (made : Service)
      → (new_service urls (service_of s) ≡ ok made)
        ↔ ((made ≡ projected_service s) × AcceptsService s)
  unfolding new_service
  new_service_iff s made = (
    (λ h.
        let (_, valid, final) = >>=-eq-ok (validate_service urls (service_of s)) _ h in
        (sym (ok-injective final), valid)),
    λ h. rw (h.1) (ap ok (sym h.0)),
  )

  project_services_sound :
      (services : List OffchainService) (made : List Service)
      → project_services engine urls services ≡ ok made
      → (made ≡ map projected_service services) × All AcceptsService services
  unfolding project_services offchain_service_to_did_document_service
  project_services_sound [] made h = (sym (ok-injective h), tt)
  project_services_sound (s ∷ services) made h =
      let (m, one, h1) = >>=-eq-ok (new_service urls (service_of s)) _ h in
      let (ms, more, h2) = >>=-eq-ok (project_services engine urls services) _ h1 in
      let (same, valid) = (new_service_iff s m).0 one in
      let (rest, accepted) = project_services_sound services ms more in
      (sym (ok-injective h2) ∙ ap₂ ◌∷◌ same rest, (valid, accepted))

  project_services_complete :
      (services : List OffchainService)
      → All AcceptsService services
      → project_services engine urls services ≡ ok (map projected_service services)
  unfolding project_services offchain_service_to_did_document_service
  project_services_complete [] h = refl
  project_services_complete (s ∷ services) (valid, h) =
      rw
        (
          (new_service_iff s (projected_service s)).1 (refl, valid),
          project_services_complete services h,
        )
        refl

  -- The document of a state.
  abbrev pub projection : MidnightDidString → OffchainMidnightDidState → OffchainProjectedDocument
  projection did state = record {
    context = many_contexts (
        codes "https://www.w3.org/ns/did/v1"
        ∷ codes "https://w3c.github.io/vc-jws-2020/contexts/v1"
        ∷ []);
    id = record { did = did.value };
    also_known_as = maybe_some state.also_known_as;
    controller = did;
    verification_method =
        map (λ (m : OffchainVerificationMethod). method_of engine urls (new_of did m))
          state.verification_method;
    authentication = maybe_some (ids_with (λ r. r.authentication) state.verification_method);
    assertion_method = maybe_some (ids_with (λ r. r.assertion_method) state.verification_method);
    key_agreement = maybe_some (ids_with (λ r. r.key_agreement) state.verification_method);
    capability_invocation =
        maybe_some (ids_with (λ r. r.capability_invocation) state.verification_method);
    capability_delegation =
        maybe_some (ids_with (λ r. r.capability_delegation) state.verification_method);
    service = maybe_some (map projected_service state.service);
  }

  abbrev pub AcceptsState : MidnightDidString → OffchainMidnightDidState → Type 0
  AcceptsState did state =
      (is_did_string did.value ≡ true)
      × All AcceptsMethod state.verification_method
      × All AcceptsService state.service

  parse_did_string_iff :
      (s : Text) (d : DidString)
      → (parse_did_string s ≡ ok d) ↔ ((d ≡ record { did = s }) × (is_did_string s ≡ true))
  unfolding parse_did_string
  parse_did_string_iff s d = ((λ h. ground arith), λ h. rw h.1 (ap ok (sym h.0)))

  -- A state is projected to `projection`, exactly if it is accepted.
  pub projected_iff :
      (did : MidnightDidString) (state : OffchainMidnightDidState) (doc : OffchainProjectedDocument)
      → (offchain_state_to_did_document engine urls did state ≡ ok doc)
        ↔ ((doc ≡ projection did state) × AcceptsState did state)
  unfolding offchain_state_to_did_document
  projected_iff did state doc = (sound, complete)
    where
      sound :
          offchain_state_to_did_document engine urls did state ≡ ok doc
          → (doc ≡ projection did state) × AcceptsState did state
      sound h =
          let (methods, e1, h1) =
            >>=-eq-ok (project_methods engine urls did state.verification_method) _ h in
          let (services, e2, h2) = >>=-eq-ok (project_services engine urls state.service) _ h1 in
          let (id, e3, h3) = >>=-eq-ok (parse_did_string did.value) _ h2 in
          let (m, accepted) = project_methods_sound did state.verification_method methods e1 in
          let (s, valid) = project_services_sound state.service services e2 in
          let (i, is_did) = (parse_did_string_iff did.value id).0 e3 in
          (
            sym (ok-injective h3) ∙ (λ j. record (projection did state) {
              id = i j;
              verification_method = m j;
              service = maybe_some (s j);
            }),
            (is_did, accepted, valid),
          )

      complete :
          (doc ≡ projection did state) × AcceptsState did state
          → offchain_state_to_did_document engine urls did state ≡ ok doc
      complete (same, (is_did, accepted, valid)) =
          rw
            (
              project_methods_complete did state.verification_method is_did accepted,
              project_services_complete state.service valid,
              (parse_did_string_iff did.value (record { did = did.value })).1 (refl, is_did),
            )
            (ap ok (sym same))
