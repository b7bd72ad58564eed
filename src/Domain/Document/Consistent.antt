-- ===== src/Domain/Document/Consistent.antt =====
-- `DidDocument::validate` against what a consistent document is.
use midnight_did_rs.Common.{
  ℕ, ◌+◌, ◌≡◌, ◌↔◌, refl, sym, ap, ◌∙◌, subst, Bool, true, false, ◌||◌, not, Option, none, some,
  List, [], ◌∷◌, Text, codes, All, map, ok, arith,
}
use mathlib.Core.Path.{fun_ext}
use midnight_did_rs.Domain.Validation.{ValidationIssue, checked}
use midnight_did_rs.Domain.Json.{JsonValue}
use midnight_did_rs.Domain.Names.{DidKeyId}
use midnight_did_rs.Domain.Methods.{VerificationMethod}
use midnight_did_rs.Domain.Services.{Service}
use midnight_did_rs.Domain.Uri.{UrlParser}
use midnight_did_rs.Domain.Document.{
  DidDocument, or_nil, contains, insert_if, canonicalize, method_loop, check_relation,
  endpoint_values, service_loop, check_services, document_issues, validate,
  with_normalized_service_endpoints,
}
use midnight_did_rs.Domain.Document.Loops.{
  Fresh, Distinct, method_loop_sound, method_loop_complete, relation_loop_sound,
  relation_loop_complete, endpoint_loop_sound, endpoint_loop_complete, contains-method_loop,
  Distinct-of_Fresh, Fresh-of_Distinct, append_if-nil,
}

abbrev pub canonical_keys : Text → Option (List DidKeyId) → List Text
canonical_keys did values = map (λ (v : DidKeyId). canonicalize did v.key_id) (or_nil values)

abbrev pub method_ids : DidDocument → List Text
method_ids doc =
    map (λ (vm : VerificationMethod). canonicalize doc.id.did vm.id.key_id)
      (or_nil doc.verification_method)

-- The entries of a relation differ, and each names one of the ids.
abbrev pub References : Text → List Text → Option (List DidKeyId) → Type 0
References did ids values =
    Distinct (canonical_keys did values)
    × All (λ key. contains ids key ≡ true) (canonical_keys did values)

abbrev pub endpoint_keys : (JsonValue → Text) → Service → List Text
endpoint_keys json_text s = map json_text (endpoint_values s.service_endpoint)

module _ (json_text : JsonValue → Text) where
  pub record IsConsistent (doc : DidDocument) : Type 0 where
    pub methods : Distinct (method_ids doc)
    pub authentication : References doc.id.did (method_ids doc) doc.authentication
    pub assertion_method : References doc.id.did (method_ids doc) doc.assertion_method
    pub key_agreement : References doc.id.did (method_ids doc) doc.key_agreement
    pub capability_invocation : References doc.id.did (method_ids doc) doc.capability_invocation
    pub capability_delegation : References doc.id.did (method_ids doc) doc.capability_delegation
    pub service_ids : Distinct (map (λ (s : Service). s.id) (or_nil doc.service))
    pub endpoints : All (λ s. Distinct (endpoint_keys json_text s)) (or_nil doc.service)

  service_loop_sound :
      (index : ℕ) (seen : List Text) (issues : List ValidationIssue) (services : List Service)
      → service_loop json_text index seen issues services ≡ []
      → (issues ≡ [])
        × Fresh seen (map (λ (s : Service). s.id) services)
        × All (λ s. Distinct (endpoint_keys json_text s)) services
  unfolding service_loop
  service_loop_sound index seen issues [] h = (h, tt, tt)
  service_loop_sound index seen issues (s ∷ services) h =
      let (a, f, e) = service_loop_sound (index + 1) _ _ services h in
      let (b, g) = endpoint_loop_sound index 0 [] _ (endpoint_keys json_text s) a in
      let (old, quiet) = append_if-nil (contains seen s.id) _ issues b in
      (
        quiet,
        (
          old,
          subst
              (λ (t : Bool).
                Fresh (insert_if (not t) s.id seen) (map (λ (u : Service). u.id) services))
              old f,
        ),
        ((Distinct-of_Fresh [] (endpoint_keys json_text s) g).0, e),
      )

  All-new : (keys : List Text) → All (λ c. contains [] c ≡ false) keys
  unfolding contains
  All-new [] = tt
  All-new (key ∷ keys) = (refl, All-new keys)

  service_loop_complete :
      (index : ℕ) (seen : List Text) (services : List Service)
      → Fresh seen (map (λ (s : Service). s.id) services)
      → All (λ s. Distinct (endpoint_keys json_text s)) services
      → service_loop json_text index seen [] services ≡ []
  unfolding service_loop
  service_loop_complete index seen [] f e = refl
  service_loop_complete index seen (s ∷ services) (new, f) (d, e) =
      let keys = endpoint_keys json_text s in
      let quiet =
        endpoint_loop_complete index 0 [] keys (Fresh-of_Distinct [] keys d (All-new keys)) in
      rw (new, quiet, service_loop) (service_loop_complete (index + 1) (s.id ∷ seen) services f e)

  check_relation_sound :
      (did : Text) (known : List Text) (name : Text) (values : Option (List DidKeyId))
      (issues : List ValidationIssue)
      → check_relation did known name values issues ≡ []
      → (issues ≡ []) × References did known values
  unfolding check_relation
  check_relation_sound did known name none issues h = (h, (tt, tt))
  check_relation_sound did known name (some values) issues h =
      let (a, f, k) =
        relation_loop_sound known name 0 [] issues (canonical_keys did (some values)) h in
      (a, ((Distinct-of_Fresh [] (canonical_keys did (some values)) f).0, k))

  check_relation_complete :
      (did : Text) (known : List Text) (name : Text) (values : Option (List DidKeyId))
      → References did known values
      → check_relation did known name values [] ≡ []
  unfolding check_relation
  check_relation_complete did known name none r = refl
  check_relation_complete did known name (some values) (d, k) =
      let keys = canonical_keys did (some values) in
      relation_loop_complete known name 0 [] keys (Fresh-of_Distinct [] keys d (All-new keys)) k

  contains_known : (ids : List Text) → contains (method_loop 0 [] [] ids).0 ≡ contains ids
  contains_known ids =
      fun_ext (λ key. contains-method_loop 0 [] [] ids key ∙ none_before (contains ids key) key)
    where
      none_before : (b : Bool) (key : Text) → (b || contains [] key) ≡ b
      none_before b key = unfold contains in ground arith

  known_References :
      (did : Text) (ids : List Text) (values : Option (List DidKeyId))
      → References did (method_loop 0 [] [] ids).0 values
      → References did ids values
  known_References did ids values (d, r) = (
    d,
    subst (λ (f : Text → Bool). All (λ key. f key ≡ true) (canonical_keys did values))
        (contains_known ids) r,
  )

  References-known :
      (did : Text) (ids : List Text) (values : Option (List DidKeyId))
      → References did ids values
      → References did (method_loop 0 [] [] ids).0 values
  References-known did ids values (d, r) = (
    d,
    subst (λ (f : Text → Bool). All (λ key. f key ≡ true) (canonical_keys did values))
        (sym (contains_known ids)) r,
  )

  check_services_sound :
      (services : Option (List Service)) (issues : List ValidationIssue)
      → check_services json_text services issues ≡ []
      → (issues ≡ [])
        × Distinct (map (λ (s : Service). s.id) (or_nil services))
        × All (λ s. Distinct (endpoint_keys json_text s)) (or_nil services)
  unfolding check_services
  check_services_sound none issues h = (h, tt, tt)
  check_services_sound (some services) issues h =
      let (a, f, e) = service_loop_sound 0 [] issues services h in
      (a, (Distinct-of_Fresh [] _ f).0, e)

  check_services_complete :
      (services : Option (List Service))
      → Distinct (map (λ (s : Service). s.id) (or_nil services))
      → All (λ s. Distinct (endpoint_keys json_text s)) (or_nil services)
      → check_services json_text services [] ≡ []
  unfolding check_services
  check_services_complete none d e = refl
  check_services_complete (some services) d e =
      service_loop_complete 0 [] services
        (Fresh-of_Distinct [] (map (λ (s : Service). s.id) services) d
          (All-new (map (λ (s : Service). s.id) services)))
        e

  document_issues_sound :
      (doc : DidDocument) → document_issues json_text doc ≡ [] → IsConsistent doc
  unfolding document_issues
  document_issues_sound doc h =
      let ids = method_ids doc in
      let (h5, ds, es) = check_services_sound doc.service _ h in
      let (h4, r5) = check_relation_sound doc.id.did _ _ doc.capability_delegation _ h5 in
      let (h3, r4) = check_relation_sound doc.id.did _ _ doc.capability_invocation _ h4 in
      let (h2, r3) = check_relation_sound doc.id.did _ _ doc.key_agreement _ h3 in
      let (h1, r2) = check_relation_sound doc.id.did _ _ doc.assertion_method _ h2 in
      let (h0, r1) = check_relation_sound doc.id.did _ _ doc.authentication _ h1 in
      let (_, f) = method_loop_sound 0 [] [] ids h0 in
      record {
        methods = (Distinct-of_Fresh [] ids f).0;
        authentication = known_References doc.id.did ids doc.authentication r1;
        assertion_method = known_References doc.id.did ids doc.assertion_method r2;
        key_agreement = known_References doc.id.did ids doc.key_agreement r3;
        capability_invocation = known_References doc.id.did ids doc.capability_invocation r4;
        capability_delegation = known_References doc.id.did ids doc.capability_delegation r5;
        service_ids = ds;
        endpoints = es;
      }

  document_issues_complete :
      (doc : DidDocument) → IsConsistent doc → document_issues json_text doc ≡ []
  unfolding document_issues
  document_issues_complete doc c =
      let ids = method_ids doc in
      let did = doc.id.did in
      let quiet =
        method_loop_complete 0 [] ids (Fresh-of_Distinct [] ids c.methods (All-new ids)) in
      let relation =
        λ (name : Text) (values : Option (List DidKeyId)) (r : References did ids values).
          check_relation_complete did (method_loop 0 [] [] ids).0 name values
            (References-known did ids values r) in
      rw
        (
          quiet,
          relation (codes "authentication") doc.authentication c.authentication,
          relation (codes "assertionMethod") doc.assertion_method c.assertion_method,
          relation (codes "keyAgreement") doc.key_agreement c.key_agreement,
          relation (codes "capabilityInvocation") doc.capability_invocation c.capability_invocation,
          relation (codes "capabilityDelegation") doc.capability_delegation c.capability_delegation,
        )
        (check_services_complete doc.service c.service_ids c.endpoints)

  -- `DidDocument::validate` succeeds exactly on the consistent documents. With the endpoints
  -- normalised: the verification methods' ids differ, the entries of each of the five relations
  -- differ and name a verification method of the document, all after resolving relative ids
  -- against the document's DID; the services' ids differ, and so do each service's endpoints.
  pub validate_iff :
      (urls : UrlParser) (doc : DidDocument)
      → (validate json_text urls doc ≡ ok tt)
        ↔ IsConsistent (with_normalized_service_endpoints urls doc)
  unfolding validate
  validate_iff urls doc = (
    (λ h. document_issues_sound (with_normalized_service_endpoints urls doc) (no_issue _ h)),
    (λ c.
        ap (checked tt) (document_issues_complete (with_normalized_service_endpoints urls doc) c)),
  )
    where
      no_issue : (is : List ValidationIssue) → checked tt is ≡ ok tt → is ≡ []
      no_issue [] h = refl
      no_issue (i ∷ is) h = cc
