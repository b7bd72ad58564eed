-- ===== src/Api/Resolution/State/Resolved.antt =====
-- What a document that `ledger_state_to_did_document` returns holds.
use midnight_did_rs.Common.{
  ◌≡◌, sym, ap, ap₂, ◌∙◌, subst, true, Option, List, [], ◌∷◌, Text, codes, All, map, arith, ok,
  guard, map_err, map_err-eq-ok, guard-eq-ok, >>=-eq-ok, ok-injective,
}
use midnight_did_rs.Domain.Names.{DidString, DidKeyId, parse_did_key_id, parse_did_string}
use midnight_did_rs.Domain.Methods.{VerificationMethod}
use midnight_did_rs.Domain.Document.{DidDocument, or_nil, contains}
use midnight_did_rs.Domain.Document.Loops.{Distinct, Distinct-of_Fresh}
use midnight_did_rs.Method.Network.{MidnightNetwork}
use midnight_did_rs.Method.Did.{create_midnight_did_string}
use midnight_did_rs.Runtime.Ledger.{DidLedgerSnapshot}
use midnight_did_rs.Api.Resolution.Ids.{verification_method_fragment_id, absolute_did_url_reference}
use midnight_did_rs.Api.Resolution.State.{
  Crates, Collected, method_entries, schnorr_entries, assert_targets, parse_members, map_relation,
  parse_services, check_targets, assemble, document_of, ledger_state_to_did_document, invalid,
}
use midnight_did_rs.Api.Resolution.State.Growth.{
  key_of, method_keys, normal_ids, ids_of, key_texts, known_pushed, or_nil-non_empty, All-imp,
  Grows-append, method_entries-Grows, schnorr_entries-Grows,
}

-- The relation holds the members in their normal form, and each is that of a table's key.
abbrev pub Mirrors : List Text → List Text → Option (List DidKeyId) → Type 0
Mirrors keys members relation =
    (key_texts relation ≡ normal_ids members)
    × All (λ m. contains (normal_ids keys) m ≡ true) (normal_ids members)

module _ (crates : Crates) (did : Text) where
  assert_targets_sound :
      (seen : List Text) (name : Text) (members : List Text) {u : Unit {0}}
      → assert_targets crates did seen name members ≡ ok u
      → All (λ m. contains seen m ≡ true) (normal_ids members)
  unfolding assert_targets
  assert_targets_sound seen name [] h = tt
  assert_targets_sound seen name (member ∷ members) h =
      let (_, g, rest) = >>=-eq-ok (guard _ _) _ h in
      (guard-eq-ok _ _ g, assert_targets_sound seen name members rest)

  parse_did_key_id-key_id :
      (m : Text) (k : DidKeyId) → parse_did_key_id crates.urls.joins m ≡ ok k → k.key_id ≡ m
  unfolding parse_did_key_id
  parse_did_key_id-key_id m k h = ground arith

  parse_members_sound :
      (members : List Text) (keys : List DidKeyId)
      → parse_members crates did members ≡ ok keys
      → map (λ (k : DidKeyId). k.key_id) keys ≡ normal_ids members
  unfolding parse_members
  parse_members_sound [] keys h =
      ap (λ (l : List DidKeyId). map (λ (k : DidKeyId). k.key_id) l) (sym (ok-injective h))
  parse_members_sound (m ∷ members) keys h =
      let (key, one, h1) =
        >>=-eq-ok
          (map_err _ (parse_did_key_id crates.urls.joins (verification_method_fragment_id m))) _
          h in
      let (rest, more, h2) = >>=-eq-ok (parse_members crates did members) _ h1 in
      ap (λ (l : List DidKeyId). map (λ (k : DidKeyId). k.key_id) l) (sym (ok-injective h2))
      ∙ ap₂ ◌∷◌ (parse_did_key_id-key_id _ key (map_err-eq-ok _ _ one))
          (parse_members_sound members rest more)

  map_relation_sound :
      (members : List Text) (relation : Option (List DidKeyId))
      → map_relation crates did members ≡ ok relation
      → key_texts relation ≡ normal_ids members
  unfolding map_relation
  map_relation_sound [] relation h =
      ap (λ (o : Option (List DidKeyId)). key_texts o) (sym (ok-injective h))
  map_relation_sound (m ∷ members) relation h =
      let (keys, parsed, made) = >>=-eq-ok (parse_members crates did (m ∷ members)) _ h in
      ap (λ (o : Option (List DidKeyId)). key_texts o) (sym (ok-injective made))
      ∙ parse_members_sound (m ∷ members) keys parsed

  parse_did_string-did : (d : DidString) → parse_did_string did ≡ ok d → d.did ≡ did
  unfolding parse_did_string
  parse_did_string-did d h = ground arith

-- A document that shows the state of the ledger.
pub record Shows (did : Text) (state : DidLedgerSnapshot) (doc : DidDocument) : Type 0 where
  pub id : doc.id.did ≡ did
  pub also_known_as : or_nil doc.also_known_as ≡ state.also_known_as
  pub methods :
      ids_of (or_nil doc.verification_method)
      ≡ map (absolute_did_url_reference did) (method_keys state)
  pub different : Distinct (normal_ids (method_keys state))
  pub authentication : Mirrors (method_keys state) state.authentication_relation doc.authentication
  pub assertion_method :
      Mirrors (method_keys state) state.assertion_method_relation doc.assertion_method
  pub key_agreement : Mirrors (method_keys state) state.key_agreement_relation doc.key_agreement
  pub capability_invocation :
      Mirrors (method_keys state) state.capability_invocation_relation doc.capability_invocation
  pub capability_delegation :
      Mirrors (method_keys state) state.capability_delegation_relation doc.capability_delegation

-- All members are among the ids that the loops saw.
abbrev Seen : List Text → List Text → Type 0
Seen seen members = All (λ m. contains seen m ≡ true) (normal_ids members)

module _ (crates : Crates) (did : Text) (state : DidLedgerSnapshot) where
  check_targets_sound :
      (seen : List Text) {u : Unit {0}}
      → check_targets crates did seen state ≡ ok u
      → Seen seen state.authentication_relation
        × Seen seen state.assertion_method_relation
        × Seen seen state.key_agreement_relation
        × Seen seen state.capability_invocation_relation
        × Seen seen state.capability_delegation_relation
  unfolding check_targets
  check_targets_sound seen h =
      let target = assert_targets crates did seen in
      let (_, t1, h1) =
        >>=-eq-ok (target (codes "authentication") state.authentication_relation) _ h in
      let (_, t2, h2) =
        >>=-eq-ok (target (codes "assertionMethod") state.assertion_method_relation) _ h1 in
      let (_, t3, h3) =
        >>=-eq-ok (target (codes "keyAgreement") state.key_agreement_relation) _ h2 in
      let (_, t4, t5) =
        >>=-eq-ok (target (codes "capabilityInvocation") state.capability_invocation_relation) _
          h3 in
      (
        assert_targets_sound crates did seen (codes "authentication") state.authentication_relation
            t1,
        assert_targets_sound crates did seen (codes "assertionMethod")
            state.assertion_method_relation t2,
        assert_targets_sound crates did seen (codes "keyAgreement") state.key_agreement_relation t3,
        assert_targets_sound crates did seen (codes "capabilityInvocation")
            state.capability_invocation_relation t4,
        assert_targets_sound crates did seen (codes "capabilityDelegation")
            state.capability_delegation_relation t5,
      )

  -- The parts of a document that was assembled.
  abbrev Assembled : List VerificationMethod → DidDocument → Type 0
  Assembled methods doc =
      (doc.id.did ≡ did)
      × (or_nil doc.also_known_as ≡ state.also_known_as)
      × (or_nil doc.verification_method ≡ methods)
      × (key_texts doc.authentication ≡ normal_ids state.authentication_relation)
      × (key_texts doc.assertion_method ≡ normal_ids state.assertion_method_relation)
      × (key_texts doc.key_agreement ≡ normal_ids state.key_agreement_relation)
      × (key_texts doc.capability_invocation ≡ normal_ids state.capability_invocation_relation)
      × (key_texts doc.capability_delegation ≡ normal_ids state.capability_delegation_relation)

  assemble-Assembled :
      (methods : List VerificationMethod) (doc : DidDocument)
      → assemble crates did state methods ≡ ok doc
      → Assembled methods doc
  unfolding assemble
  assemble-Assembled methods doc h =
      let (services, _, h1) = >>=-eq-ok (parse_services crates did state.services) _ h in
      let (id, i, h2) = >>=-eq-ok (map_err (invalid (codes "id")) (parse_did_string did)) _ h1 in
      let (controller, _, h3) =
        >>=-eq-ok (map_err (invalid (codes "controller")) (parse_did_string did)) _ h2 in
      let relation = map_relation crates did in
      let (r1, m1, h4) = >>=-eq-ok (relation state.authentication_relation) _ h3 in
      let (r2, m2, h5) = >>=-eq-ok (relation state.assertion_method_relation) _ h4 in
      let (r3, m3, h6) = >>=-eq-ok (relation state.key_agreement_relation) _ h5 in
      let (r4, m4, h7) = >>=-eq-ok (relation state.capability_invocation_relation) _ h6 in
      let (r5, m5, h8) = >>=-eq-ok (relation state.capability_delegation_relation) _ h7 in
      let sound = map_relation_sound crates did in
      subst (λ (d : DidDocument). Assembled methods d) (ok-injective h8)
        (
          parse_did_string-did crates did id (map_err-eq-ok _ _ i),
          or_nil-non_empty state.also_known_as,
          or_nil-non_empty methods,
          sound _ r1 m1,
          sound _ r2 m2,
          sound _ r3 m3,
          sound _ r4 m4,
          sound _ r5 m5,
        )

  document_of-Shows :
      (doc : DidDocument) → document_of crates did state ≡ ok doc → Shows did state doc
  unfolding document_of
  document_of-Shows doc h =
      let start : Collected = record { seen_ids = []; methods = [] } in
      let tables = state.schnorr_jubjub_verification_methods in
      let (first, e1, h1) =
        >>=-eq-ok (method_entries crates did state.verification_methods start) _ h in
      let (second, e2, h2) = >>=-eq-ok (schnorr_entries crates did tables first) _ h1 in
      let (_, t, h3) = >>=-eq-ok (check_targets crates did second.seen_ids state) _ h2 in
      let (fresh, seen, ids) =
        Grows-append crates did (map key_of state.verification_methods) (map key_of tables) start
          first second (method_entries-Grows crates did state.verification_methods start first e1)
          (schnorr_entries-Grows crates did tables first second e2) in
      let (t1, t2, t3, t4, t5) = check_targets_sound second.seen_ids t in
      let (id, aliases, methods, m1, m2, m3, m4, m5) = assemble-Assembled second.methods doc h3 in
      let known : (members : List Text)
          → Seen second.seen_ids members
          → Seen (normal_ids (method_keys state)) members =
        λ members.
          All-imp (λ m. contains second.seen_ids m ≡ true)
            (λ m. contains (normal_ids (method_keys state)) m ≡ true)
            (λ m. known_pushed (normal_ids (method_keys state)) second.seen_ids m seen)
            (normal_ids members) in
      record {
        id = id;
        also_known_as = aliases;
        methods = ap (λ (l : List VerificationMethod). ids_of l) methods ∙ ids;
        different = (Distinct-of_Fresh [] (normal_ids (method_keys state)) fresh).0;
        authentication = (m1, known _ t1);
        assertion_method = (m2, known _ t2);
        key_agreement = (m3, known _ t3);
        capability_invocation = (m4, known _ t4);
        capability_delegation = (m5, known _ t5);
      }

-- A document that is made of the ledger's state shows that state: its id is the DID of the
-- contract, its aliases are those of the ledger, its verification methods have the ids of the two
-- tables in their order, each made absolute under the DID, and each of the five relations has the
-- ledger's members in their order, in the form that `verification_method_fragment_id` gives them,
-- every one of which is the form of a table's key. The forms of the tables' keys differ; as that
-- of a whole DID URL is not its fragment, two methods may still have one absolute id.
pub ledger_state_to_did_document-Shows :
    (crates : Crates) (state : DidLedgerSnapshot) (network : MidnightNetwork) (address : Text)
    (doc : DidDocument)
    → ledger_state_to_did_document crates state network address ≡ ok doc
    → Shows (create_midnight_did_string address network).value state doc
unfolding ledger_state_to_did_document
ledger_state_to_did_document-Shows crates state network address doc h =
    document_of-Shows crates (create_midnight_did_string address network).value state doc h
