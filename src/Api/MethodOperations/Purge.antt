-- ===== src/Api/MethodOperations/Purge.antt =====
-- Removing a verification method, on the recording backend.
use midnight_did_rs.Common.{
  ◌≡◌, refl, sym, ap, ◌∙◌, List, [], ◌∷◌, ◌++◌, append-nil, append_assoc, Text, any, text_eq,
  if◌then◌else◌, ok, Bool-cases, inl, inr,
}
use midnight_did_rs.Common.Actions.{map_action_err}
use midnight_did_rs.Domain.Codecs.{Bytes}
use midnight_did_rs.Domain.Ledger.{method_id}
use midnight_did_rs.Method.Network.{MidnightNetwork}
use midnight_did_rs.Method.Hex.{HexCodec, ContractAddress}
use midnight_did_rs.Runtime.Ledger.{
  DidLedgerSnapshot, LedgerVerificationMethodRelation, SetMutation, relation_contains, relation_set,
}
use midnight_did_rs.Runtime.Call.{DidContractCall, JsonCodec, IsJsonCodec, IsGated, read_ledger}
use midnight_did_rs.Runtime.Call
use midnight_did_rs.Runtime.Backend.{RecordingBackend, FinalizedTxData, recording, push_call}
use midnight_did_rs.Runtime.Backend.Recording.{submit_tx-encode_call}
use midnight_did_rs.Runtime.Contract.{
  Contract, submit, read_snapshot, set_verification_method_relation,
}
use midnight_did_rs.Runtime.Contract
use midnight_did_rs.Api.Subject.{normalize_bound_fragment_id_for}
use midnight_did_rs.Api.Mappers.{ledger_verification_method_relation_for}
use midnight_did_rs.Api.MethodOperations.{
  VerificationMethodRelationMembership, verification_method_relation_memberships,
  remove_present_verification_method_relations, purge_verification_method_from_all_relations,
  remove_verification_method, map_backend_err,
}

-- The call that takes `id` out of a relation, where it is a member.
abbrev pub removal :
    LedgerVerificationMethodRelation
    → List Text
    → Text
    → List DidContractCall
    → List DidContractCall
removal r members id rest =
    if any (λ m. text_eq m id) members
    then Call.set_verification_method_relation r id SetMutation.remove ∷ rest
    else rest

-- The removals from the five relations, in their order.
abbrev pub removals : DidLedgerSnapshot → Text → List DidContractCall
removals s id =
    removal LedgerVerificationMethodRelation.authentication s.authentication_relation id (
      removal LedgerVerificationMethodRelation.assertion_method s.assertion_method_relation id (
        removal LedgerVerificationMethodRelation.key_agreement s.key_agreement_relation id (
          removal LedgerVerificationMethodRelation.capability_invocation
            s.capability_invocation_relation id
            (removal LedgerVerificationMethodRelation.capability_delegation
              s.capability_delegation_relation id []))))

-- More calls behind the recorded ones.
abbrev pub recorded : RecordingBackend → List DidContractCall → RecordingBackend
recorded b new = record b { calls = b.calls ++ new }

module _ (codec : JsonCodec) (blake2b : Bytes → Bytes) (encode_hex : Bytes → Text) where
  abbrev pub on_recording : ContractAddress → MidnightNetwork → Contract RecordingBackend
  on_recording address network = record {
    backend = recording codec blake2b encode_hex;
    address = address;
    network = network;
  }

  module _ (lawful : IsJsonCodec codec) (hex : HexCodec) (address : ContractAddress)
      (network : MidnightNetwork) where
    -- A submission on the recording backend.
    pub submitted :
        (call : DidContractCall) (b : RecordingBackend)
        → IsGated call
        → (tx : FinalizedTxData) × (map_action_err map_backend_err
              (submit codec (on_recording address network) call)
              b
            ≡ (ok tx, push_call call b))
    unfolding submit
    submitted call b g =
        let (tx, e, _, _) = submit_tx-encode_call codec blake2b encode_hex lawful call b g in
        (tx, rw e refl)

    entry_calls : List VerificationMethodRelationMembership → Text → List DidContractCall
    entry_calls [] id = []
    entry_calls (e ∷ ms) id =
        if e.member
        then Call.set_verification_method_relation
            (ledger_verification_method_relation_for e.relation) id SetMutation.remove
          ∷ entry_calls ms id
        else entry_calls ms id

    push-recorded :
        (call : DidContractCall) (new : List DidContractCall) (b : RecordingBackend)
        → recorded (push_call call b) new ≡ recorded b (call ∷ new)
    push-recorded call new b i = record b { calls = append_assoc b.calls (call ∷ []) new i }

    remove_present_lem :
        (ms : List VerificationMethodRelationMembership) (id : Text) (b : RecordingBackend)
        → remove_present_verification_method_relations codec hex
            (on_recording address network)
            ms
            id
            b
          ≡ (ok tt, recorded b (entry_calls ms id))
    unfolding remove_present_verification_method_relations entry_calls
        set_verification_method_relation
    remove_present_lem [] id b =
        ap (λ (l : List DidContractCall). (ok tt, record b { calls = l }))
          (sym (append-nil b.calls))
    remove_present_lem (e ∷ ms) id b = elim (Bool-cases e.member) [
      | inr f ↦ rw f (remove_present_lem ms id b)
      | inl t ↦
          let call =
            Call.set_verification_method_relation
              (ledger_verification_method_relation_for e.relation) id SetMutation.remove in
          let (tx, s) = submitted call b tt in
          rw (t, s)
            (remove_present_lem ms id (push_call call b)
              ∙ ap (λ (c : RecordingBackend). (ok tt, c))
                  (push-recorded call (entry_calls ms id) b))
    ]

    memberships_removals :
        (s : DidLedgerSnapshot) (id : Text)
        → entry_calls (verification_method_relation_memberships s id) id ≡ removals s id
    unfolding entry_calls verification_method_relation_memberships relation_contains relation_set
        ledger_verification_method_relation_for
    memberships_removals s id = refl

    purge_lem :
        (id : Text) (b : RecordingBackend)
        → purge_verification_method_from_all_relations codec hex (on_recording address network) id b
          ≡ (ok tt, recorded b (read_ledger ∷ removals b.snapshot id))
    unfolding purge_verification_method_from_all_relations read_snapshot recording
    purge_lem id b =
        remove_present_lem (verification_method_relation_memberships b.snapshot id) id
          (push_call read_ledger b)
        ∙ (λ i. (ok tt, recorded (push_call read_ledger b) (memberships_removals b.snapshot id i)))
        ∙ ap (λ (c : RecordingBackend). (ok tt, c))
            (push-recorded read_ledger (removals b.snapshot id) b)

    -- With a serialiser that reads back what it writes, removing a verification method on the
    -- recording backend succeeds for an id that normalises, and records, behind what was recorded:
    -- the reading of the ledger, the removal of the id from each relation that contains it, in the
    -- order of the relations and from no other, and then the removal of the method.
    pub remove_verification_method-recorded :
        (id normalized : Text) (b : RecordingBackend)
        → normalize_bound_fragment_id_for hex (on_recording address network) id method_id
          ≡ ok normalized
        → (tx : FinalizedTxData) × (remove_verification_method codec hex
              (on_recording address network)
              id
              b
            ≡ (
              ok tx,
              recorded b (
                  read_ledger
                  ∷ (removals b.snapshot normalized
                      ++ Call.remove_verification_method normalized ∷ [])),
            ))
    unfolding remove_verification_method Contract.remove_verification_method
    remove_verification_method-recorded id normalized b h =
        let purged = recorded b (read_ledger ∷ removals b.snapshot normalized) in
        let (tx, s) = submitted (Call.remove_verification_method normalized) purged tt in
        (
          tx,
          rw (h, purge_lem normalized b) s ∙ (λ i. (
            ok tx,
            record b {
              calls =
                  append_assoc b.calls (read_ledger ∷ removals b.snapshot normalized)
                    (Call.remove_verification_method normalized ∷ []) i;
            },
          )),
        )
