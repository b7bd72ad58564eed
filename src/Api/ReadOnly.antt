-- ===== src/Api/ReadOnly.antt =====
-- The operations on a contract over the read-only backend of a resolver.
use midnight_did_rs.Common.{
  codes, some, map_err, ◌≡◌, refl, ap, ◌∙◌, List, [], ◌∷◌, Text, Result, ok, err, Bool-cases, inl,
  inr,
}
use midnight_did_rs.Common.Actions.{Action, resume, ◌>>=◌, ◌>>◌, done, map_action_err}
use midnight_did_rs.Domain.Codecs.{Base64}
use midnight_did_rs.Domain.Jwk.{VerificationMethodRelation}
use midnight_did_rs.Domain.Methods.{VerificationMethod}
use midnight_did_rs.Domain.Services.{Service}
use midnight_did_rs.Method.Network.{MidnightNetwork}
use midnight_did_rs.Method.Hex.{ContractAddress}
use midnight_did_rs.Runtime.HexCheck.{SchnorrJubjubDigest, SchnorrJubjubSignature}
use midnight_did_rs.Runtime.Ledger.{DidLedgerSnapshot, LedgerService, MapMutation, SetMutation}
use midnight_did_rs.Runtime.Call.{DidContractCall}
use midnight_did_rs.Runtime.Call
use midnight_did_rs.Runtime.Backend.{BackendError, FinalizedTxData, resolver}
use midnight_did_rs.Runtime.Contract.{
  Contract, submit, read_snapshot, set_verification_method, set_verification_method_relation,
  set_schnorr_jubjub_verification_method, set_service, set_also_known_as,
}
use midnight_did_rs.Runtime.Contract
use midnight_did_rs.Api.Errors.{ApiError, ledger_utils_error}
use midnight_did_rs.Api.Subject.{normalize_bound_fragment_id_for}
use midnight_did_rs.Domain.Ledger.{BoundIdField, method_id, short_service_id, assert_absolute_uri}
use midnight_did_rs.Api.Mappers.{
  SchnorrJubjubVerificationMethod, ledger_verification_method_relation_for,
  verification_method_to_ledger, schnorr_jubjub_verification_method_to_ledger, service_to_ledger,
}
use midnight_did_rs.Api.MethodOperations.{
  VerificationMethodRelationMembership, verification_method_relation_memberships,
  remove_present_verification_method_relations, purge_verification_method_from_all_relations,
  add_verification_method, update_verification_method, remove_verification_method,
  add_schnorr_jubjub_verification_method, update_schnorr_jubjub_verification_method,
  remove_schnorr_jubjub_verification_method, verify_schnorr_jubjub_digest_signature,
  add_verification_method_relation, remove_verification_method_relation, map_backend_err,
  assert_verification_method_relation_absent, assert_verification_method_relation_present,
}
use midnight_did_rs.Api.Entries.{
  Externals, add_also_known_as, remove_also_known_as, add_service, update_service, remove_service,
  deactivate,
}

-- The operations with their arguments.
pub data Operation : Type 0 where
  add_method : VerificationMethod → Operation
  update_method : VerificationMethod → Operation
  remove_method : Text → Operation
  add_schnorr : SchnorrJubjubVerificationMethod → Operation
  update_schnorr : SchnorrJubjubVerificationMethod → Operation
  remove_schnorr : Text → Operation
  verify_digest : Text → SchnorrJubjubDigest → SchnorrJubjubSignature → Operation
  add_relation : VerificationMethodRelation → Text → Operation
  remove_relation : VerificationMethodRelation → Text → Operation
  add_a_service : Service → Operation
  update_a_service : Service → Operation
  remove_a_service : Text → Operation
  add_alias : Text → Operation
  remove_alias : Text → Operation
  deactivation : Operation

abbrev pub perform :
    (ext : Externals) (engine : Base64) {β : Type 0} (contract : Contract β)
    → Operation
    → Action β ApiError FinalizedTxData
perform ext engine contract (add_method vm) =
    add_verification_method ext.codec ext.hex contract engine vm
perform ext engine contract (update_method vm) =
    update_verification_method ext.codec ext.hex contract engine vm
perform ext engine contract (remove_method id) =
    remove_verification_method ext.codec ext.hex contract id
perform ext engine contract (add_schnorr vm) =
    add_schnorr_jubjub_verification_method ext.codec ext.hex contract vm
perform ext engine contract (update_schnorr vm) =
    update_schnorr_jubjub_verification_method ext.codec ext.hex contract vm
perform ext engine contract (remove_schnorr id) =
    remove_schnorr_jubjub_verification_method ext.codec ext.hex contract id
perform ext engine contract (verify_digest id digest signature) =
    verify_schnorr_jubjub_digest_signature ext.codec ext.hex contract id digest signature
perform ext engine contract (add_relation r id) =
    add_verification_method_relation ext.codec ext.hex contract r id
perform ext engine contract (remove_relation r id) =
    remove_verification_method_relation ext.codec ext.hex contract r id
perform ext engine contract (add_a_service s) = add_service ext contract s
perform ext engine contract (update_a_service s) = update_service ext contract s
perform ext engine contract (remove_a_service id) = remove_service ext contract id
perform ext engine contract (add_alias uri) = add_also_known_as ext contract uri
perform ext engine contract (remove_alias uri) = remove_also_known_as ext contract uri
perform ext engine contract deactivation = deactivate ext contract

-- The actions that fail, and those that keep the state.
abbrev pub Refuses : {σ A : Type 0} → Action σ ApiError A → Type 0
Refuses {σ} m = (s : σ) → (e : ApiError) × (m s ≡ (err e, s))

abbrev Keeps : {σ A : Type 0} → Action σ ApiError A → Type 0
Keeps {σ} m = (s : σ) → (m s).1 ≡ s

resume-Refuses :
    {σ A B : Type 0} (k : A → Action σ ApiError B) (out : Result ApiError A × σ) (s : σ)
    → out.1 ≡ s
    → ((a : A) → Refuses (k a))
    → (e : ApiError) × (resume k out ≡ (err e, s))
resume-Refuses k (ok a, t) s h r = let (e, f) = r a t in (e, f ∙ (λ i. (err e, h i)))
resume-Refuses k (err e, t) s h r = (e, λ i. (err e, h i))

>>=-Refuses :
    {σ A B : Type 0} (m : Action σ ApiError A) (k : A → Action σ ApiError B)
    → Keeps m
    → ((a : A) → Refuses (k a))
    → Refuses (m >>= k)
>>=-Refuses m k h r s = resume-Refuses k (m s) s (h s) r

done-Refuses :
    {σ A B : Type 0} (r : Result ApiError A) (k : A → Action σ ApiError B)
    → ((a : A) → Refuses (k a))
    → Refuses (done r >>= k)
done-Refuses r k h s = resume-Refuses k (r, s) s refl h

Refuses-Keeps : {σ A : Type 0} (m : Action σ ApiError A) → Refuses m → Keeps m
Refuses-Keeps m h s = let (e, f) = h s in ap (λ out. out.1) f

module _ (ext : Externals) (engine : Base64) (address : ContractAddress)
    (network : MidnightNetwork) where
  abbrev pub resolver_contract : Contract DidLedgerSnapshot
  resolver_contract = record { backend = resolver; address = address; network = network }

  submit-Refuses :
      (call : DidContractCall)
      → Refuses (map_action_err map_backend_err (submit ext.codec resolver_contract call))
  unfolding submit resolver
  submit-Refuses call s = (map_backend_err BackendError.read_only, refl)

  read-Keeps : Keeps (map_action_err map_backend_err (read_snapshot ext.codec resolver_contract))
  unfolding read_snapshot resolver
  read-Keeps s = refl

  remove_present-Keeps :
      (ms : List VerificationMethodRelationMembership) (id : Text)
      → Keeps
          (remove_present_verification_method_relations ext.codec ext.hex resolver_contract ms id)
  unfolding remove_present_verification_method_relations set_verification_method_relation
  remove_present-Keeps [] id s = refl
  remove_present-Keeps (e ∷ ms) id s = elim (Bool-cases e.member) [
    | inr f ↦ rw f (remove_present-Keeps ms id s)
    | inl t ↦
        let (reason, refused) =
          submit-Refuses
            (Call.set_verification_method_relation
              (ledger_verification_method_relation_for e.relation) id SetMutation.remove)
            s in
        rw (t, refused) refl
  ]

  purge-Keeps :
      (id : Text)
      → Keeps (purge_verification_method_from_all_relations ext.codec ext.hex resolver_contract id)
  unfolding purge_verification_method_from_all_relations read_snapshot resolver
  purge-Keeps id s = remove_present-Keeps (verification_method_relation_memberships s id) id s

  -- An operation whose call is made from a value that is computed first.
  prepared-Refuses :
      {A : Type 0} (r : Result ApiError A) (make : A → DidContractCall)
      → Refuses (
          done r >>= λ a.
          map_action_err map_backend_err (submit ext.codec resolver_contract (make a)))
  prepared-Refuses r make = done-Refuses r _ (λ a. submit-Refuses (make a))

  abbrev bound : Text → BoundIdField → Result ApiError Text
  bound id field = normalize_bound_fragment_id_for ext.hex resolver_contract id field

  purged-Refuses :
      (id : Text) (make : Text → DidContractCall)
      → Refuses (
          done (bound id method_id) >>= λ normalized.
          purge_verification_method_from_all_relations ext.codec ext.hex resolver_contract
            normalized
          >> map_action_err map_backend_err (submit ext.codec resolver_contract (make normalized)))
  purged-Refuses id make = done-Refuses (bound id method_id) _ (λ normalized.
      >>=-Refuses
        (purge_verification_method_from_all_relations ext.codec ext.hex resolver_contract
          normalized)
        _ (purge-Keeps normalized) (λ _. submit-Refuses (make normalized)))

  -- A change of a relation, behind the guard `check` on the state of the ledger.
  related-Refuses :
      (id : Text) (check : DidLedgerSnapshot → Text → Result ApiError (Unit {0}))
      (make : Text → DidContractCall)
      → Refuses (
          done (bound id method_id) >>= λ normalized.
          map_action_err map_backend_err (read_snapshot ext.codec resolver_contract) >>= λ state.
          done (check state normalized)
          >> map_action_err map_backend_err (submit ext.codec resolver_contract (make normalized)))
  related-Refuses id check make = done-Refuses (bound id method_id) _ (λ normalized.
      >>=-Refuses (map_action_err map_backend_err (read_snapshot ext.codec resolver_contract)) _
        read-Keeps
        (λ state. done-Refuses (check state normalized) _ (λ _. submit-Refuses (make normalized))))

  service_entry : Service → Result ApiError LedgerService
  service_entry s =
      service_to_ledger ext.hex resolver_contract ext.urls ext.json_strings ext.json_endpoint s

  alias_entry : Text → Result ApiError Text
  alias_entry uri =
      map_err ledger_utils_error (assert_absolute_uri ext.parses uri (some (codes "aliasUri")))

  -- On a contract over the read-only backend every one of the fifteen operations on methods,
  -- relations, services, aliases and the DID itself fails, and the backend stays as it was.
  pub perform-Refuses : (op : Operation) → Refuses (perform ext engine resolver_contract op)
  unfolding add_verification_method update_verification_method remove_verification_method
      add_schnorr_jubjub_verification_method update_schnorr_jubjub_verification_method
      remove_schnorr_jubjub_verification_method verify_schnorr_jubjub_digest_signature
      add_verification_method_relation remove_verification_method_relation add_service
      update_service remove_service add_also_known_as remove_also_known_as deactivate
      set_verification_method set_verification_method_relation
      set_schnorr_jubjub_verification_method set_service set_also_known_as
      Contract.remove_verification_method Contract.remove_schnorr_jubjub_verification_method
      Contract.verify_schnorr_jubjub_digest_signature Contract.remove_service Contract.deactivate
      service_entry alias_entry
  perform-Refuses (add_method vm) =
      prepared-Refuses (verification_method_to_ledger ext.hex resolver_contract engine vm)
        (λ m. Call.set_verification_method m MapMutation.insert)
  perform-Refuses (update_method vm) =
      prepared-Refuses (verification_method_to_ledger ext.hex resolver_contract engine vm)
        (λ m. Call.set_verification_method m MapMutation.update)
  perform-Refuses (remove_method id) = purged-Refuses id Call.remove_verification_method
  perform-Refuses (add_schnorr vm) =
      prepared-Refuses (schnorr_jubjub_verification_method_to_ledger ext.hex resolver_contract vm)
        (λ m. Call.set_schnorr_jubjub_verification_method m MapMutation.insert)
  perform-Refuses (update_schnorr vm) =
      prepared-Refuses (schnorr_jubjub_verification_method_to_ledger ext.hex resolver_contract vm)
        (λ m. Call.set_schnorr_jubjub_verification_method m MapMutation.update)
  perform-Refuses (remove_schnorr id) =
      purged-Refuses id Call.remove_schnorr_jubjub_verification_method
  perform-Refuses (verify_digest id digest signature) =
      prepared-Refuses (bound id method_id)
        (λ n. Call.verify_schnorr_jubjub_digest_signature n digest signature)
  perform-Refuses (add_relation r id) =
      related-Refuses id (λ state n. assert_verification_method_relation_absent state r n)
        (λ n.
          Call.set_verification_method_relation (ledger_verification_method_relation_for r) n
            SetMutation.insert)
  perform-Refuses (remove_relation r id) =
      related-Refuses id (λ state n. assert_verification_method_relation_present state r n)
        (λ n.
          Call.set_verification_method_relation (ledger_verification_method_relation_for r) n
            SetMutation.remove)
  perform-Refuses (add_a_service s) =
      prepared-Refuses (service_entry s) (λ l. Call.set_service l MapMutation.insert)
  perform-Refuses (update_a_service s) =
      prepared-Refuses (service_entry s) (λ l. Call.set_service l MapMutation.update)
  perform-Refuses (remove_a_service id) =
      prepared-Refuses (bound id short_service_id) Call.remove_service
  perform-Refuses (add_alias uri) =
      prepared-Refuses (alias_entry uri) (λ a. Call.set_also_known_as a SetMutation.insert)
  perform-Refuses (remove_alias uri) =
      prepared-Refuses (alias_entry uri) (λ a. Call.set_also_known_as a SetMutation.remove)
  perform-Refuses deactivation = submit-Refuses Call.deactivate
