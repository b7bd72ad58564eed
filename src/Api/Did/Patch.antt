-- ===== src/Api/Did/Patch.antt =====
-- `apply_patch` on the recording backend, against the plan of its calls.
use midnight_did_rs.Common.{
  ℕ, suc, ◌≡◌, refl, subst, arith, List, [], ◌∷◌, ◌++◌, map, length, length-append, Text, codes,
  some, Result, ok, err, ◌>>=◌, map_err,
}
use midnight_did_rs.Common.Actions.{Action, resume, map_action_err}
use midnight_did_rs.Domain.Codecs.{Bytes}
use midnight_did_rs.Domain.Services.{Service}
use midnight_did_rs.Domain.Ledger.{assert_absolute_uri, short_service_id}
use midnight_did_rs.Method.Network.{MidnightNetwork}
use midnight_did_rs.Method.Hex.{ContractAddress}
use midnight_did_rs.Runtime.Ledger.{MapMutation, SetMutation}
use midnight_did_rs.Runtime.Call.{DidContractCall, IsJsonCodec, IsGated}
use midnight_did_rs.Runtime.Call
use midnight_did_rs.Runtime.Backend.{RecordingBackend, FinalizedTxData, push_call}
use midnight_did_rs.Runtime.Contract.{Contract, submit}
use midnight_did_rs.Runtime.Contract
use midnight_did_rs.Api.Errors.{ApiError, ledger_utils_error}
use midnight_did_rs.Api.Subject.{normalize_bound_fragment_id_for}
use midnight_did_rs.Api.Mappers.{service_to_ledger}
use midnight_did_rs.Api.MethodOperations.{map_backend_err}
use midnight_did_rs.Api.MethodOperations.Purge.{on_recording, submitted}
use midnight_did_rs.Api.Entries.{
  Externals, add_also_known_as, remove_also_known_as, add_service, update_service, remove_service,
}
use midnight_did_rs.Api.Did.{DidDocumentPatch, each, apply_patch}

-- What came of some planned calls, from `n` results and the backend `b` on: the calls are recorded
-- in their order up to the first one that could not be made, whose error is returned; if all can
-- be made, each has its result.
abbrev pub Follows :
    List (Result ApiError DidContractCall)
    → ℕ
    → Result ApiError (List FinalizedTxData) × RecordingBackend
    → RecordingBackend
    → Type 0
Follows [] n out b = (txs : List FinalizedTxData) × (out ≡ (ok txs, b)) × (length txs ≡ n)
Follows (err e ∷ plans) n out b = out ≡ (err e, b)
Follows (ok call ∷ plans) n out b = Follows plans (suc n) out (push_call call b)

-- One planned call.
abbrev Submits :
    Result ApiError DidContractCall
    → Result ApiError FinalizedTxData × RecordingBackend
    → RecordingBackend
    → Type 0
Submits (ok call) out b = (tx : FinalizedTxData) × (out ≡ (ok tx, push_call call b))
Submits (err e) out b = out ≡ (err e, b)

Follows-chain :
    (first second : List (Result ApiError DidContractCall)) (n : ℕ)
    (k : List FinalizedTxData → Action RecordingBackend ApiError (List FinalizedTxData))
    (out : Result ApiError (List FinalizedTxData) × RecordingBackend) (b : RecordingBackend)
    → Follows first n out b
    → ((txs : List FinalizedTxData) (c : RecordingBackend)
        → Follows second (length txs) (k txs c) c)
    → Follows (first ++ second) n (resume k out) b
Follows-chain [] second n k out b (txs, e, l) h =
    rw e (subst (λ (m : ℕ). Follows second m (k txs b) b) l (h txs b))
Follows-chain (err e ∷ first) second n k out b f h = rw f refl
Follows-chain (ok call ∷ first) second n k out b f h =
    Follows-chain first second (suc n) k out (push_call call b) f h

each-Follows :
    {A : Type 0} (op : A → Action RecordingBackend ApiError FinalizedTxData)
    (plan : A → Result ApiError DidContractCall)
    → ((a : A) (b : RecordingBackend) → Submits (plan a) (op a b) b)
    → (items : List A) (results : List FinalizedTxData) (b : RecordingBackend)
    → Follows (map plan items) (length results) (each op items results b) b
unfolding each
each-Follows op plan h [] results b = (results, refl, refl)
each-Follows op plan h (a ∷ items) results b =
    made (each-Follows op plan h items) (plan a) (op a b) (h a b)
  where
    made :
        ((txs : List FinalizedTxData) (c : RecordingBackend)
          → Follows (map plan items) (length txs) (each op items txs c) c)
        → (p : Result ApiError DidContractCall)
          (out : Result ApiError FinalizedTxData × RecordingBackend)
        → Submits p out b
        → Follows
            (p ∷ map plan items)
            (length results)
            (resume (λ tx. each op items (results ++ tx ∷ [])) out)
            b
    made rest (err e) out s = rw s refl
    made rest (ok call) out (tx, s) = rw s (
        subst
          (λ (m : ℕ).
            Follows (map plan items) m (each op items (results ++ tx ∷ []) (push_call call b))
              (push_call call b))
          (omega (arith, length-append results (tx ∷ [])))
          (rest (results ++ tx ∷ []) (push_call call b)))

module _ (ext : Externals) (blake2b : Bytes → Bytes) (encode_hex : Bytes → Text)
    (address : ContractAddress) (network : MidnightNetwork) where
  abbrev recording_contract : Contract RecordingBackend
  recording_contract = on_recording ext.codec blake2b encode_hex address network

  -- The calls that the operations of a patch stand for.
  abbrev pub alias_call : SetMutation → Text → Result ApiError DidContractCall
  alias_call mutation uri = do
    alias ←
        map_err ledger_utils_error (assert_absolute_uri ext.parses uri (some (codes "aliasUri")))
    ok (Call.set_also_known_as alias mutation)

  abbrev pub service_call : MapMutation → Service → Result ApiError DidContractCall
  service_call mutation s = do
    ledger ←
        service_to_ledger ext.hex recording_contract ext.urls ext.json_strings ext.json_endpoint s
    ok (Call.set_service ledger mutation)

  abbrev pub service_removal : Text → Result ApiError DidContractCall
  service_removal id = do
    normalized ← normalize_bound_fragment_id_for ext.hex recording_contract id short_service_id
    ok (Call.remove_service normalized)

  -- Aliases before services, and additions before updates and removals.
  abbrev pub plan : DidDocumentPatch → List (Result ApiError DidContractCall)
  plan patch =
      map (alias_call SetMutation.insert) patch.also_known_as_added
      ++ (map (alias_call SetMutation.remove) patch.also_known_as_removed
          ++ (map (service_call MapMutation.insert) patch.services_added
              ++ (map (service_call MapMutation.update) patch.services_updated
                  ++ map service_removal patch.services_removed)))

  module _ (lawful : IsJsonCodec ext.codec) where
    -- A call whose argument was computed first.
    prepared :
        {A : Type 0} (r : Result ApiError A) (make : A → DidContractCall) (b : RecordingBackend)
        → ((a : A) → IsGated (make a))
        → Submits
            (r >>= λ a. ok (make a))
            (resume
              (λ a. map_action_err map_backend_err (submit ext.codec recording_contract (make a)))
              (r, b))
            b
    prepared (err e) make b g = refl
    prepared (ok a) make b g =
        submitted ext.codec blake2b encode_hex lawful ext.hex address network (make a) b (g a)

    -- With a serialiser that reads back what it writes, a patch on the recording backend follows
    -- its plan, the additions and removals of aliases and then the additions, updates and removals
    -- of services: every call is recorded in its order up to the first one whose argument is
    -- refused, that refusal is returned, and nothing behind it is recorded; where no argument is
    -- refused the patch succeeds with one result for each operation.
    pub apply_patch-Follows :
        (patch : DidDocumentPatch) (b : RecordingBackend)
        → Follows (plan patch) 0 (apply_patch ext recording_contract patch b) b
    unfolding apply_patch add_also_known_as remove_also_known_as add_service update_service
        remove_service Contract.set_also_known_as Contract.set_service Contract.remove_service
    apply_patch-Follows patch b =
        let added =
          each-Follows (add_also_known_as ext recording_contract) (alias_call SetMutation.insert)
            (λ uri c. prepared _ _ c (λ _. tt)) in
        let removed =
          each-Follows (remove_also_known_as ext recording_contract) (alias_call SetMutation.remove)
            (λ uri c. prepared _ _ c (λ _. tt)) in
        let new_services =
          each-Follows (add_service ext recording_contract) (service_call MapMutation.insert)
            (λ s c. prepared _ _ c (λ _. tt)) in
        let updated =
          each-Follows (update_service ext recording_contract) (service_call MapMutation.update)
            (λ s c. prepared _ _ c (λ _. tt)) in
        let dropped =
          each-Follows (remove_service ext recording_contract) service_removal
            (λ id c. prepared _ _ c (λ _. tt)) in
        Follows-chain (map (alias_call SetMutation.insert) patch.also_known_as_added) _ 0 _ _ b
          (added patch.also_known_as_added [] b)
          (λ r1 c1.
            Follows-chain (map (alias_call SetMutation.remove) patch.also_known_as_removed) _ _ _ _
              c1 (removed patch.also_known_as_removed r1 c1)
              (λ r2 c2.
                Follows-chain (map (service_call MapMutation.insert) patch.services_added) _ _ _ _
                  c2 (new_services patch.services_added r2 c2)
                  (λ r3 c3.
                    Follows-chain (map (service_call MapMutation.update) patch.services_updated) _ _
                      _ _ c3 (updated patch.services_updated r3 c3)
                      (λ r4 c4. dropped patch.services_removed r4 c4))))
