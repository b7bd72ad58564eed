-- ===== src/Tests/Ledgers.antt =====
-- The theorems on the recording and the read-only backend at concrete inputs.
use midnight_did_rs.Common.{
  ℕ, ◌<◌, ◌≡◌, ◌↔◌, refl, [], ◌∷◌, ◌++◌, codes, replicate, ok, trim, starts_with, split_once,
}
use midnight_did_rs.Domain.Codecs.{Bytes}
use midnight_did_rs.Domain.Jwk.{authentication}
use midnight_did_rs.Domain.Services.{Service, one, uri}
use midnight_did_rs.Domain.Ledger.{method_id, normalize_bound_fragment_id}
use midnight_did_rs.Domain.Names.{has_uri_scheme}
use midnight_did_rs.Api.Subject.{normalize_bound_fragment_id_for}
use midnight_did_rs.Method.Network.{undeployed}
use midnight_did_rs.Runtime.HexCheck.{JubjubPointHex, new_point, jubjub_coordinate_bytes}
use midnight_did_rs.Runtime.HexCheck.Accepted.{IsHexOf, new_point_iff}
use midnight_did_rs.Runtime.Ledger.{
  DidLedgerSnapshot, default_snapshot, relation_contains, LedgerVerificationMethodRelation,
}
use midnight_did_rs.Runtime.Call.{DidContractCall, read_ledger}
use midnight_did_rs.Runtime.Call
use midnight_did_rs.Runtime.Backend.{
  BuiltTx, FinalizedTxData, RecordingBackend, recording, new_recording, push_call, encode_call,
  decode_call, set_snapshot,
}
use midnight_did_rs.Runtime.Backend.Recording.{
  Reach, here, next, Step, Extends, Reach-Extends, submit_tx_heights,
}
use midnight_did_rs.Runtime.Backend.Recording
use midnight_did_rs.Api.Mappers.{ledger_verification_method_relation_for}
use midnight_did_rs.Api.MethodOperations.{
  remove_verification_method, add_verification_method_relation, remove_verification_method_relation,
}
use midnight_did_rs.Api.MethodOperations.Purge.{
  removals, recorded, remove_verification_method-recorded,
}
use midnight_did_rs.Api.MethodOperations.Guards.{Guarded, verification_method_relation-Guarded}
use midnight_did_rs.Api.Entries.{Externals}
use midnight_did_rs.Api.Did.{DidDocumentPatch, apply_patch}
use midnight_did_rs.Api.Did.Patch.{Follows, plan, apply_patch-Follows}
use midnight_did_rs.Api.ReadOnly.{add_alias, perform, Refuses, resolver_contract, perform-Refuses}
use midnight_did_rs.Tests.Base64.{base64}
use midnight_did_rs.Tests.Documents.{no_urls}
use midnight_did_rs.Tests.Hex.{hex}
use midnight_did_rs.Tests.Calls.{codec, codec-IsJsonCodec}
use midnight_did_rs.Tests.Keys.{ledger}

abbrev pub same : Bytes → Bytes
same bytes = bytes

-- A ledger where `#key-1` is in two relations.
abbrev state : DidLedgerSnapshot
state = record default_snapshot {
  authentication_relation = codes "#key-1" ∷ codes "#key-2" ∷ [];
  capability_delegation_relation = codes "#key-1" ∷ [];
}

abbrev stocked : RecordingBackend
stocked = record { calls = []; snapshot = state }

abbrev deactivation : BuiltTx
deactivation = record { bytes = encode_call codec Call.deactivate }

key_bound :
    normalize_bound_fragment_id_for hex ledger (codes "key-1") method_id ≡ ok (codes "#key-1")
unfolding normalize_bound_fragment_id_for normalize_bound_fragment_id trim starts_with
    has_uri_scheme split_once
key_bound = refl

remove_verification_method-recorded_example :
    (tx : FinalizedTxData) × (remove_verification_method codec hex ledger (codes "key-1") stocked
      ≡ (
        ok tx,
        recorded stocked (
            read_ledger
            ∷ (removals state (codes "#key-1")
                ++ Call.remove_verification_method (codes "#key-1") ∷ [])),
      ))
remove_verification_method-recorded_example =
    remove_verification_method-recorded codec same same codec-IsJsonCodec hex ledger.address
      undeployed (codes "key-1") (codes "#key-1") stocked key_bound

verification_method_relation-Guarded_example :
    Guarded
      (relation_contains state LedgerVerificationMethodRelation.authentication (codes "#key-1"))
      authentication
      (codes "#key-1")
      stocked
      (add_verification_method_relation codec hex ledger authentication (codes "key-1") stocked)
      (remove_verification_method_relation codec hex ledger authentication (codes "key-1") stocked)
unfolding ledger_verification_method_relation_for
verification_method_relation-Guarded_example =
    verification_method_relation-Guarded codec same same codec-IsJsonCodec hex ledger.address
      undeployed authentication (codes "key-1") (codes "#key-1") stocked key_bound

-- Two submissions, a reading and a new snapshot.
used :
    Reach codec same same new_recording
      (set_snapshot state (push_call read_ledger (push_call Call.deactivate new_recording)))
unfolding recording codec encode_call
used =
    next
      (next (next here (Recording.submit deactivation new_recording))
        (Recording.read (push_call Call.deactivate new_recording)))
      (Recording.set state _)

Reach-Extends_example :
    Extends codec same same new_recording
      (set_snapshot state (push_call read_ledger (push_call Call.deactivate new_recording)))
Reach-Extends_example = Reach-Extends codec same same used

abbrev tx : ℕ → FinalizedTxData
tx height = record { tx_hash = 12 ∷ []; block_height = height }

submit_tx_heights_example : (tx 1).block_height < (tx 3).block_height
unfolding recording codec encode_call decode_call new_recording
submit_tx_heights_example =
    submit_tx_heights codec same same deactivation deactivation (tx 1) (tx 3) new_recording
      (push_call read_ledger (push_call Call.deactivate new_recording)) refl
      (next here (Recording.read (push_call Call.deactivate new_recording))) refl

abbrev point : JubjubPointHex
point = record { x = replicate 64 b'a'; y = replicate 64 b'0' }

new_point_iff_example : (new_point point ≡ ok point) ↔ (
    (point ≡ point)
    × IsHexOf jubjub_coordinate_bytes point.x
    × IsHexOf jubjub_coordinate_bytes point.y)
new_point_iff_example = new_point_iff point point

abbrev pub externals : Externals
externals = record {
  hex = hex;
  codec = codec;
  urls = no_urls;
  parses = λ t. starts_with t (codes "https:");
  json_strings = λ ts. [];
  json_endpoint = λ e. codes "{}";
}

abbrev a_service : Service
a_service = record {
  id = codes "#files";
  type_ = one (codes "Files");
  service_endpoint = uri (codes "https://files");
}

-- The second alias is no URI, so the service is not reached.
abbrev patch : DidDocumentPatch
patch = record {
  also_known_as_added = codes "https://alice" ∷ codes "alice" ∷ [];
  also_known_as_removed = [];
  services_added = a_service ∷ [];
  services_updated = [];
  services_removed = codes "#old" ∷ [];
}

apply_patch-Follows_example :
    Follows
      (plan externals same same ledger.address undeployed patch)
      0
      (apply_patch externals ledger patch new_recording)
      new_recording
apply_patch-Follows_example =
    apply_patch-Follows externals same same ledger.address undeployed codec-IsJsonCodec patch
      new_recording

perform-Refuses_example : Refuses (
    perform externals base64
      (resolver_contract externals base64 ledger.address undeployed)
      (add_alias (codes "https://alice")))
perform-Refuses_example =
    perform-Refuses externals base64 ledger.address undeployed (add_alias (codes "https://alice"))
