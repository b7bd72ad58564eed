-- ===== src/Tests/Calls.antt =====
-- A serialiser of contract calls that does what `serde_json` promises.
use midnight_did_rs.Common.{
  ℕ, ◌≡◌, refl, Option, none, some, [], ◌∷◌, ◌==◌, if◌then◌else◌, Text, Result, ok, err, codes,
}
use midnight_did_rs.Domain.Codecs.{Bytes}
use midnight_did_rs.Runtime.Call.{DidContractCall, JsonCodec, IsJsonCodec}
use midnight_did_rs.Runtime.Call
use midnight_did_rs.Tests.Wire.{
  both, text, map_mutation, set_mutation, relation, method, schnorr, service, digest, signature,
}

put_call : DidContractCall → Bytes
put_call Call.read_ledger = 0 ∷ []
put_call (Call.rotate_controller_key k) = 1 ∷ text.put k []
put_call (Call.recover_controller_key k) = 2 ∷ text.put k []
put_call (Call.set_verification_method m mutation) =
    3 ∷ (both method map_mutation).put (m, mutation) []
put_call (Call.remove_verification_method id) = 4 ∷ text.put id []
put_call (Call.set_schnorr_jubjub_verification_method m mutation) =
    5 ∷ (both schnorr map_mutation).put (m, mutation) []
put_call (Call.remove_schnorr_jubjub_verification_method id) = 6 ∷ text.put id []
put_call (Call.verify_schnorr_jubjub_digest_signature id d s) =
    7 ∷ (both text (both digest signature)).put (id, (d, s)) []
put_call (Call.set_verification_method_relation r id mutation) =
    8 ∷ (both relation (both text set_mutation)).put (r, (id, mutation)) []
put_call (Call.set_service s mutation) = 9 ∷ (both service map_mutation).put (s, mutation) []
put_call (Call.remove_service id) = 10 ∷ text.put id []
put_call (Call.set_also_known_as alias mutation) =
    11 ∷ (both text set_mutation).put (alias, mutation) []
put_call Call.deactivate = 12 ∷ []

-- The call of what was read, with nothing behind it.
abbrev whole :
    {A : Type 0} → Option (A × Bytes) → (A → DidContractCall) → Result Text DidContractCall
whole none f = err (codes "malformed call")
whole (some (a, [])) f = ok (f a)
whole (some (a, b ∷ rest)) f = err (codes "trailing bytes")

abbrev choose : ℕ → Bytes → Result Text DidContractCall
choose tag rest =
    if tag == 0
    then ok Call.read_ledger
    else if tag == 1
    then whole (text.get rest) Call.rotate_controller_key
    else if tag == 2
    then whole (text.get rest) Call.recover_controller_key
    else if tag == 3
    then whole ((both method map_mutation).get rest) (λ p. Call.set_verification_method p.0 p.1)
    else if tag == 4
    then whole (text.get rest) Call.remove_verification_method
    else if tag == 5
    then whole ((both schnorr map_mutation).get rest)
        (λ p. Call.set_schnorr_jubjub_verification_method p.0 p.1)
    else if tag == 6
    then whole (text.get rest) Call.remove_schnorr_jubjub_verification_method
    else if tag == 7
    then whole ((both text (both digest signature)).get rest)
        (λ p. Call.verify_schnorr_jubjub_digest_signature p.0 p.1.0 p.1.1)
    else if tag == 8
    then whole ((both relation (both text set_mutation)).get rest)
        (λ p. Call.set_verification_method_relation p.0 p.1.0 p.1.1)
    else if tag == 9
    then whole ((both service map_mutation).get rest) (λ p. Call.set_service p.0 p.1)
    else if tag == 10
    then whole (text.get rest) Call.remove_service
    else if tag == 11
    then whole ((both text set_mutation).get rest) (λ p. Call.set_also_known_as p.0 p.1)
    else if tag == 12
    then ok Call.deactivate
    else err (codes "unknown call")

get_call : Bytes → Result Text DidContractCall
get_call [] = err (codes "malformed call")
get_call (tag ∷ rest) = choose tag rest

unfoldable pub codec : JsonCodec
unfolding put_call get_call
codec = record { to_vec = put_call; from_slice = get_call }

get_call-put_call : (call : DidContractCall) → get_call (put_call call) ≡ ok call
unfolding put_call get_call
get_call-put_call Call.read_ledger = refl
get_call-put_call (Call.rotate_controller_key k) = rw (text.get-put k []) refl
get_call-put_call (Call.recover_controller_key k) = rw (text.get-put k []) refl
get_call-put_call (Call.set_verification_method m mutation) =
    rw ((both method map_mutation).get-put (m, mutation) []) refl
get_call-put_call (Call.remove_verification_method id) = rw (text.get-put id []) refl
get_call-put_call (Call.set_schnorr_jubjub_verification_method m mutation) =
    rw ((both schnorr map_mutation).get-put (m, mutation) []) refl
get_call-put_call (Call.remove_schnorr_jubjub_verification_method id) = rw (text.get-put id []) refl
get_call-put_call (Call.verify_schnorr_jubjub_digest_signature id d s) =
    rw ((both text (both digest signature)).get-put (id, (d, s)) []) refl
get_call-put_call (Call.set_verification_method_relation r id mutation) =
    rw ((both relation (both text set_mutation)).get-put (r, (id, mutation)) []) refl
get_call-put_call (Call.set_service s mutation) =
    rw ((both service map_mutation).get-put (s, mutation) []) refl
get_call-put_call (Call.remove_service id) = rw (text.get-put id []) refl
get_call-put_call (Call.set_also_known_as alias mutation) =
    rw ((both text set_mutation).get-put (alias, mutation) []) refl
get_call-put_call Call.deactivate = refl

pub codec-IsJsonCodec : IsJsonCodec codec
unfolding codec
codec-IsJsonCodec = record { from_slice-to_vec = λ call _. get_call-put_call call }
