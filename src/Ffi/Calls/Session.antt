-- ===== src/Ffi/Calls/Session.antt =====
-- Sequences of calls on one handle.
use midnight_did_rs.Common.{
  ◌≡◌, refl, sym, ◌∙◌, subst, false, Option, none, some, Text, codes, Result, ok, err,
}
use midnight_did_rs.Common.Actions.{Action, resume, ◌>>=◌, done, map_action_err}
use midnight_did_rs.Domain.Codecs.{Bytes}
use midnight_did_rs.Method.Hex.{ContractAddress}
use midnight_did_rs.Runtime.Backend.{RecordingBackend, FinalizedTxData, BackendError}
use midnight_did_rs.Runtime.Contract.{Contract}
use midnight_did_rs.Runtime.Contract
use midnight_did_rs.Api.PrivateState.{
  active, pending, DidPrivateState, bind_private_state_provider, init_private_state,
  restore_private_state, restored, initialized,
}
use midnight_did_rs.Api.PrivateState.Memory.{
  Slots, InMemoryInner, in_memory, write, check_address, new,
}
use midnight_did_rs.Api.Controller.InMemory.{lenient, Settled, settle, rotate_controller_key-settle}
use midnight_did_rs.Api.Controller
use midnight_did_rs.Api.Did
use midnight_did_rs.Api.Errors.{ApiError}
use midnight_did_rs.Api.Entries.{Externals}
use midnight_did_rs.Api.Resolution.State.{Crates}
use midnight_did_rs.Ffi.Errors.{FlatError, flat_error, decode_hex_32}
use midnight_did_rs.Ffi.Calls.{
  Handle, new_handle, Response, deployed, create_did, rotate_controller_key, recover_controller_key,
  resolve_did, deactivate,
}

-- The five calls with their arguments.
pub data Request : Type 0 where
  creation : Text → Text → Request
  rotation : Text → Text → Text → Request
  recovery : Text → Text → Text → Request
  reading : Text → Request
  deactivation : Text → Request

-- The store needs no address, and no key is pending.
abbrev pub Kept : Handle → Type 0
Kept h = (h.0.require_address ≡ false) × (h.0.slots pending ≡ none)

module _ (ext : Externals) (crates : Crates) (blake2b : Bytes → Bytes) (encode_hex : Bytes → Text)
    (to_json : Response → Result Text Text) (address : ContractAddress) where
  abbrev pub serve : Request → Action Handle FlatError Text
  serve (creation seed pk) = create_did ext crates blake2b encode_hex to_json address seed pk
  serve (rotation did sk pk) =
      rotate_controller_key ext crates blake2b encode_hex to_json address did sk pk
  serve (recovery did sk pk) =
      recover_controller_key ext crates blake2b encode_hex to_json address did sk pk
  serve (reading did) = resolve_did ext crates blake2b encode_hex to_json address did
  serve (deactivation did) = deactivate ext crates blake2b encode_hex to_json address did

  -- The handles that some calls lead to.
  pub data Session : Handle → Type 0 where
    start : Session new_handle
    call : {h : Handle} → Session h → (request : Request) → Session (serve request h).1

  -- A call that keeps the handle whatever it returns.
  abbrev Preserves : {A : Type 0} → Action Handle FlatError A → Type 0
  Preserves m = (h : Handle) → Kept h → Kept (m h).1

  resume-Kept :
      {A B : Type 0} (k : A → Action Handle FlatError B) (out : Result FlatError A × Handle)
      → Kept out.1
      → ((a : A) → Preserves (k a))
      → Kept (resume k out).1
  resume-Kept k (ok a, h) kept p = p a h kept
  resume-Kept k (err e, h) kept p = kept

  done-Kept :
      {A B : Type 0} (r : Result FlatError A) (k : A → Action Handle FlatError B)
      → ((a : A) → Preserves (k a))
      → Preserves (done r >>= k)
  done-Kept r k p h kept = resume-Kept k (r, h) kept p

  settle-Kept :
      (next : DidPrivateState) (a : Option Text) (slots : Slots)
      (out : Result BackendError FinalizedTxData × RecordingBackend)
      → Kept (settle next a slots out).1
  unfolding write
  settle-Kept next a slots (ok tx, b) = (refl, refl)
  settle-Kept next a slots (err e, b) = (refl, refl)

  -- The store of a handle that is kept is a lenient one.
  pub lenient_store :
      (s : InMemoryInner) → s.require_address ≡ false → s ≡ lenient s.contract_address s.slots
  lenient_store s h i = record s { require_address = h i }

  abbrev handle_contract : Contract RecordingBackend
  handle_contract = deployed ext crates blake2b encode_hex to_json address

  rotated-Kept :
      (secret public : Bytes)
      → Preserves (
          map_action_err flat_error
            (Controller.rotate_controller_key ext.codec handle_contract in_memory secret public))
        × Preserves (
            map_action_err flat_error
              (Controller.recover_controller_key ext.codec handle_contract in_memory secret public))
  rotated-Kept secret public = (
    (λ h kept.
        let (s, b) = h in
        let settled =
          (rotate_controller_key-settle ext.codec handle_contract secret public s.contract_address
            s.slots b).0 in
        moved (Controller.rotate_controller_key ext.codec handle_contract in_memory secret public) h
          (Contract.rotate_controller_key ext.codec handle_contract public b) kept settled),
    (λ h kept.
        let (s, b) = h in
        let settled =
          (rotate_controller_key-settle ext.codec handle_contract secret public s.contract_address
            s.slots b).1 in
        moved (Controller.recover_controller_key ext.codec handle_contract in_memory secret public)
          h (Contract.recover_controller_key ext.codec handle_contract public b) kept settled),
  )
    where
      moved :
          (m : Action Handle ApiError FinalizedTxData) (h : Handle)
          (out : Result BackendError FinalizedTxData × RecordingBackend)
          → Kept h
          → m (lenient h.0.contract_address h.0.slots, h.1)
            ≡ settle (record { secret_key = secret }) h.0.contract_address h.0.slots out
          → Kept (m h).1
      moved m (s, b) out (q, p) e =
          subst (λ (t : InMemoryInner). Kept (m (t, b)).1) (sym (lenient_store s q))
            (subst (λ (o : Settled RecordingBackend). Kept o.1) (sym e)
              (settle-Kept (record { secret_key = secret }) s.contract_address s.slots out))

  created-Kept :
      (secret : Bytes) (a : Option Text) (slots : Slots)
      → let after = (Did.create_did ext handle_contract in_memory secret (lenient a slots)).1 in
        (after.require_address ≡ false) × (after.slots pending ≡ slots pending)
  unfolding Did.create_did bind_private_state_provider init_private_state restore_private_state
      restored initialized in_memory check_address write
  created-Kept secret a slots = by_active (slots active) refl
    where
      by_active :
          (o : Option DidPrivateState)
          → slots active ≡ o
          → let after = (Did.create_did ext handle_contract in_memory secret (lenient a slots)).1 in
            (after.require_address ≡ false) × (after.slots pending ≡ slots pending)
      by_active none e = rw e (refl, refl)
      by_active (some existing) e = rw e (refl, refl)

  on_store-Kept :
      (secret : Bytes) (s : InMemoryInner) (b : RecordingBackend)
      → Kept (s, b)
      → Kept ((Did.create_did ext handle_contract in_memory secret s).1, b)
  on_store-Kept secret s b (q, p) =
      let (q1, p1) = created-Kept secret s.contract_address s.slots in
      subst
        (λ (t : InMemoryInner). Kept ((Did.create_did ext handle_contract in_memory secret t).1, b))
        (sym (lenient_store s q)) (q1, p1 ∙ p)

  serve-Kept : (request : Request) → Preserves (serve request)
  unfolding create_did rotate_controller_key recover_controller_key resolve_did deactivate
  serve-Kept (creation seed pk) =
      done-Kept (decode_hex_32 crates.decode_hex seed (codes "seed_hex")) _ (λ secret.
        done-Kept (decode_hex_32 crates.decode_hex pk (codes "controller_public_key_hex")) _
          (λ _ h kept. resume-Kept _ _ (on_store-Kept secret h.0 h.1 kept) (λ _ after k. k)))
  serve-Kept (rotation did sk pk) =
      done-Kept (decode_hex_32 crates.decode_hex sk (codes "new_secret_key_hex")) _ (λ secret.
        done-Kept (decode_hex_32 crates.decode_hex pk (codes "new_controller_public_key_hex")) _
          (λ public h kept.
            resume-Kept _ _ ((rotated-Kept secret public).0 h kept) (λ _ after k. k)))
  serve-Kept (recovery did sk pk) =
      done-Kept (decode_hex_32 crates.decode_hex sk (codes "new_secret_key_hex")) _ (λ secret.
        done-Kept (decode_hex_32 crates.decode_hex pk (codes "new_controller_public_key_hex")) _
          (λ public h kept.
            resume-Kept _ _ ((rotated-Kept secret public).1 h kept) (λ _ after k. k)))
  serve-Kept (reading did) = λ h kept. resume-Kept _ _ kept (λ _ after k. k)
  serve-Kept (deactivation did) = λ h kept. resume-Kept _ _ kept (λ _ after k. k)

  -- Whatever calls a foreign language makes on a handle, in any order, with any arguments and
  -- whether they succeed or fail: the store of the handle still needs no address, and no
  -- controller key is left pending.
  pub Session-Kept : {h : Handle} → Session h → Kept h
  unfolding new_handle new
  Session-Kept start = (refl, refl)
  Session-Kept (call s request) = serve-Kept request _ (Session-Kept s)
