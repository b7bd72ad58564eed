-- ===== src/Api/PrivateState/Promotion.antt =====
-- What the recovery of a pending key leaves in the store, for every store that keeps its slots
-- apart.
use midnight_did_rs.Common.{
  ◌≡◌, refl, sym, ◌∙◌, ◌⊎◌, inl, inr, Bool, true, false, Option, none, some, Result, ok, err,
}
use midnight_did_rs.Api.Errors.{ApiError}
use midnight_did_rs.Common.Actions.{resume, ◌>>◌, done}
use midnight_did_rs.Api.PrivateState.{
  active, pending, DidPrivateState, PrivateStateError, contract_address_not_set, backend,
  PrivateStateStore, restored, stored, found_state, restore_private_state, require_private_state,
  save_private_state, clear_pending_controller_private_state,
  recover_pending_controller_private_state,
}
use midnight_did_rs.Api.PrivateState.Memory.{Slots}
use midnight_did_rs.Api.PrivateState.Memory.Answers.{IsStore, Leaves, Wrote, Got}

-- The key that was pending is active and nothing is pending; or, where a step failed, the
-- active key is the one it was, or the key that was pending is still there, in either slot.
abbrev pub Recovered : Bool → Result ApiError DidPrivateState → Slots → Slots → Type 0
Recovered finalized (ok key) before after =
    (finalized ≡ true)
    × (before pending ≡ some key)
    × (after active ≡ some key)
    × (after pending ≡ none)
Recovered finalized (err e) before after =
    (after active ≡ before active)
    ⊎ ((finalized ≡ true) × ((after pending ≡ before pending) ⊎ (after active ≡ before pending)))

module _ {σ : Type 0} (store : PrivateStateStore σ) (lawful : IsStore store) where
  clear_case :
      (key : DidPrivateState) (before now : Slots)
      → before pending ≡ some key
      → now active ≡ some key
      → (p : Result PrivateStateError (Unit {0}) × σ) → Leaves pending now (lawful.contents p.1)
      → Wrote pending none p.0 (lawful.contents p.1)
      → let (r, after) = resume (λ _. done (ok key)) (stored p.0, p.1) in
        Recovered true r before (lawful.contents after)
  unfolding stored
  clear_case key before now hp ha (ok _, s) l w = (refl, hp, l ∙ ha, w)
  clear_case key before now hp ha (err e, s) l w = inr (refl, inr (l ∙ ha ∙ sym hp))

  save_case :
      (key : DidPrivateState) (before now : Slots)
      → before pending ≡ some key
      → now pending ≡ before pending
      → (p : Result PrivateStateError (Unit {0}) × σ) → Leaves active now (lawful.contents p.1)
      → Wrote active (some key) p.0 (lawful.contents p.1)
      → let (r, after) =
          resume
            (λ _. clear_pending_controller_private_state store >> done (ok key))
            (stored p.0, p.1) in
        Recovered true r before (lawful.contents after)
  unfolding stored clear_pending_controller_private_state
  save_case key before now hp same (ok _, s) l w =
      let (l2, w2) = lawful.remove_lem pending s in
      clear_case key before (lawful.contents s) hp w (store.remove pending s) l2 w2
  save_case key before now hp same (err e, s) l w = inr (refl, inl (l ∙ same))

  found_case :
      (before : Slots) (s : σ)
      → Leaves pending before (lawful.contents s)
      → (r : Result PrivateStateError (Option DidPrivateState))
      → Got pending r before (lawful.contents s)
      → let (result, after) =
          resume
            (λ key.
              save_private_state store key active
              >> (clear_pending_controller_private_state store >> done (ok key)))
            (resume found_state (restored r, s)) in
        Recovered true result before (lawful.contents after)
  unfolding restored save_private_state found_state
  found_case before s l (ok (some key)) (found, same) =
      let (l2, w2) = lawful.set_lem active key s in
      save_case key before (lawful.contents s) (sym found) same (store.set active key s) l2 w2
  found_case before s l (ok none) g = inl l
  found_case before s l (err contract_address_not_set) g = inl l
  found_case before s l (err (backend e)) g = inl l

  -- For every store whose calls touch no slot but the one that they name and do to it, where they
  -- succeed, what the trait documents, recovering a pending key succeeds only if the caller
  -- confirms that the rotation is final, and then the key that was pending is returned, is active,
  -- and is pending no more. A failure leaves the active key, or, only where the caller confirmed,
  -- leaves the key that was pending in one of the two slots.
  pub recover_pending_controller_private_state_outcome :
      (rotation_finalized : Bool) (s : σ)
      → let (r, after) = recover_pending_controller_private_state store rotation_finalized s in
        Recovered rotation_finalized r (lawful.contents s) (lawful.contents after)
  unfolding recover_pending_controller_private_state require_private_state restore_private_state
  recover_pending_controller_private_state_outcome false s = inl refl
  recover_pending_controller_private_state_outcome true s =
      let (l, g) = lawful.get_lem pending s in
      found_case (lawful.contents s) (store.get pending s).1 l (store.get pending s).0 g
