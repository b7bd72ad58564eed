-- ===== src/Method/Offchain/Projection/Selected.antt =====
-- The ids that a flag selects, and the optional list that shows some values.
use midnight_did_rs.Common.{
  ◌≡◌, refl, ap, ◌∙◌, Bool, true, false, Bool-cases, inl, inr, Option, none, some, List, [], ◌∷◌,
  Text,
}
use midnight_did_rs.Method.Offchain.Keys.{OffchainVerificationRelationships}
use midnight_did_rs.Method.Offchain.State.{OffchainVerificationMethod}
use midnight_did_rs.Method.Offchain.Projection.{maybe_some, ids_with}

-- The ids of the flagged methods, in the order of the methods.
pub data Selected (flag : OffchainVerificationRelationships → Bool)
    : List OffchainVerificationMethod → List Text → Type 0 where
  nothing : Selected flag [] []
  take :
      {m : OffchainVerificationMethod} {ms : List OffchainVerificationMethod} {ids : List Text}
      → flag m.relationships ≡ true
      → Selected flag ms ids
      → Selected flag (m ∷ ms) (m.id ∷ ids)
  skip :
      {m : OffchainVerificationMethod} {ms : List OffchainVerificationMethod} {ids : List Text}
      → flag m.relationships ≡ false
      → Selected flag ms ids
      → Selected flag (m ∷ ms) ids

-- A list is shown as it is, unless it is empty.
pub data Shown {T : Type 0} : List T → Option (List T) → Type 0 where
  absent : Shown [] none
  present : (v : T) (values : List T) → Shown (v ∷ values) (some (v ∷ values))

pub Shown-maybe_some : {T : Type 0} (values : List T) → Shown values (maybe_some values)
unfolding maybe_some
Shown-maybe_some [] = absent
Shown-maybe_some (v ∷ values) = present v values

pub maybe_some-of_Shown :
    {T : Type 0} {values : List T} {o : Option (List T)} → Shown values o → o ≡ maybe_some values
unfolding maybe_some
maybe_some-of_Shown absent = refl
maybe_some-of_Shown (present v values) = refl

module _ (flag : OffchainVerificationRelationships → Bool) where
  Selected-ids_with : (ms : List OffchainVerificationMethod) → Selected flag ms (ids_with flag ms)
  Selected-ids_with [] = nothing
  Selected-ids_with (m ∷ ms) = elim (Bool-cases (flag m.relationships)) [
    | inl on ↦ rw on (take on (Selected-ids_with ms))
    | inr off ↦ rw off (skip off (Selected-ids_with ms))
  ]

  ids_with-of_Selected :
      {ms : List OffchainVerificationMethod} {ids : List Text}
      → Selected flag ms ids
      → ids ≡ ids_with flag ms
  ids_with-of_Selected nothing = refl
  ids_with-of_Selected (take {m} on s) = rw on (ap (λ t. m.id ∷ t) (ids_with-of_Selected s))
  ids_with-of_Selected (skip off s) = rw off (ids_with-of_Selected s)

  -- The relation lists the flagged ids.
  abbrev pub Lists : List OffchainVerificationMethod → Option (List Text) → Type 0
  Lists ms relation = (ids : List Text) × Selected flag ms ids × Shown ids relation

  pub Lists-maybe_some :
      (ms : List OffchainVerificationMethod) → Lists ms (maybe_some (ids_with flag ms))
  Lists-maybe_some ms =
      (ids_with flag ms, Selected-ids_with ms, Shown-maybe_some (ids_with flag ms))

  pub maybe_some-of_Lists :
      (ms : List OffchainVerificationMethod) (relation : Option (List Text))
      → Lists ms relation
      → relation ≡ maybe_some (ids_with flag ms)
  maybe_some-of_Lists ms relation (ids, s, o) =
      maybe_some-of_Shown o ∙ ap (λ t. maybe_some t) (ids_with-of_Selected s)
