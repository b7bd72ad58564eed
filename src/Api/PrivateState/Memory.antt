-- ===== src/Api/PrivateState/Memory.antt =====
-- crates/midnight-did-api/src/private_state.rs: `InMemoryPrivateStateStore`.
pub mod Answers
use midnight_did_rs.Common.{
  Bool, true, false, ◌&&◌, Option, none, some, Text, Result, ok, err, if◌then◌else◌,
}
use midnight_did_rs.Common.Actions.{Action, ◌>>=◌}
use midnight_did_rs.Api.PrivateState.{
  PrivateStateSlot, active, pending, DidPrivateState, PrivateStateError, contract_address_not_set,
  PrivateStateStore,
}

-- What the slots hold; `HashMap<PrivateStateSlot, DidPrivateState>`.
abbrev pub Slots : Type 0
Slots = PrivateStateSlot → Option DidPrivateState

unfoldable pub write : PrivateStateSlot → Option DidPrivateState → Slots → Slots
write active v slots active = v
write active v slots pending = slots pending
write pending v slots active = slots active
write pending v slots pending = v

pub record InMemoryInner : Type 0 where
  pub contract_address : Option Text
  pub require_address : Bool
  pub slots : Slots

unfoldable pub new : InMemoryInner
new = record { contract_address = none; require_address = false; slots = λ _. none }

unfoldable pub strict : InMemoryInner
unfolding new
strict = record new { require_address = true }

unfoldable pub is_none : Option Text → Bool
is_none none = true
is_none (some a) = false

unfoldable pub check_address : InMemoryInner → Result PrivateStateError (Unit {0})
unfolding is_none
check_address inner =
    if inner.require_address && is_none inner.contract_address
    then err contract_address_not_set
    else ok tt

-- `self.check_address()?`, then the access.
abbrev pub checked_access :
    {A : Type 0} → (InMemoryInner → A × InMemoryInner) → Action InMemoryInner PrivateStateError A
checked_access access = (λ inner. (check_address inner, inner)) >>= λ _ inner.
    let (a, after) = access inner in (ok a, after)

unfoldable pub in_memory : PrivateStateStore InMemoryInner
unfolding check_address write
in_memory = record {
  set_contract_address = λ address inner. record inner { contract_address = some address };
  get = λ slot. checked_access (λ inner. (inner.slots slot, inner));
  set = λ slot state.
      checked_access (λ inner. (tt, record inner { slots = write slot (some state) inner.slots }));
  remove =
      λ slot. checked_access (λ inner. (tt, record inner { slots = write slot none inner.slots }));
}
