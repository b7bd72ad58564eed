-- ===== src/Api/PrivateState/Memory/Answers.antt =====
-- What the calls of the in-memory store do, and what a store is asked for.
use midnight_did_rs.Common.{
  ◌≡◌, refl, ap, true, false, Bool-cases, Option, none, some, [], Text, Result, ◌⊎◌, inl, inr, ok,
  err,
}
use midnight_did_rs.Api.PrivateState.{
  PrivateStateSlot, active, pending, DidPrivateState, PrivateStateError, contract_address_not_set,
  PrivateStateStore,
}
use midnight_did_rs.Api.PrivateState.Memory.{
  Slots, InMemoryInner, in_memory, write, check_address, checked_access, is_none,
}

abbrev pub other : PrivateStateSlot → PrivateStateSlot
other active = pending
other pending = active

-- A call on a slot leaves the other slot as it was.
abbrev pub Leaves : PrivateStateSlot → Slots → Slots → Type 0
Leaves slot before after = after (other slot) ≡ before (other slot)

-- What a write that succeeded puts into its slot.
abbrev pub Wrote :
    PrivateStateSlot → Option DidPrivateState → Result PrivateStateError (Unit {0}) → Slots → Type 0
Wrote slot v (ok tt) after = after slot ≡ v
Wrote slot v (err e) after = Unit {0}

-- What a read that succeeded returns; the slot stays as it was.
abbrev pub Got :
    PrivateStateSlot → Result PrivateStateError (Option DidPrivateState) → Slots → Slots → Type 0
Got slot (ok value) before after = (value ≡ before slot) × (after slot ≡ before slot)
Got slot (err e) before after = Unit {0}

-- A store whose calls touch no slot but the one that they name, and do to that one, where they
-- succeed, what the trait documents. Of a call that fails nothing is known about its own slot.
pub record IsStore {σ : Type 0} (store : PrivateStateStore σ) : Type 0 where
  pub contents : σ → Slots
  pub get_lem :
      (slot : PrivateStateSlot) (s : σ)
      → let (r, after) = store.get slot s in
        Leaves slot (contents s) (contents after) × Got slot r (contents s) (contents after)
  pub set_lem :
      (slot : PrivateStateSlot) (state : DidPrivateState) (s : σ)
      → let (r, after) = store.set slot state s in
        Leaves slot (contents s) (contents after) × Wrote slot (some state) r (contents after)
  pub remove_lem :
      (slot : PrivateStateSlot) (s : σ)
      → let (r, after) = store.remove slot s in
        Leaves slot (contents s) (contents after) × Wrote slot none r (contents after)

-- An address is needed and missing; or it is not needed, or it is there.
abbrev pub Unbound : InMemoryInner → Type 0
Unbound s = (s.require_address ≡ true) × (s.contract_address ≡ none)

abbrev pub Serving : InMemoryInner → Type 0
Serving s = (s.require_address ≡ false) ⊎ ((a : Text) × (s.contract_address ≡ some a))

-- A call that failed.
abbrev pub Refused : PrivateStateError → InMemoryInner → InMemoryInner → Type 0
Refused e s after = Unbound s × (e ≡ contract_address_not_set) × (after ≡ s)

abbrev pub Reads :
    PrivateStateSlot
    → InMemoryInner
    → Result PrivateStateError (Option DidPrivateState) × InMemoryInner
    → Type 0
Reads slot s (ok value, after) = Serving s × (value ≡ s.slots slot) × (after ≡ s)
Reads slot s (err e, after) = Refused e s after

abbrev pub Writes :
    PrivateStateSlot
    → Option DidPrivateState
    → InMemoryInner
    → Result PrivateStateError (Unit {0}) × InMemoryInner
    → Type 0
Writes slot v s (ok tt, after) =
    Serving s
    × (after.slots slot ≡ v)
    × Leaves slot s.slots after.slots
    × (after.contract_address ≡ s.contract_address)
    × (after.require_address ≡ s.require_address)
Writes slot v s (err e, after) = Refused e s after

-- Whether the store serves, with what the check of the address then says.
address_cases :
    (s : InMemoryInner)
    → (Serving s × (check_address s ≡ ok tt))
      ⊎ (Unbound s × (check_address s ≡ err contract_address_not_set))
unfolding check_address is_none
address_cases s = elim (Bool-cases s.require_address) [
  | inr n ↦ inl (inl n, rw n refl)
  | inl y ↦ by_address s.contract_address refl y
]
  where
    by_address :
        (a : Option Text)
        → s.contract_address ≡ a
        → s.require_address ≡ true
        → (Serving s × (check_address s ≡ ok tt))
          ⊎ (Unbound s × (check_address s ≡ err contract_address_not_set))
    by_address none e y = inr ((y, e), rw (y, e) refl)
    by_address (some a) e y = inl (inr (a, e), rw (y, e) refl)

write_lem :
    (slot : PrivateStateSlot) (v : Option DidPrivateState) (slots : Slots)
    → (write slot v slots slot ≡ v) × Leaves slot slots (write slot v slots)
unfolding write
write_lem active v slots = (refl, refl)
write_lem pending v slots = (refl, refl)

access-Writes :
    (slot : PrivateStateSlot) (v : Option DidPrivateState) (s : InMemoryInner)
    → Writes slot v s (checked_access (λ i. (tt, record i { slots = write slot v i.slots })) s)
access-Writes slot v s =
    let (own, rest) = write_lem slot v s.slots in
    elim (address_cases s) [
      | inl (serving, e) ↦ rw e (serving, own, rest, refl, refl)
      | inr (unbound, e) ↦ rw e (unbound, refl, refl)
    ]

-- A call of the in-memory store fails exactly if the store needs an address and has none: it then
-- says so and leaves the store as it was. Otherwise `get` returns what the slot holds and leaves
-- the store as it was; `set` and `remove` fill and empty the slot that they name, and leave the
-- other slot, the address and the need for one as they were.
pub in_memory_answers :
    (slot : PrivateStateSlot) (state : DidPrivateState) (s : InMemoryInner)
    → Reads slot s (in_memory.get slot s)
      × Writes slot (some state) s (in_memory.set slot state s)
      × Writes slot none s (in_memory.remove slot s)
unfolding in_memory
in_memory_answers slot state s = (
  elim (address_cases s) [
    | inl (serving, e) ↦ rw e (serving, refl, refl)
    | inr (unbound, e) ↦ rw e (unbound, refl, refl)
  ],
  access-Writes slot (some state) s,
  access-Writes slot none s,
)

write_of_Writes :
    (slot : PrivateStateSlot) (v : Option DidPrivateState) (s : InMemoryInner)
    (out : Result PrivateStateError (Unit {0}) × InMemoryInner)
    → Writes slot v s out
    → Leaves slot s.slots out.1.slots × Wrote slot v out.0 out.1.slots
write_of_Writes slot v s (ok _, after) (_, own, rest, _, _) = (rest, own)
write_of_Writes slot v s (err e, after) (_, _, same) = (ap (λ t. t.slots (other slot)) same, tt)

read_of_Reads :
    (slot : PrivateStateSlot) (s : InMemoryInner)
    (out : Result PrivateStateError (Option DidPrivateState) × InMemoryInner)
    → Reads slot s out
    → Leaves slot s.slots out.1.slots × Got slot out.0 s.slots out.1.slots
read_of_Reads slot s (ok value, after) (_, found, same) =
    (ap (λ t. t.slots (other slot)) same, (found, ap (λ t. t.slots slot) same))
read_of_Reads slot s (err e, after) (_, _, same) = (ap (λ t. t.slots (other slot)) same, tt)

-- The in-memory store is such a store.
pub in_memory-IsStore : IsStore in_memory
in_memory-IsStore = record {
  contents = λ inner. inner.slots;
  get_lem =
      λ slot s. read_of_Reads slot s _ (in_memory_answers slot (record { secret_key = [] }) s).0;
  set_lem =
      λ slot state s. write_of_Writes slot (some state) s _ (in_memory_answers slot state s).1;
  remove_lem = λ slot s.
      write_of_Writes slot none s _ (in_memory_answers slot (record { secret_key = [] }) s).2;
}
