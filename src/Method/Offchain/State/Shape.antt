-- ===== src/Method/Offchain/State/Shape.antt =====
-- What `validate_state_shape` accepts.
use midnight_did_rs.Common.{
  ◌<◌, ◌≤◌, ◌≡◌, ◌≢◌, ◌↔◌, refl, true, false, List, [], ◌∷◌, length, All, is_empty, ok,
  Result-cases, arith, inl, inr,
}
use midnight_did_rs.Method.Offchain.Keys.{OffchainKeyKind, key_kind_from_jwk}
use midnight_did_rs.Method.Offchain.State.{
  OffchainMidnightDidState, OffchainVerificationMethod, OffchainService, max_also_known_as,
  max_verification_methods, max_services, is_fragment, check_methods, check_services,
  validate_state_shape,
}

-- A method under a fragment, with a key of a supported kind.
abbrev pub IsMethod : OffchainVerificationMethod → Type 0
IsMethod vm =
    (is_fragment vm.id ≡ true)
    × (kind : OffchainKeyKind) × (key_kind_from_jwk vm.public_key_jwk ≡ ok kind)

-- A service under a fragment, with a type and an endpoint.
abbrev pub IsService : OffchainService → Type 0
IsService s =
    (is_fragment s.id ≡ true) × (is_empty s.type_ ≡ false) × (is_empty s.service_endpoint ≡ false)

abbrev pub IsShape : OffchainMidnightDidState → Type 0
IsShape state =
    (state.version ≢ 0)
    × (length state.also_known_as ≤ max_also_known_as)
    × (0 < length state.verification_method)
    × (length state.verification_method ≤ max_verification_methods)
    × (length state.service ≤ max_services)
    × All IsMethod state.verification_method
    × All IsService state.service

not_empty_iff : {A : Type 0} (xs : List A) → (is_empty xs ≡ false) ↔ (0 < length xs)
not_empty_iff [] = ((λ h. absurd (cc h)), λ h. absurd (omega (arith, h)))
not_empty_iff (x ∷ xs) = ((λ _. omega arith), λ _. refl)

check_methods_iff :
    (vms : List OffchainVerificationMethod) → (check_methods vms ≡ ok tt) ↔ All IsMethod vms
unfolding check_methods
check_methods_iff [] = ((λ _. tt), λ _. refl)
check_methods_iff (vm ∷ vms) = elim (Result-cases (key_kind_from_jwk vm.public_key_jwk)) [
  | inr (e, k) ↦ ((λ h. absurd (ground arith)), (λ h. absurd (ground (arith, h.0.2))))
  | inl (kind, k) ↦
      let (sound, complete) = check_methods_iff vms in
      (
        (λ h. ((ground arith, kind, k), sound (ground arith))),
        (λ h. ground (arith, h.0.0, complete h.1)),
      )
]

check_services_iff :
    (services : List OffchainService) → (check_services services ≡ ok tt) ↔ All IsService services
unfolding check_services
check_services_iff [] = ((λ _. tt), λ _. refl)
check_services_iff (s ∷ services) =
    let (sound, complete) = check_services_iff services in
    (
      (λ h. ((ground arith, ground arith, ground arith), sound (ground arith))),
      (λ h. ground (arith, complete h.1)),
    )

-- An off-chain state is accepted exactly if its version is not 0, it holds at most 4 aliases, 1 to
-- 4 verification methods and at most 4 services, each method has a fragment as its id and a key of
-- a supported kind, and each service a fragment as its id, a type and an endpoint.
pub validate_state_shape_iff :
    (state : OffchainMidnightDidState) → (validate_state_shape state ≡ ok tt) ↔ IsShape state
unfolding validate_state_shape
validate_state_shape_iff state =
    let (ms, mc) = check_methods_iff state.verification_method in
    let (ss, sc) = check_services_iff state.service in
    let (es, ec) = not_empty_iff state.verification_method in
    (
      (λ h. (
        ground arith,
        ground arith,
        es (ground arith),
        ground arith,
        ground arith,
        ms (elim (Result-cases (check_methods state.verification_method)) [
          | inl (tt, m) ↦ m
          | inr (e, m) ↦ absurd (ground arith)
        ]),
        ss (elim (Result-cases (check_methods state.verification_method)) [
          | inl (tt, m) ↦ ground arith
          | inr (e, m) ↦ absurd (ground arith)
        ]),
      )),
      (λ h. ground (arith, ec h.2, mc h.5, sc h.6)),
    )
