-- ===== src/Method/Network/Mapping.antt =====
-- Wire names and the two network types.
use midnight_did_rs.Common.{
  ◌≡◌, ◌↔◌, refl, ap, ◌∙◌, Option, none, some, Text, codes, text_eq, text_eq_sound, arith,
}
use midnight_did_rs.Method.Network.{
  MidnightNetwork, undeployed, offchain, RuntimeNetworkId, as_wire_str, from_wire_str, as_str,
  parse_runtime, runtime_to_domain, domain_to_runtime,
}

pub from_wire_str-as_wire_str : (n : MidnightNetwork) → from_wire_str (as_wire_str n) ≡ some n
unfolding from_wire_str as_wire_str text_eq
from_wire_str-as_wire_str undeployed = refl
from_wire_str-as_wire_str _ = refl

-- Only the seven wire names are read, each as its own network.
pub as_wire_str_of_from :
    (value : Text) {n : MidnightNetwork} → from_wire_str value ≡ some n → value ≡ as_wire_str n
unfolding from_wire_str as_wire_str
as_wire_str_of_from value {n} h = ground (
  arith,
  text_eq_sound value (codes "undeployed"),
  text_eq_sound value (codes "devnet"),
  text_eq_sound value (codes "testnet"),
  text_eq_sound value (codes "mainnet"),
  text_eq_sound value (codes "preview"),
  text_eq_sound value (codes "preprod"),
  text_eq_sound value (codes "offchain"),
)

-- `from_wire_str` reads exactly the name that `as_wire_str` writes, for every network.
pub from_wire_str_iff :
    (value : Text) (n : MidnightNetwork) → (from_wire_str value ≡ some n) ↔ (value ≡ as_wire_str n)
from_wire_str_iff value n =
    (as_wire_str_of_from value, λ h. ap from_wire_str h ∙ from_wire_str-as_wire_str n)

same_name : (r : RuntimeNetworkId) → as_str r ≡ as_wire_str (runtime_to_domain r)
unfolding as_str as_wire_str runtime_to_domain
same_name undeployed = refl
same_name _ = refl

-- The runtime networks are the domain networks but `Offchain`: the maps invert one another, and
-- both types write the same wire name.
pub domain_to_runtime_iff :
    (n : MidnightNetwork) (r : RuntimeNetworkId)
    → ((domain_to_runtime n ≡ some r) ↔ (runtime_to_domain r ≡ n))
      × (as_str r ≡ as_wire_str (runtime_to_domain r))
      × (domain_to_runtime offchain ≡ none)
unfolding domain_to_runtime runtime_to_domain as_str as_wire_str
domain_to_runtime_iff n r = (
  (
    (λ (h : domain_to_runtime n ≡ some r). ground arith),
    (λ (h : runtime_to_domain r ≡ n). ground arith),
  ),
  same_name r,
  refl,
)

abbrev pub to_runtime : Option MidnightNetwork → Option RuntimeNetworkId
to_runtime none = none
to_runtime (some n) = domain_to_runtime n

-- Reading a runtime id is reading a domain network and mapping it.
parse_runtime-from_wire_str :
    (value : Text) → parse_runtime value ≡ to_runtime (from_wire_str value)
unfolding parse_runtime from_wire_str domain_to_runtime
parse_runtime-from_wire_str value = ground arith
