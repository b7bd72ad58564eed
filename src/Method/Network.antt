-- ===== src/Method/Network.antt =====
-- crates/midnight-did-method/src/network_mapping.rs, and the network type of midnight_did.rs.
pub mod Mapping
use midnight_did_rs.Common.{
  Bool, true, false, Option, none, some, List, [], ◌∷◌, Text, codes, text_eq, if◌then◌else◌,
}

pub data MidnightNetwork : Type 0 where
  undeployed dev_net testnet mainnet preview preprod offchain : MidnightNetwork

unfoldable pub as_wire_str : MidnightNetwork → Text
as_wire_str undeployed = codes "undeployed"
as_wire_str dev_net = codes "devnet"
as_wire_str testnet = codes "testnet"
as_wire_str mainnet = codes "mainnet"
as_wire_str preview = codes "preview"
as_wire_str preprod = codes "preprod"
as_wire_str offchain = codes "offchain"

unfoldable pub from_wire_str : Text → Option MidnightNetwork
from_wire_str value =
    if text_eq value (codes "undeployed")
    then some undeployed
    else if text_eq value (codes "devnet")
    then some dev_net
    else if text_eq value (codes "testnet")
    then some testnet
    else if text_eq value (codes "mainnet")
    then some mainnet
    else if text_eq value (codes "preview")
    then some preview
    else if text_eq value (codes "preprod")
    then some preprod
    else if text_eq value (codes "offchain")
    then some offchain
    else none

pub data RuntimeNetworkId : Type 0 where
  undeployed dev_net testnet mainnet preview preprod : RuntimeNetworkId

unfoldable pub as_str : RuntimeNetworkId → Text
as_str undeployed = codes "undeployed"
as_str dev_net = codes "devnet"
as_str testnet = codes "testnet"
as_str mainnet = codes "mainnet"
as_str preview = codes "preview"
as_str preprod = codes "preprod"

unfoldable pub parse_runtime : Text → Option RuntimeNetworkId
parse_runtime value =
    if text_eq value (codes "undeployed")
    then some RuntimeNetworkId.undeployed
    else if text_eq value (codes "devnet")
    then some RuntimeNetworkId.dev_net
    else if text_eq value (codes "testnet")
    then some RuntimeNetworkId.testnet
    else if text_eq value (codes "mainnet")
    then some RuntimeNetworkId.mainnet
    else if text_eq value (codes "preview")
    then some RuntimeNetworkId.preview
    else if text_eq value (codes "preprod")
    then some RuntimeNetworkId.preprod
    else none

unfoldable pub runtime_to_domain : RuntimeNetworkId → MidnightNetwork
runtime_to_domain undeployed = MidnightNetwork.undeployed
runtime_to_domain dev_net = MidnightNetwork.dev_net
runtime_to_domain testnet = MidnightNetwork.testnet
runtime_to_domain mainnet = MidnightNetwork.mainnet
runtime_to_domain preview = MidnightNetwork.preview
runtime_to_domain preprod = MidnightNetwork.preprod

unfoldable pub domain_to_runtime : MidnightNetwork → Option RuntimeNetworkId
domain_to_runtime undeployed = some RuntimeNetworkId.undeployed
domain_to_runtime dev_net = some RuntimeNetworkId.dev_net
domain_to_runtime testnet = some RuntimeNetworkId.testnet
domain_to_runtime mainnet = some RuntimeNetworkId.mainnet
domain_to_runtime preview = some RuntimeNetworkId.preview
domain_to_runtime preprod = some RuntimeNetworkId.preprod
domain_to_runtime offchain = none
