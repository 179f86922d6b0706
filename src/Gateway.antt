-- ===== src/Gateway.antt =====
-- The gateway policies of a network, server/src/services/subnet-topology.js:
-- `gatewayPolicyForAddress` and `resolveGatewayAddress`.
pub mod RoundTrip
use cidrella.Base.{Bool, true, false, Option, none, some, List, [], ◌∷◌, if◌then◌else◌}
use cidrella.Base.Text.{Text, text_eq, is_empty}
use cidrella.Address.Format.{canonicalize_ip}
use cidrella.Cidr.{Network, cidr_runs}

pub data GatewayPolicy : Type 0 where
  no_gateway first last custom : GatewayPolicy

abbrev pub or_text : Option Text → Text → Text
or_text none text = text
or_text (some canonical) text = canonical

-- `canonicalizeIp(address) ?? address`
unfoldable pub canonical_or : Text → Text
canonical_or address = or_text (canonicalize_ip address) address

-- A text that is empty counts as no gateway.
unfoldable pub gateway_policy_for_address : Network → Option Text → GatewayPolicy
gateway_policy_for_address parsed none = no_gateway
gateway_policy_for_address parsed (some gateway_address) =
    let canonical = canonical_or gateway_address in
    if is_empty gateway_address
    then no_gateway
    else if text_eq canonical parsed.first_usable
    then first
    else if text_eq canonical parsed.last_usable
    then last
    else custom

-- `customAddress && (canonicalizeIp(customAddress) ?? customAddress)`
unfoldable pub custom_gateway : Option Text → Option Text
custom_gateway none = none
custom_gateway (some address) =
    if is_empty address then some address else some (canonical_or address)

unfoldable pub resolve_gateway_address : Network → GatewayPolicy → Option Text → Option Text
resolve_gateway_address parsed no_gateway custom_address = none
resolve_gateway_address parsed last custom_address = some parsed.last_usable
resolve_gateway_address parsed custom custom_address = custom_gateway custom_address
resolve_gateway_address parsed first custom_address = some parsed.first_usable

unfoldable pub gateway_runs : Unit {0}
unfolding cidr_runs canonical_or gateway_policy_for_address custom_gateway resolve_gateway_address
gateway_runs = tt
