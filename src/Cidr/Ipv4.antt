-- ===== src/Cidr/Ipv4.antt =====
-- The IPv4 layer of server/src/utils/cidr.js, wrappers over the generic one that refuse anything that
-- is not IPv4, and the DHCPv6 modes of a prefix length. `isIpInSubnet` and `applyNameTemplate` are
-- left out, as what they call is.
pub mod Validity
use cidrella.Base.{
  ℕ, zero, suc, Bool, true, false, not, ◌&&◌, ◌||◌, Option, none, some, List, [], ◌∷◌, length, all,
  ltb, leb, ◌==◌, if◌then◌else◌, ◌>>=◌, ◌>>◌, check, is_some,
}
use cidrella.Base.Text.{Text, split, parse_int, is_digit}
use cidrella.Address.{dot}
use cidrella.Cidr.{Network, parse_network, is_network_within, networks_overlap, cidr_runs}
use cidrella.Cidr.Divide.{subtract_network, split_network, divide_runs}
use cidrella.Cidr.Merge.{MergeResult, too_few, invalid, merge_networks, merge_runs}
use cidrella.Cidr.Reserved.{BoundsResult, validate_network_bounds, reserved_runs}

unfoldable pub require_ipv4 : Network → Option Network
require_ipv4 parsed = if not (parsed.family == 4) then none else some parsed

unfoldable pub parse_cidr : Text → Option Network
parse_cidr cidr = parse_network cidr >>= λ parsed. require_ipv4 parsed

unfoldable pub normalize_cidr : Text → Option Text
normalize_cidr cidr = parse_cidr cidr >>= λ parsed. some parsed.cidr

unfoldable pub validate_supernet : Text → Option BoundsResult
validate_supernet cidr = parse_cidr cidr >>= λ parsed. validate_network_bounds cidr

-- `cidrs.forEach((c) => parseCidr(c))`
unfoldable pub all_parse : List Text → Option (Unit {0})
all_parse [] = some tt
all_parse (c ∷ cidrs) = parse_cidr c >>= λ parsed. all_parse cidrs

unfoldable pub can_merge_cidrs : List Text → Option MergeResult
can_merge_cidrs cidrs = all_parse cidrs >>= λ u. merge_networks cidrs

unfoldable pub calculate_subnets : Text → ℕ → ℕ → Option (List Network)
calculate_subnets cidr new_prefix max_count =
    parse_cidr cidr >>= λ parsed. split_network cidr new_prefix max_count

-- One to three digits, as in `IPV4_RE`.
abbrev pub short_number : Text → Bool
short_number s = leb 1 (length s) && leb (length s) 3 && all is_digit s

-- `IPV4_RE`: four short numbers with dots between them.
unfoldable pub ipv4_shape : Text → Bool
ipv4_shape ip = let parts = split dot ip in length parts == 4 && all short_number parts

-- `n >= 0` holds of every number read from digits.
abbrev pub in_octet : Text → Bool
in_octet o = leb (parse_int 10 o) 255

unfoldable pub is_valid_ipv4 : Text → Bool
is_valid_ipv4 ip = if not (ipv4_shape ip) then false else all in_octet (split dot ip)

unfoldable pub is_valid_cidr : Text → Bool
is_valid_cidr cidr = is_some (parse_cidr cidr)

unfoldable pub is_subnet_of : Text → Text → Option Bool
is_subnet_of child_cidr parent_cidr = parse_cidr child_cidr >>= λ child.
    parse_cidr parent_cidr >>= λ parent. is_network_within child_cidr parent_cidr

unfoldable pub cidrs_overlap : Text → Text → Option Bool
cidrs_overlap cidr_a cidr_b =
    parse_cidr cidr_a >>= λ a. parse_cidr cidr_b >>= λ b. networks_overlap cidr_a cidr_b

unfoldable pub subtract_cidr : Text → Text → Option (List Text)
subtract_cidr parent_cidr child_cidr = parse_cidr parent_cidr >>= λ parent.
    parse_cidr child_cidr >>= λ child. subtract_network parent_cidr child_cidr

-- The values of `DHCP_V6_MODES`.
pub data DhcpV6Mode : Type 0 where
  stateless slaac stateful : DhcpV6Mode

abbrev pub dhcp_v6_modes : List DhcpV6Mode
dhcp_v6_modes = stateless ∷ slaac ∷ stateful ∷ []

unfoldable pub dhcp_v6_modes_for : ℕ → List DhcpV6Mode
dhcp_v6_modes_for length =
    if length == 64 then dhcp_v6_modes else if ltb 64 length then stateful ∷ [] else []

abbrev pub same_mode : DhcpV6Mode → DhcpV6Mode → Bool
same_mode stateless stateless = true
same_mode stateless slaac = false
same_mode stateless stateful = false
same_mode slaac stateless = false
same_mode slaac slaac = true
same_mode slaac stateful = false
same_mode stateful stateless = false
same_mode stateful slaac = false
same_mode stateful stateful = true

-- `modes.includes(mode)`
unfoldable pub includes_mode : DhcpV6Mode → List DhcpV6Mode → Bool
includes_mode mode [] = false
includes_mode mode (m ∷ modes) = same_mode m mode || includes_mode mode modes

pub data ModeError : Type 0 where
  prefix_too_short mode_needs_64 : ModeError

unfoldable pub dhcp_v6_mode_error : ℕ → DhcpV6Mode → Option ModeError
dhcp_v6_mode_error length mode =
    if ltb length 64
    then some prefix_too_short
    else if not (includes_mode mode (dhcp_v6_modes_for length))
    then some mode_needs_64
    else none

unfoldable pub ipv4_runs : Unit {0}
unfolding cidr_runs divide_runs merge_runs reserved_runs require_ipv4 parse_cidr normalize_cidr
    validate_supernet all_parse can_merge_cidrs calculate_subnets ipv4_shape is_valid_ipv4
    is_valid_cidr is_subnet_of cidrs_overlap subtract_cidr dhcp_v6_modes_for includes_mode
    dhcp_v6_mode_error
ipv4_runs = tt
