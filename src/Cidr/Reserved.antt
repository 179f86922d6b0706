-- ===== src/Cidr/Reserved.antt =====
-- The reserved ranges and the bounds of a supernet (`RESERVED_RANGES` and `validateNetworkBounds` of
-- server/src/utils/cidr.js), and the blocks that are not globally routable
-- (`isGloballyRoutableCidr` of server/src/utils/ip.js).
pub mod Fitting
use cidrella.Base.{
  ℕ, zero, suc, Bool, true, false, not, ◌&&◌, ◌||◌, Option, none, some, List, [], ◌∷◌, ltb, leb,
  ◌==◌, if◌then◌else◌, ◌>>=◌,
}
use cidrella.Base.Text.{Text, codes}
use cidrella.Address.{v4_mapped_prefix, v4_mapped_last}
use cidrella.Cidr.{Network, parse_network, networks_overlap, cidr_runs}

abbrev pub reserved_ranges : List Text
reserved_ranges =
    codes "10.0.0.0/8"
    ∷ codes "172.16.0.0/12"
    ∷ codes "192.168.0.0/16"
    ∷ codes "100.64.0.0/10"
    ∷ codes "169.254.0.0/16"
    ∷ codes "127.0.0.0/8"
    ∷ codes "224.0.0.0/4"
    ∷ codes "240.0.0.0/4"
    ∷ codes "fc00::/7"
    ∷ codes "fe80::/10"
    ∷ codes "::1/128"
    ∷ codes "ff00::/8"
    ∷ codes "2001:db8::/32"
    ∷ []

pub data BoundsResult : Type 0 where
  in_bounds overlaps_mapped : BoundsResult
  extends_beyond : Text → BoundsResult

abbrev pub within_bounds : Network → Network → Bool
within_bounds parsed res =
    leb res.network_big parsed.network_big && leb parsed.last_big res.last_big

-- The loop over the reserved ranges.
unfoldable pub check_reserved : Text → Network → List Text → Option BoundsResult
check_reserved cidr parsed [] = some in_bounds
check_reserved cidr parsed (range ∷ ranges) =
    let rest = check_reserved cidr parsed ranges in
    parse_network range >>= λ res.
    if not (res.family == parsed.family)
    then rest
    else (networks_overlap cidr range >>= λ overlap.
        if overlap
        then (if within_bounds parsed res then some in_bounds else some (extends_beyond range))
        else rest)

abbrev pub reaches_mapped : Network → Bool
reaches_mapped parsed =
    parsed.family == 6
    && leb parsed.network_big v4_mapped_last
    && leb v4_mapped_prefix parsed.last_big

unfoldable pub validate_network_bounds : Text → Option BoundsResult
validate_network_bounds cidr = parse_network cidr >>= λ parsed.
    if reaches_mapped parsed
    then some overlaps_mapped
    else check_reserved cidr parsed reserved_ranges

abbrev pub non_global_ipv4_ranges : List Text
non_global_ipv4_ranges =
    codes "0.0.0.0/8"
    ∷ codes "10.0.0.0/8"
    ∷ codes "100.64.0.0/10"
    ∷ codes "127.0.0.0/8"
    ∷ codes "169.254.0.0/16"
    ∷ codes "172.16.0.0/12"
    ∷ codes "192.0.0.0/24"
    ∷ codes "192.0.2.0/24"
    ∷ codes "192.168.0.0/16"
    ∷ codes "198.18.0.0/15"
    ∷ codes "198.51.100.0/24"
    ∷ codes "203.0.113.0/24"
    ∷ codes "224.0.0.0/4"
    ∷ codes "240.0.0.0/4"
    ∷ []

abbrev pub non_global_ipv6_ranges : List Text
non_global_ipv6_ranges =
    codes "::/128"
    ∷ codes "::1/128"
    ∷ codes "::ffff:0:0/96"
    ∷ codes "fc00::/7"
    ∷ codes "fe80::/10"
    ∷ codes "ff00::/8"
    ∷ codes "2001:db8::/32"
    ∷ []

-- `special.some(...)`, which stops at the first range that overlaps.
unfoldable pub overlaps_any : Text → List Text → Option Bool
overlaps_any cidr [] = some false
overlaps_any cidr (range ∷ ranges) =
    let rest = overlaps_any cidr ranges in
    networks_overlap cidr range >>= λ overlap. if overlap then some true else rest

unfoldable pub is_globally_routable_cidr : Text → Option Bool
is_globally_routable_cidr cidr = parse_network cidr >>= λ parsed.
    overlaps_any cidr
      (if parsed.family == 6 then non_global_ipv6_ranges else non_global_ipv4_ranges)
    >>= λ overlap. some (not overlap)

unfoldable pub reserved_runs : Unit {0}
unfolding cidr_runs check_reserved validate_network_bounds overlaps_any is_globally_routable_cidr
reserved_runs = tt
