-- ===== src/DhcpPool.antt =====
-- The automatic DHCP pools of a network, server/src/services/subnet-dhcp-topology.js:
-- `defaultDhcpPoolForSubnet` and `defaultDhcpV6PoolForSubnet`.
pub mod V4
pub mod V6
use cidrella.Base.{
  ℕ, zero, suc, ◌+◌, ◌-◌, ◌*◌, ◌/◌, ◌^◌, min, max, Bool, true, false, not, ◌&&◌, ◌||◌, Option, none,
  some, List, [], ◌∷◌, length, ltb, leb, ◌==◌, if◌then◌else◌, ◌>>=◌,
}
use cidrella.Base.Text.{Text, to_string}
use cidrella.Address.{address_family}
use cidrella.Cidr.{
  BigAddress, Network, address_to_big, big_to_address, address_at_offset, cidr_runs,
}

-- `Math.floor(Math.log2(n))` of a number that is at least 1
unfoldable pub log2_floor : ℕ → ℕ
log2_floor n = length (to_string 2 n) - 1

-- The argument in hundredths: `size * 0.35` is `size * 35` of them. No two sides of a test are equal
-- up to rounding.
unfoldable pub nearest_pow2 : ℕ → ℕ
nearest_pow2 n =
    let lower = 2 ^ log2_floor (n / 100) in
    let upper = lower * 2 in
    if leb n 100 then 1 else if leb (n - lower * 100) (upper * 100 - n) then lower else upper

-- Where a pool of numbers begins and ends.
pub record Pool : Type 0 where
  pub start : ℕ
  pub end : ℕ

-- How far the pool's end is from the network address, and how many addresses it takes.
unfoldable pub pool_shape : ℕ → ℕ → ℕ × ℕ
pool_shape prefix size =
    if leb 21 prefix && leb prefix 23
    then (128, 64)
    else (nearest_pow2 (size * 35), max 2 (nearest_pow2 (size * 15)))

-- Steps past the gateway at an end of the pool.
unfoldable pub step_past : Option ℕ → Pool → Pool
step_past none pool = pool
step_past (some gateway) pool =
    if gateway == pool.start
    then record pool { start = pool.start + 1 }
    else if gateway == pool.end
    then record pool { end = pool.end - 1 }
    else pool

abbrev pub non_empty : Pool → Option Pool
non_empty pool = if leb pool.start pool.end then some pool else none

-- The gateway is the number that `ipToLong` reads.
unfoldable pub default_dhcp_pool_for_subnet : Network → Option ℕ → Option Pool
default_dhcp_pool_for_subnet parsed gateway_long =
    let shape = pool_shape parsed.prefix parsed.size_big in
    let pool_end = parsed.network_big + shape.0 in
    let start_long = max (pool_end + 1 - shape.1) (parsed.network_big + 1) in
    let end_long = min pool_end (parsed.last_big - 1) in
    if not (parsed.family == 4)
    then none
    else if ltb parsed.prefix 16 || ltb 29 parsed.prefix
    then none
    else non_empty (step_past gateway_long (record { start = start_long; end = end_long }))

-- Takes the gateway out of the IPv6 pool; in the middle it keeps the larger side.
unfoldable pub shape_around : Option ℕ → Pool → Pool
shape_around none pool = pool
shape_around (some gw) pool =
    if leb pool.start gw && leb gw pool.end
    then (if gw == pool.start
        then record pool { start = pool.start + 1 }
        else if gw == pool.end
        then record pool { end = pool.end - 1 }
        else if leb (gw - pool.start) (pool.end - gw)
        then record pool { start = gw + 1 }
        else record pool { end = gw - 1 })
    else pool

-- `gateway && addressFamily(gateway) === 6 ? addressToBig(gateway).value : null`; the outer option is
-- for what throws.
unfoldable pub gateway_value : Option Text → Option (Option ℕ)
gateway_value none = some none
gateway_value (some gateway) =
    if is_six (address_family gateway)
    then (address_to_big gateway >>= λ address. some (some address.value))
    else some none
  where
    is_six : Option ℕ → Bool
    is_six none = false
    is_six (some family) = family == 6

abbrev pub big_pool : Text → Text → Option Pool
big_pool start end = address_to_big start >>= λ a.
    address_to_big end >>= λ b. some (record { start = a.value; end = b.value })

pub record TextPool : Type 0 where
  pub start_ip : Text
  pub end_ip : Text

abbrev pub text_pool : Pool → Option TextPool
text_pool pool =
    if ltb pool.end pool.start
    then none
    else some
        (record { start_ip = big_to_address pool.start 6; end_ip = big_to_address pool.end 6 })

unfoldable pub v6_pool : Network → Option Pool
v6_pool parsed =
    if ltb 0x2000 parsed.size_big
    then big_pool (address_at_offset parsed 0x1000) (address_at_offset parsed 0x1fff)
    else big_pool parsed.first_usable parsed.last_usable

-- The outer option is for what throws, and the inner one for `null`.
unfoldable pub default_dhcp_v6_pool_for_subnet : Network → Option Text → Option (Option TextPool)
default_dhcp_v6_pool_for_subnet parsed gateway =
    if not (parsed.family == 6)
    then some none
    else if ltb parsed.prefix 64 || leb (parsed.bits - 1) parsed.prefix
    then some none
    else (v6_pool parsed >>= λ pool.
        gateway_value gateway >>= λ gw. some (text_pool (shape_around gw pool)))

unfoldable pub pool_runs : Unit {0}
unfolding cidr_runs log2_floor nearest_pow2 pool_shape step_past default_dhcp_pool_for_subnet
    shape_around gateway_value v6_pool default_dhcp_v6_pool_for_subnet
pool_runs = tt
