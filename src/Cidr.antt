-- ===== src/Cidr.antt =====
-- CIDR arithmetic, server/src/utils/cidr.js: the family-generic layer over BigInts, the address
-- and network predicates. A function that throws returns `none`.
pub mod Divide
pub mod Merge
pub mod Reserved
pub mod Ipv4
pub mod Numbers
pub mod Wellformed
pub mod Relations
pub mod RoundTrip
pub mod Normal
use cidrella.Base.{
  ℕ, zero, suc, ◌+◌, ◌-◌, ◌*◌, ◌/◌, ◌^◌, bit_and, bit_or, bit_xor, Bool, true, false, not, ◌&&◌,
  ◌||◌, Option, none, some, List, [], ◌∷◌, ◌++◌, map, length, take, drop, all, ltb, leb, ◌==◌,
  if◌then◌else◌, ◌>>=◌, ◌>>◌, check, is_some,
}
use cidrella.Base.Text.{
  Text, includes, last_index_of, join, to_string, parse_int, is_digit, text_runs,
}
use cidrella.Address.{
  ipv4_bits, ipv6_bits, dot, colon, v4_mapped_prefix, v4_mapped_last, ParsedIp, IpOptions,
  family_of, parse_ip,
}
use cidrella.Address.Format.{format_ip, format_runs}

-- `{ zoneId: false }`
abbrev pub no_zone : IpOptions
no_zone = record { zone_id = false; map_v4 = true; embedded_v4 = true }

pub record BigAddress : Type 0 where
  pub value : ℕ
  pub bits : ℕ
  pub family : ℕ

unfoldable pub address_to_big : Text → Option BigAddress
address_to_big ip = parse_ip no_zone ip >>= λ parsed.
    some (record { value = parsed.value; bits = parsed.bits; family = family_of parsed.bits })

abbrev pub bits_of : ℕ → ℕ
bits_of family = if family == 6 then ipv6_bits else ipv4_bits

unfoldable pub big_to_address : ℕ → ℕ → Text
big_to_address value family = format_ip value (bits_of family)

-- A number that fits 32 bits, shifted and masked as `>>>` and `&` do.
unfoldable pub long_to_ip : ℕ → Text
long_to_ip long = join dot (
    map (λ shift. to_string 10 (bit_and (long / 2 ^ shift) 255)) (24 ∷ 16 ∷ 8 ∷ [])
    ++ to_string 10 (bit_and long 255) ∷ [])

abbrev pub max_safe : ℕ
max_safe = 2 ^ 53 - 1

abbrev pub safe_number : ℕ → Option ℕ
safe_number big = if leb big max_safe then some big else none

-- What `parseNetwork` returns. The Number fields that IPv4 results carry as well (`networkLong`,
-- `broadcastLong`, `totalAddresses`, `usableCount`) are the BigInt fields, and `broadcast` is `last`.
pub record Network : Type 0 where
  pub family : ℕ
  pub bits : ℕ
  pub prefix : ℕ
  pub network : Text
  pub cidr : Text
  pub mask : Text
  pub first : Text
  pub last : Text
  pub first_usable : Text
  pub last_usable : Text
  pub size : Option ℕ
  pub usable : Option ℕ
  pub network_big : ℕ
  pub last_big : ℕ
  pub size_big : ℕ
  pub usable_big : ℕ

abbrev pub slash : ℕ
slash = b'/'

-- `address/prefix`
unfoldable pub network_text : ℕ → ℕ → ℕ → Text
network_text value family prefix = big_to_address value family ++ slash ∷ to_string 10 prefix

abbrev pub all_ones : ℕ → ℕ
all_ones bits = 2 ^ bits - 1

unfoldable pub mask_of : ℕ → ℕ → ℕ
mask_of bits prefix =
    if prefix == 0 then 0 else bit_and (all_ones bits * 2 ^ (bits - prefix)) (all_ones bits)

unfoldable pub network_of : ℕ → ℕ → ℕ → ℕ
network_of bits prefix value = bit_and value (mask_of bits prefix)

unfoldable pub last_of : ℕ → ℕ → ℕ → ℕ
last_of bits prefix value =
    bit_or (network_of bits prefix value) (bit_xor (all_ones bits) (mask_of bits prefix))

abbrev pub first_usable_of : Bool → ℕ → ℕ
first_usable_of reserves network = if reserves then network + 1 else network

abbrev pub last_usable_of : Bool → ℕ → ℕ → ℕ
last_usable_of reserves family last = if reserves && family == 4 then last - 1 else last

-- `prefix < bits - 1`
abbrev pub reserves_endpoints : ℕ → ℕ → Bool
reserves_endpoints bits prefix = ltb prefix (bits - 1)

-- The second half of `parseNetwork`, from the address and the checked prefix on.
unfoldable pub build_network : BigAddress → ℕ → Network
build_network address prefix =
    let family = address.family in
    let bits = address.bits in
    let network = network_of bits prefix address.value in
    let last = last_of bits prefix address.value in
    let size = last - network + 1 in
    let first_usable = first_usable_of (reserves_endpoints bits prefix) network in
    let last_usable = last_usable_of (reserves_endpoints bits prefix) family last in
    let usable = last_usable - first_usable + 1 in
    record {
      family = family;
      bits = bits;
      prefix = prefix;
      network = big_to_address network family;
      cidr = network_text network family prefix;
      mask = big_to_address (mask_of bits prefix) family;
      first = big_to_address network family;
      last = big_to_address last family;
      first_usable = big_to_address first_usable family;
      last_usable = big_to_address last_usable family;
      size = safe_number size;
      usable = safe_number usable;
      network_big = network;
      last_big = last;
      size_big = size;
      usable_big = usable;
    }

-- An IPv4-mapped IPv6 network loses the 96 bits of the mapping.
unfoldable pub fold_prefix : Bool → ℕ → Option ℕ
fold_prefix folded prefix =
    if folded then (if ltb prefix 96 then none else some (prefix - 96)) else some prefix

unfoldable pub parse_at : Text → ℕ → Option Network
parse_at cidr at =
    let prefix_text = drop (suc at) cidr in
    check (not (ltb at 1 || at == length cidr - 1))
    >> (check (all is_digit prefix_text)
        >> (address_to_big (take at cidr) >>= λ address.
            fold_prefix (address.family == 4 && includes colon cidr) (parse_int 10 prefix_text)
            >>= λ prefix.
                check (not (ltb address.bits prefix)) >> some (build_network address prefix)))

unfoldable pub parse_network : Text → Option Network
parse_network cidr = last_index_of (slash ∷ []) cidr >>= λ at. parse_at cidr at

unfoldable pub is_valid_network : Text → Bool
is_valid_network cidr = is_some (parse_network cidr)

unfoldable pub normalize_network : Text → Option Text
normalize_network cidr = parse_network cidr >>= λ parsed. some parsed.cidr

-- The tests on parsed values that the functions of texts below share.
unfoldable pub holds_address : Network → BigAddress → Bool
holds_address net address =
    if address.family == net.family
    then leb net.network_big address.value && leb address.value net.last_big
    else false

unfoldable pub network_contains : Text → Text → Option Bool
network_contains cidr ip =
    parse_network cidr >>= λ net. address_to_big ip >>= λ address. some (holds_address net address)

unfoldable pub share_address : Network → Network → Bool
share_address a b =
    if a.family == b.family
    then leb a.network_big b.last_big && leb b.network_big a.last_big
    else false

unfoldable pub networks_overlap : Text → Text → Option Bool
networks_overlap cidr_a cidr_b =
    parse_network cidr_a >>= λ a. parse_network cidr_b >>= λ b. some (share_address a b)

unfoldable pub sits_within : Network → Network → Bool
sits_within child parent =
    if child.family == parent.family
    then leb parent.network_big child.network_big
      && leb child.last_big parent.last_big
      && ltb parent.prefix child.prefix
    else false

unfoldable pub is_network_within : Text → Text → Option Bool
is_network_within child_cidr parent_cidr = parse_network child_cidr >>= λ child.
    parse_network parent_cidr >>= λ parent. some (sits_within child parent)

unfoldable pub is_valid_address : Text → Bool
is_valid_address ip = is_some (parse_ip no_zone ip)

abbrev pub holds_parsed : Network → Option ParsedIp → Bool
holds_parsed net none = false
holds_parsed net (some address) =
    if family_of address.bits == net.family
    then leb net.network_big address.value && leb address.value net.last_big
    else false

unfoldable pub parsed_network_contains : Network → Text → Bool
parsed_network_contains parsed ip = holds_parsed parsed (parse_ip no_zone ip)

unfoldable pub topology_addresses : Network → List Text
topology_addresses parsed =
    if leb (parsed.bits - 1) parsed.prefix
    then []
    else if parsed.family == 4
    then parsed.network ∷ parsed.last ∷ []
    else parsed.network ∷ []

unfoldable pub is_topology_address : Network → ℕ → Bool
is_topology_address parsed value =
    if leb (parsed.bits - 1) parsed.prefix
    then false
    else value == parsed.network_big || (parsed.family == 4 && value == parsed.last_big)

unfoldable pub address_at_offset : Network → ℕ → Text
address_at_offset parsed offset = big_to_address (parsed.network_big + offset) parsed.family

unfoldable pub address_ranges_overlap : Text → Text → Text → Text → Option Bool
address_ranges_overlap start_a end_a start_b end_b = address_to_big start_a >>= λ a0.
    address_to_big end_a >>= λ a1. address_to_big start_b >>= λ b0. address_to_big end_b >>= λ b1.
    some (if a0.family == b0.family then leb a0.value b1.value && leb b0.value a1.value else false)

unfoldable pub address_in_range : Text → Text → Text → Option Bool
address_in_range ip start_ip end_ip = address_ranges_overlap ip ip start_ip end_ip

unfoldable pub cidr_runs : Unit {0}
unfolding format_runs address_to_big big_to_address long_to_ip network_text mask_of network_of
    last_of build_network fold_prefix parse_at parse_network is_valid_network normalize_network
    holds_address network_contains share_address networks_overlap sits_within is_network_within
    is_valid_address parsed_network_contains topology_addresses is_topology_address
    address_at_offset address_ranges_overlap address_in_range
cidr_runs = tt
