-- ===== src/Address.antt =====
-- The shared address core, server/src/utils/address.js: an address text to a number and back.
-- A text is a list of UTF-16 code units and a BigInt a native number; `null` is `none`.
pub mod Format
pub mod Plain
pub mod V4
pub mod V6
pub mod RoundTrip
pub mod Bounds
pub mod Canonical
pub mod SortKey
pub mod Characters
use cidrella.Base.{
  ℕ, zero, suc, ◌+◌, ◌-◌, ◌*◌, ◌/◌, ◌^◌, bit_and, ◌≡◌, refl, Bool, true, false, not, ◌&&◌, ◌||◌,
  Option, none, some, List, [], ◌∷◌, ◌++◌, map, length, take, drop, replicate, all, last_or,
  drop_last, ltb, leb, ◌==◌, if◌then◌else◌, ◌>>=◌, ◌>>◌, check, is_some,
}
use cidrella.Base.Text.{
  Text, codes, text_eq, is_empty, includes, index_of, last_index_of, split, split_pair, join, trim,
  to_string, parse_int, is_digit, is_hex_digit, text_runs,
}

abbrev pub ipv4_bits : ℕ
ipv4_bits = 32

abbrev pub ipv6_bits : ℕ
ipv6_bits = 128

abbrev pub dot : ℕ
dot = b'.'

abbrev pub colon : ℕ
colon = b':'

abbrev pub percent : ℕ
percent = b'%'

-- One round of the loop of `parseV4`: `V4_OCTET_RE` and the range test.
unfoldable pub octet : Text → Option ℕ
octet s =
    if leb 1 (length s) && leb (length s) 3 && all is_digit s
    then (let n = parse_int 10 s in if ltb 255 n then none else some n)
    else none

unfoldable pub read_octets : ℕ → List Text → Option ℕ
read_octets v [] = some v
read_octets v (o ∷ octets) = octet o >>= λ n. read_octets (v * 2 ^ 8 + n) octets

unfoldable pub parse_v4 : Text → Option ℕ
parse_v4 s = let octets = split dot s in if length octets == 4 then read_octets 0 octets else none

-- One round of the last loop of `parseV6`: `V6_GROUP_RE`.
unfoldable pub hex_group : Text → Option ℕ
hex_group s =
    if leb 1 (length s) && leb (length s) 4 && all is_hex_digit s
    then some (parse_int 16 s)
    else none

unfoldable pub read_groups : ℕ → List Text → Option ℕ
read_groups v [] = some v
read_groups v (g ∷ groups) = hex_group g >>= λ n. read_groups (v * 2 ^ 16 + n) groups

abbrev pub pair : Text
pair = colon ∷ colon ∷ []

abbrev pub same_position : Option ℕ → Option ℕ → Bool
same_position none none = true
same_position none (some j) = false
same_position (some i) none = false
same_position (some i) (some j) = i == j

-- `head ? head.split(':') : []`
unfoldable pub colon_parts : Text → List Text
colon_parts s = if is_empty s then [] else split colon s

-- `[head, tail = '']` of a split
abbrev pub first_two : List Text → Text × Text
first_two [] = ([], [])
first_two (h ∷ []) = (h, [])
first_two (h ∷ (t ∷ rest)) = (h, t)

-- A trailing dotted quad, and the parts before it.
unfoldable pub take_trailing : Bool → List Text → List Text → Bool → Option (Option ℕ × List Text)
take_trailing has_pair tail_parts parts embedded =
    let last = last_or [] parts in
    if includes dot last
    then (if not embedded
        then none
        else if has_pair && length tail_parts == 0
        then none
        else (parse_v4 last >>= λ v. some (some v, drop_last parts)))
    else some (none, parts)

abbrev pub zero_text : Text
zero_text = codes "0"

-- The zero groups that `::` stands for.
unfoldable pub fill_zeros : Bool → ℕ → ℕ → List Text → Option (List Text)
fill_zeros has_pair heads group_count parts =
    let fill = group_count - length parts in
    if has_pair
    then (if ltb fill 1
        then none
        else some (take heads parts ++ (replicate fill zero_text ++ drop heads parts)))
    else some parts

-- `(v << 32n) + trailing`
abbrev pub with_trailing : ℕ → Option ℕ → ℕ
with_trailing v none = v
with_trailing v (some quad) = v * 2 ^ 32 + quad

abbrev pub group_count : Option ℕ → ℕ
group_count none = 8
group_count (some quad) = 6

unfoldable pub parse_parts : Bool → List Text → List Text → Bool → Option ℕ
parse_parts has_pair head_parts tail_parts embedded =
    take_trailing has_pair tail_parts (if has_pair then head_parts ++ tail_parts else head_parts)
      embedded
    >>= λ split_off.
        fill_zeros has_pair (length head_parts) (group_count split_off.0) split_off.1 >>= λ parts.
        check (length parts == group_count split_off.0)
        >> (read_groups 0 parts >>= λ v. some (with_trailing v split_off.0))

unfoldable pub parse_v6 : Text → Bool → Option ℕ
parse_v6 str embedded =
    if same_position (index_of pair str) (last_index_of pair str)
    then (let has_pair = is_some (index_of pair str) in
        let halves = if has_pair then first_two (split_pair colon str) else (str, []) in
        parse_parts has_pair (colon_parts halves.0) (colon_parts halves.1) embedded)
    else none

-- ::ffff:0:0/96, the IPv4-mapped range.
abbrev pub v4_mapped_prefix : ℕ
v4_mapped_prefix = 0xffff * 2 ^ 32

abbrev pub v4_mapped_last : ℕ
v4_mapped_last = v4_mapped_prefix + 0xffffffff

abbrev pub v4_mapped_mask : ℕ
v4_mapped_mask = 2 ^ 128 - 2 ^ 32

pub record ParsedIp : Type 0 where
  pub value : ℕ
  pub bits : ℕ
  pub zone_id : Option Text

pub record IpOptions : Type 0 where
  pub zone_id : Bool
  pub map_v4 : Bool
  pub embedded_v4 : Bool

abbrev pub default_options : IpOptions
default_options = record { zone_id = true; map_v4 = true; embedded_v4 = true }

unfoldable pub fold_mapped : IpOptions → Option Text → ℕ → ParsedIp
fold_mapped options zone v =
    if options.map_v4 && bit_and v v4_mapped_mask == v4_mapped_prefix
    then record { value = bit_and v 0xffffffff; bits = ipv4_bits; zone_id = zone }
    else record { value = v; bits = ipv6_bits; zone_id = zone }

-- The families, once the zone id is off.
unfoldable pub parse_address : IpOptions → Text → Option Text → Option ParsedIp
parse_address options s zone =
    if includes colon s
    then (parse_v6 s (options.embedded_v4 || options.map_v4) >>= λ v.
        some (fold_mapped options zone v))
    else if is_some zone
    then none
    else (parse_v4 s >>= λ v. some (record { value = v; bits = ipv4_bits; zone_id = none }))

unfoldable pub parse_zoned : IpOptions → Text → Option ℕ → Option ParsedIp
parse_zoned options s none = parse_address options s none
parse_zoned options s (some pct) =
    let zone = drop (suc pct) s in
    if not options.zone_id
    then none
    else if is_empty zone
    then none
    else parse_address options (take pct s) (some zone)

unfoldable pub parse_ip : IpOptions → Text → Option ParsedIp
parse_ip options str =
    let s = trim str in
    if is_empty s then none else parse_zoned options s (index_of (percent ∷ []) s)

-- 4 or 6
abbrev pub family_of : ℕ → ℕ
family_of bits = if bits == ipv4_bits then 4 else 6

unfoldable pub address_family : Text → Option ℕ
address_family str = parse_ip default_options str >>= λ parsed. some (family_of parsed.bits)

unfoldable pub is_valid_ip : Text → Bool
is_valid_ip str = is_some (parse_ip default_options str)

abbrev pub is_v6 : Option ParsedIp → Bool
is_v6 none = false
is_v6 (some parsed) = parsed.bits == ipv6_bits

unfoldable pub is_valid_ipv6 : Text → Bool
is_valid_ipv6 str = is_v6 (parse_ip default_options str)

-- Named on an `unfolding` line, it opens all of these for a test.
unfoldable pub address_runs : Unit {0}
unfolding text_runs octet read_octets parse_v4 hex_group read_groups colon_parts take_trailing
    fill_zeros parse_parts parse_v6 fold_mapped parse_address parse_zoned parse_ip address_family
    is_valid_ip is_valid_ipv6
address_runs = tt
