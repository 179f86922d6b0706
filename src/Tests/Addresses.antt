-- ===== src/Tests/Addresses.antt =====
-- The theorems on addresses, at concrete texts and numbers.
use cidrella.Base.{ℕ, ◌+◌, ◌*◌, ◌^◌, ◌≡◌, ◌↔◌, refl, arith, inr, true, some, none, ◌++◌}
use cidrella.Base.Text.{Text, codes}
use cidrella.Address.{ipv4_bits, ipv6_bits, ParsedIp, default_options, parse_ip, address_runs}
use cidrella.Address.Format.{format_ip, canonicalize_ip, sort_key, format_runs}
use cidrella.Address.RoundTrip.{parse_ip-format_v6}
use cidrella.Address.Bounds.{IsAddress, parse_ip-IsAddress}
use cidrella.Address.Canonical.{canonicalize_ip-eq_iff}
use cidrella.Address.SortKey.{Precedes, text_ltb, sort_key-order}

abbrev loopback_v4 : Text
loopback_v4 = codes "127.0.0.1"

abbrev link_local : Text
link_local = codes "FE80:0::1%eth0"

abbrev link_local_number : ℕ
link_local_number = 0xfe80 * 2 ^ 112 + 1

abbrev parsed_v4 : ParsedIp
parsed_v4 = record { value = 2130706433; bits = ipv4_bits; zone_id = none }

abbrev parsed_v6 : ParsedIp
parsed_v6 = record { value = link_local_number; bits = ipv6_bits; zone_id = some (codes "eth0") }

reads_v4 : parse_ip default_options loopback_v4 ≡ some parsed_v4
unfolding address_runs
reads_v4 = refl

reads_v6 : parse_ip default_options link_local ≡ some parsed_v6
unfolding address_runs
reads_v6 = refl

canonical_v6 : canonicalize_ip link_local ≡ some (codes "fe80::1")
unfolding format_runs
canonical_v6 = refl

key_v4 : sort_key loopback_v4 ≡ some (codes "4000000000000000000000000" ++ codes "7f000001")
unfolding format_runs
key_v4 = refl

key_v6 : sort_key link_local ≡ some (codes "6fe80000000000000" ++ codes "0000000000000001")
unfolding format_runs
key_v6 = refl

parse_ip-format_v6_example :
    parse_ip default_options (format_ip link_local_number ipv6_bits)
    ≡ some (record { value = link_local_number; bits = ipv6_bits; zone_id = none })
parse_ip-format_v6_example =
    parse_ip-format_v6 default_options link_local_number (omega arith) (inr (inr (omega arith)))

parse_ip-IsAddress_example : IsAddress default_options parsed_v6
parse_ip-IsAddress_example = parse_ip-IsAddress default_options link_local parsed_v6 reads_v6

canonicalize_ip-eq_iff_example :
    (canonicalize_ip loopback_v4 ≡ canonicalize_ip link_local)
    ↔ ((parsed_v4.value ≡ parsed_v6.value) × (parsed_v4.bits ≡ parsed_v6.bits))
canonicalize_ip-eq_iff_example =
    canonicalize_ip-eq_iff loopback_v4 link_local parsed_v4 parsed_v6 reads_v4 reads_v6

sort_key-order_example :
    (text_ltb
        (codes "4000000000000000000000000" ++ codes "7f000001")
        (codes "6fe80000000000000" ++ codes "0000000000000001")
      ≡ true)
    ↔ Precedes parsed_v4 parsed_v6
sort_key-order_example =
    sort_key-order loopback_v4 link_local (codes "4000000000000000000000000" ++ codes "7f000001")
      (codes "6fe80000000000000" ++ codes "0000000000000001") parsed_v4 parsed_v6 key_v4 key_v6
      reads_v4 reads_v6
