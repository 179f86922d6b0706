-- ===== src/Tests/Pools.antt =====
-- The theorems on DHCP pools and on the IPv4 layer, at concrete networks.
use cidrella.Base.{ℕ, ◌+◌, ◌*◌, ◌^◌, ◌≤◌, ◌<◌, ◌≡◌, refl, arith, inr, some}
use cidrella.Base.Text.{Text, codes}
use cidrella.Cidr.{Network, build_network, parse_network, big_to_address, cidr_runs}
use cidrella.Cidr.Wellformed.{parse_network-IsNetwork}
use cidrella.DhcpPool.{
  Pool, gateway_value, default_dhcp_pool_for_subnet, default_dhcp_v6_pool_for_subnet, pool_runs,
}
use cidrella.DhcpPool.V4.{Serves, default_dhcp_pool_for_subnet-Serves}
use cidrella.DhcpPool.V6.{IsPart, whole_pool, default_dhcp_v6_pool_for_subnet-IsPart}

abbrev lan_text : Text
lan_text = codes "192.168.1.0/24"

abbrev lan : Network
lan = build_network (record { value = 3232235776; bits = 32; family = 4 }) 24

lan_read : parse_network lan_text ≡ some lan
unfolding cidr_runs
lan_read = refl

lan_four : lan.family ≡ 4
unfolding cidr_runs
lan_four = refl

lan_prefix : lan.prefix ≡ 24
unfolding cidr_runs
lan_prefix = refl

default_dhcp_pool_for_subnet-Serves_example :
    (p : Pool) × ((default_dhcp_pool_for_subnet lan (some 3232235777) ≡ some p)
      × Serves lan (some 3232235777) p)
default_dhcp_pool_for_subnet-Serves_example =
    default_dhcp_pool_for_subnet-Serves lan (some 3232235777)
      (parse_network-IsNetwork lan_text lan lan_read) lan_four (omega (arith, lan_prefix))
      (omega (arith, lan_prefix))

-- A gateway at the end of the IPv4 pool is left out of it; inside, away from the ends, it stays.
middle_gateway :
    (default_dhcp_pool_for_subnet lan (some 3232235840)
      ≡ some (record { start = 3232235776 + 33; end = 3232235776 + 63 }))
    × (default_dhcp_pool_for_subnet lan (some 3232235820)
        ≡ some (record { start = 3232235776 + 33; end = 3232235776 + 64 }))
unfolding pool_runs
middle_gateway = (refl, refl)

abbrev prefix_text : Text
prefix_text = codes "2001:db8::/64"

abbrev prefix_64 : Network
prefix_64 = build_network (record { value = 0x20010db8 * 2 ^ 96; bits = 128; family = 6 }) 64

prefix_read : parse_network prefix_text ≡ some prefix_64
unfolding cidr_runs
prefix_read = refl

gateway_read :
    gateway_value (some (codes "2001:db8::1234")) ≡ some (some (0x20010db8 * 2 ^ 96 + 0x1234))
unfolding pool_runs
gateway_read = refl

prefix_facts :
    (prefix_64.family ≡ 6) × (prefix_64.prefix ≡ 64) × (prefix_64.network_big ≡ 0x20010db8 * 2 ^ 96)
unfolding cidr_runs
prefix_facts = (refl, refl, refl)

default_dhcp_v6_pool_for_subnet-IsPart_example :
    (p : Pool) × ((default_dhcp_v6_pool_for_subnet prefix_64 (some (codes "2001:db8::1234"))
        ≡ some (
            some (record { start_ip = big_to_address p.start 6; end_ip = big_to_address p.end 6 })))
      × IsPart (some (0x20010db8 * 2 ^ 96 + 0x1234)) (whole_pool prefix_64) p
      × (prefix_64.network_big < p.start)
      × (p.end ≤ prefix_64.last_big))
default_dhcp_v6_pool_for_subnet-IsPart_example =
    default_dhcp_v6_pool_for_subnet-IsPart prefix_text prefix_64 (some (codes "2001:db8::1234"))
      (some (0x20010db8 * 2 ^ 96 + 0x1234)) prefix_read prefix_facts.0
      (inr (inr (omega (arith, prefix_facts.2)))) (omega (arith, prefix_facts.1))
      (omega (arith, prefix_facts.1)) gateway_read

abbrev ninety_six : ℕ
ninety_six = 96
