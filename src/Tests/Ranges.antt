-- ===== src/Tests/Ranges.antt =====
-- The theorems on allowlist entries, reserved ranges and the range history, at concrete texts.
use cidrella.Base.{
  ◌-◌, ◌*◌, ◌^◌, ◌≡◌, ◌↔◌, refl, arith, true, false, not, ◌&&◌, ◌||◌, if◌then◌else◌, some, none, [],
  ◌∷◌, All,
}
use cidrella.Base.Text.{codes}
use cidrella.Address.{ParsedIp, parse_ip}
use cidrella.Cidr.{BigAddress, build_network, parse_network, cidr_runs}
use cidrella.Cidr.Divide.Split.{IsClear}
use cidrella.Cidr.Reserved.{
  in_bounds, validate_network_bounds, is_globally_routable_cidr, reserved_runs,
}
use cidrella.Cidr.Reserved.Fitting.{Fits, reserved_networks, validate_network_bounds_iff}
use cidrella.Allowlist.{
  strict, CidrEntry, parse_cidr_entry, canonicalize_ip_or_cidr, ip_matches_entry, allowlist_runs,
}
use cidrella.Allowlist.Matching.{InEntry, ip_matches_entry_iff}
use cidrella.Allowlist.Canonical.{canonicalize_ip_or_cidr-eq_iff}
use cidrella.RangeHistory.{Interval, range_assigned, range_unassigned, uncovered, coverage_changes}
use cidrella.RangeHistory.Cutting.{times, covers, covered_by, times-uncovered}
use cidrella.RangeHistory.Replay.{changed, coverage_changes-replay}

abbrev host : ParsedIp
host = record { value = 168101382; bits = 32; zone_id = none }

abbrev office : CidrEntry
office = record { bits = 32; network = 167772160; mask = 4278190080; prefix = 8 }

abbrev lab : CidrEntry
lab = record { bits = 128; network = 0x20010db8 * 2 ^ 96; mask = 2 ^ 128 - 2 ^ 96; prefix = 32 }

host_read : parse_ip strict (codes "10.5.6.6") ≡ some host
unfolding allowlist_runs
host_read = refl

office_read : parse_cidr_entry (codes " 010.1.2.3/8") ≡ some office
unfolding allowlist_runs
office_read = refl

lab_read : parse_cidr_entry (codes "2001:DB8::1/32") ≡ some lab
unfolding allowlist_runs
lab_read = refl

ip_matches_entry_iff_example :
    (ip_matches_entry (codes "10.5.6.6") office ≡ true) ↔ InEntry office host
ip_matches_entry_iff_example =
    ip_matches_entry_iff (codes "10.5.6.6") (codes " 010.1.2.3/8") host office host_read office_read

canonicalize_ip_or_cidr-eq_iff_example :
    (canonicalize_ip_or_cidr (codes " 010.1.2.3/8")
      ≡ canonicalize_ip_or_cidr (codes "2001:DB8::1/32"))
    ↔ (office ≡ lab)
canonicalize_ip_or_cidr-eq_iff_example =
    canonicalize_ip_or_cidr-eq_iff (codes " 010.1.2.3/8") (codes "2001:DB8::1/32") office lab
      office_read lab_read

abbrev private_16 : BigAddress
private_16 = record { value = 167837696; bits = 32; family = 4 }

private_read : parse_network (codes "10.1.0.0/16") ≡ some (build_network private_16 16)
unfolding cidr_runs
private_read = refl

validate_network_bounds_iff_example :
    (validate_network_bounds (codes "10.1.0.0/16") ≡ some in_bounds) ↔ (
      IsClear (build_network private_16 16)
      × All (Fits (build_network private_16 16)) reserved_networks)
validate_network_bounds_iff_example =
    validate_network_bounds_iff (codes "10.1.0.0/16") (build_network private_16 16) private_read

-- The bounds of concrete supernets, and what is routable.
bounds_tests :
    (validate_network_bounds (codes "10.1.0.0/16") ≡ some in_bounds)
    × (validate_network_bounds (codes "8.8.8.0/24") ≡ some in_bounds)
    × (is_globally_routable_cidr (codes "8.8.8.0/24") ≡ some true)
    × (is_globally_routable_cidr (codes "fe80::/64") ≡ some false)
    × (is_globally_routable_cidr (codes "::fffe:0:0/95") ≡ some true)
unfolding reserved_runs
bounds_tests = (refl, refl, refl, refl, refl)

abbrev wide : Interval
wide = record { id = 1; type = codes "Servers"; family = 4; start = 10; end = 40 }

abbrev middle : Interval
middle = record { id = 2; type = codes "Servers"; family = 4; start = 20; end = 24 }

times-uncovered_example : times (codes "Servers") 4 30 (uncovered wide (middle ∷ [])) ≡ (
    if covers (codes "Servers") 4 30 wide && not (covered_by (codes "Servers") 4 30 (middle ∷ []))
    then 1
    else 0)
times-uncovered_example =
    times-uncovered (codes "Servers") 4 30 wide (middle ∷ []) (omega arith, tt)

coverage_changes-replay_example : covered_by (codes "Servers") 4 22 (middle ∷ []) ≡ (
    changed range_assigned (codes "Servers") 4 22 (coverage_changes (wide ∷ []) (middle ∷ []))
    || (covered_by (codes "Servers") 4 22 (wide ∷ [])
        && not (
            changed range_unassigned
              (codes "Servers")
              4
              22
              (coverage_changes (wide ∷ []) (middle ∷ [])))))
coverage_changes-replay_example =
    coverage_changes-replay (codes "Servers") 4 22 (wide ∷ []) (middle ∷ []) (omega arith, tt)
      (omega arith, tt)
