-- ===== src/Tests/Options.antt =====
-- The theorems on configuration values, DHCP options and scopes, at concrete ones.
use cidrella.Base.{
  ℕ, ◌≡◌, ◌≢◌, ◌↔◌, ◌⊎◌, refl, arith, true, false, not, none, some, List, [], ◌∷◌, All, length,
  Option,
}
use cidrella.Base.Text.{Text, codes, is_empty}
use cidrella.ConfigValue.{
  validate_config_safe_value, is_valid_ptr_name, is_valid_record_name, config_runs, comma,
}
use cidrella.ConfigValue.Safe.{IsField, validate_config_safe_value_iff}
use cidrella.DhcpCatalog.{DhcpOption, OptionType, select, by_code, option_catalog_for, has_code}
use cidrella.DhcpOptions.{
  is_option_code_allowed, is_valid_lease_time, lease_seconds, seconds, ScopeOption, whole, coerced,
  string, unset, chosen, is_lease_time, type_of, allows_comma, validate_scope_option, option_runs,
}
use cidrella.DhcpOptions.Lookup.{by_code_iff, is_displayed, catalog_consistent}
use cidrella.DhcpOptions.Accepted.{validate_scope_option-IsField}
use cidrella.Cidr.{Network, build_network, parse_network}
use cidrella.DhcpEffective.{Effective, effective_v4, effective_runs}
use cidrella.DhcpEffective.Chain.{router_of}
use cidrella.DhcpEffective.Composed.{v4_options-router, effective_v4-legacy_columns}
use cidrella.DhcpScope.{
  get, set_all, v4_merged, v4_options, network_values, Entry, Scope, Cached, scope_options,
  scope_runs,
}
use cidrella.DhcpScope.Served.{IsSound, AllServable, scope_options-AllServable}
use cidrella.DhcpScope.Resolver.{IsFresh, scope_options-uncached}
use cidrella.DhcpScope.Codes.{IsAscending}
use cidrella.DhcpScope.Ordering.{scope_options-IsAscending}

abbrev two_names : Text
two_names = codes "a.example,b.example"

validate_config_safe_value_iff_example :
    (validate_config_safe_value true false two_names ≡ none) ↔ IsField true false two_names
validate_config_safe_value_iff_example = validate_config_safe_value_iff true false two_names

two_names_refused : validate_config_safe_value false false two_names ≡ some comma
unfolding config_runs
two_names_refused = refl

abbrev pointer : Text
pointer = codes "5.1"

pointer_valid : is_valid_ptr_name pointer ≡ true
unfolding config_runs
pointer_valid = refl

abbrev host : Text
host = codes "www.eu."

host_valid : is_valid_record_name host ≡ true
unfolding config_runs
host_valid = refl

abbrev rapid : ℕ
rapid = 14

rapid_found : (o : DhcpOption) × (by_code (option_catalog_for 6).options rapid ≡ some o)
unfolding option_runs
rapid_found = (_, refl)

catalog_consistent_example :
    (is_option_code_allowed rapid_found.0.code 6 ≡ not rapid_found.0.built_in)
    × (is_displayed rapid_found.0.group ≡ true)
    × ((rapid_found.0.type ≡ select) ↔ (rapid_found.0.choices ≢ []))
catalog_consistent_example =
    catalog_consistent 6 rapid_found.0 ((by_code_iff 6 rapid rapid_found.0).0 rapid_found.1).0

abbrev half_day : Text
half_day = codes "12h"

half_day_valid : is_valid_lease_time half_day ≡ true
unfolding option_runs
half_day_valid = refl

half_day_seconds : lease_seconds half_day ≡ seconds 43200
unfolding option_runs
half_day_seconds = refl

abbrev lease_option : ScopeOption
lease_option = record { code = whole 51; value = string half_day; use_default = unset }

lease_option_valid : validate_scope_option (some lease_option) 4 ≡ none
unfolding option_runs
lease_option_valid = refl

half_day_filled : half_day ≢ []
half_day_filled e = cc

validate_scope_option-IsField_example :
    (code : ℕ) × ((coerced lease_option.code ≡ some code)
      × (is_option_code_allowed code 4 ≡ true)
      × (lease_option.use_default ≢ chosen true)
      × (IsField
          (allows_comma (type_of (by_code (option_catalog_for 4).options code)))
          false
          half_day)
      × ((is_lease_time code 4 ≡ false) ⊎ (is_valid_lease_time half_day ≡ true)))
validate_scope_option-IsField_example =
    validate_scope_option-IsField lease_option 4 half_day lease_option_valid refl half_day_filled

-- A resolver that finds one address for every IPv4 name.
abbrev resolver : ℕ → Text → Option Text
resolver family name = some (codes "192.0.2.7 STREAM")

abbrev no_custom : ℕ → Option OptionType
no_custom code = none

abbrev scope : Scope
scope = record {
  lease_time = half_day;
  gateway = [];
  dns_servers = none;
  domain_name = [];
  ntp_servers = none;
  domain_search = [];
  subnet_gateway = codes "192.0.2.1";
  subnet_domain_name = codes "lan";
  subnet_cidr = codes "192.0.2.0/24";
}

abbrev configured : List Entry
configured =
    record { code = 1; value = codes "255.255.255.0" }
    ∷ record { code = 6; value = codes "dns.example" }
    ∷ []

scope_options-AllServable_example :
    IsSound (scope_options resolver [] no_custom 4 scope configured []).0.0
    × AllServable 4 (scope_options resolver [] no_custom 4 scope configured []).0.1
scope_options-AllServable_example =
    scope_options-AllServable resolver [] no_custom 4 scope configured [] tt

-- The name is resolved, the router and the domain come from the network, and the mask is left out.
scope_codes : length (scope_options resolver [] no_custom 4 scope configured []).0.1 ≡ 4
unfolding scope_runs
scope_codes = refl

abbrev earlier : List Cached
earlier = record { family = 4; name = codes "dns.example"; found = some (codes "192.0.2.7") } ∷ []

earlier-IsFresh : IsFresh resolver earlier
unfolding scope_runs
earlier-IsFresh = (refl, tt)

scope_options-uncached_example :
    IsFresh resolver (scope_options resolver [] no_custom 4 scope configured earlier).0.0
    × ((scope_options resolver [] no_custom 4 scope configured earlier).0.1
        ≡ (scope_options resolver [] no_custom 4 scope configured []).0.1)
scope_options-uncached_example =
    scope_options-uncached resolver [] no_custom 4 scope configured earlier earlier-IsFresh

abbrev four : ℕ
four = 4

four_not_six : four ≢ 6
four_not_six e = omega (arith, e)

scope_options-IsAscending_example :
    IsAscending (scope_options resolver [] no_custom 6 scope configured []).0.1
    × All
        (λ o. has_code (option_catalog_for 6).internal_codes o.code ≡ false)
        (scope_options resolver [] no_custom 6 scope configured []).0.1
scope_options-IsAscending_example =
    scope_options-IsAscending resolver [] no_custom scope configured []

abbrev scope_net : Network
scope_net = build_network (record { value = 3221225984; bits = 32; family = 4 }) 24

scope_net_read : (parse_network scope.subnet_cidr ≡ some scope_net) × (scope_net.family ≡ 4)
unfolding effective_runs
scope_net_read = (refl, refl)

scope_effective : (e : Effective) × (effective_v4 [] [] scope ≡ some e)
unfolding effective_runs
scope_effective = (_, refl)

v4_options-router_example :
    (get (v4_options scope scope_effective.0.options).0 3 ≡ router_of scope.subnet_gateway)
    × (scope_effective.0.router_suppressed ≡ is_empty scope.subnet_gateway)
v4_options-router_example =
    v4_options-router [] [] scope scope_net scope_effective.0 scope_net_read.0 scope_net_read.1
      scope_effective.1

effective_v4-legacy_columns_example :
    v4_merged scope scope_effective.0.options
    ≡ network_values scope (set_all scope_effective.0.options [])
effective_v4-legacy_columns_example =
    effective_v4-legacy_columns [] [] scope scope_net scope_effective.0 scope_net_read.0
      scope_net_read.1 scope_effective.1

abbrev legacy_scope : Scope
legacy_scope = record scope { dns_servers = some (codes "192.0.2.53" ∷ []) }

-- A scope without rows, and with a DNS server in its column only, serves none.
legacy_dns :
    (e : Effective) × ((effective_v4 [] [] legacy_scope ≡ some e)
      × (get (v4_options legacy_scope e.options).0 6 ≡ none))
unfolding effective_runs
legacy_dns = (_, (refl, refl))
