-- ===== src/DhcpCatalog.antt =====
-- The catalogs of DHCP options, server/src/utils/dhcp-options.js.
pub mod Entries
pub mod V4
pub mod Ancient
pub mod V6
use Prim.Native.String.{String}
use cidrella.Base.{ℕ, Bool, true, Option, none, some, List, [], ◌∷◌, ◌++◌, any, ◌==◌, if◌then◌else◌}
use cidrella.Base.Text.{Text, codes}
pub use Entries.*
use V4.{common_options, network_options, dns_options, time_options, boot_options, netbios_options}
use Ancient.{ancient_options_first, ancient_options_middle, ancient_options_last}
use V6.{common_options_v6, network_options_v6, time_options_v6, boot_options_v6}

pub record OptionGroup : Type 0 where
  pub name : Text
  pub label : Text

abbrev option_group : String → String → OptionGroup
option_group name label = record { name = codes name; label = codes label }

-- The groups, in the order of display.
abbrev pub dhcp_option_groups : List OptionGroup
dhcp_option_groups =
    option_group "Common" "Common"
    ∷ option_group "Network" "Network"
    ∷ option_group "DNS" "DNS"
    ∷ option_group "Time" "Time"
    ∷ option_group "Boot/PXE" "Boot / PXE"
    ∷ option_group "NetBIOS" "NetBIOS"
    ∷ option_group "Custom" "Custom"
    ∷ option_group "Ancient History" "Ancient History"
    ∷ []

unfoldable pub dhcp_options : List DhcpOption
dhcp_options =
    common_options
    ++ (network_options
        ++ (dns_options
            ++ (time_options
                ++ (boot_options
                    ++ (netbios_options
                        ++ (ancient_options_first
                            ++ (ancient_options_middle ++ ancient_options_last)))))))

unfoldable pub dhcp6_options : List DhcpOption
dhcp6_options = common_options_v6 ++ (network_options_v6 ++ (time_options_v6 ++ boot_options_v6))

-- `Object.fromEntries(options.map((o) => [o.code, o]))[code]`: of two entries with one code, the later.
abbrev pub later_entry : Option DhcpOption → ℕ → DhcpOption → Option DhcpOption
later_entry (some o) code here = some o
later_entry none code here = if here.code == code then some here else none

unfoldable pub by_code : List DhcpOption → ℕ → Option DhcpOption
by_code [] code = none
by_code (o ∷ os) code = later_entry (by_code os code) code o

pub record LegacyColumn : Type 0 where
  pub column : Text
  pub code : ℕ

abbrev legacy : String → ℕ → LegacyColumn
legacy column code = record { column = codes column; code = code }

abbrev pub legacy_column_map : List LegacyColumn
legacy_column_map =
    legacy "gateway" 3
    ∷ legacy "dns_servers" 6
    ∷ legacy "domain_name" 15
    ∷ legacy "ntp_servers" 42
    ∷ legacy "domain_search" 119
    ∷ []

-- The codes that the DHCP server builds itself.
abbrev pub dhcp6_internal_codes : List ℕ
dhcp6_internal_codes = 1 ∷ 2 ∷ 3 ∷ 4 ∷ 5 ∷ 6 ∷ 7 ∷ 12 ∷ 13 ∷ 14 ∷ 15 ∷ 16 ∷ 17 ∷ 39 ∷ []

pub record Catalog : Type 0 where
  pub family : ℕ
  pub options : List DhcpOption
  pub max_code : ℕ
  pub custom_min : ℕ
  pub custom_max : ℕ
  pub internal_codes : List ℕ
  pub prefix : Text

unfoldable pub catalog_v4 : Catalog
catalog_v4 = record {
  family = 4;
  options = dhcp_options;
  max_code = 254;
  custom_min = 128;
  custom_max = 254;
  internal_codes = [];
  prefix = codes "option:";
}

unfoldable pub catalog_v6 : Catalog
catalog_v6 = record {
  family = 6;
  options = dhcp6_options;
  max_code = 65535;
  custom_min = 1;
  custom_max = 65535;
  internal_codes = dhcp6_internal_codes;
  prefix = codes "option6:";
}

-- Any family but 6 is IPv4.
unfoldable pub option_catalog_for : ℕ → Catalog
option_catalog_for family = if family == 6 then catalog_v6 else catalog_v4

-- `internalCodes.has(code)`
abbrev pub has_code : List ℕ → ℕ → Bool
has_code codes code = any (λ c. c == code) codes
