-- ===== src/DhcpEffective.antt =====
-- What a scope serves, option by option, with where each value came from:
-- `resolveEffectiveScopeOptions` of server/src/models/dhcp-scope.js. The rows of the scope and of the
-- defaults are arguments.
pub mod Maps
pub mod Chain
pub mod Composed
use cidrella.Base.{
  ℕ, Bool, true, false, not, ◌&&◌, ◌||◌, Option, none, some, List, [], ◌∷◌, ◌==◌, if◌then◌else◌,
  ◌>>=◌,
}
use cidrella.Base.Text.{Text, is_empty, join}
use cidrella.Cidr.{Network, parse_network}
use cidrella.DhcpScope.{Entry, get, has, set, delete, Scope, text_or, sort_entries, scope_runs}

-- A row of `dhcp_scope_options`. One without a value follows the default.
pub record OptionRow : Type 0 where
  pub code : ℕ
  pub value : Option Text

pub data Source : Type 0 where
  from_default from_scope from_legacy from_network network_none : Source

pub record Provenance : Type 0 where
  pub code : ℕ
  pub source : Source

-- The two maps; of two entries of `provenance` for a code the first counts, which was set later.
pub record Resolved : Type 0 where
  pub values : List Entry
  pub provenance : List Provenance

abbrev pub empty_maps : Resolved
empty_maps = record { values = []; provenance = [] }

abbrev with_source : ℕ → Source → Resolved → List Provenance
with_source code source m = record { code = code; source = source } ∷ m.provenance

-- `set`, which passes over an empty value
unfoldable pub put : ℕ → Text → Source → Resolved → Resolved
put code value source m =
    if is_empty value
    then m
    else record { values = set m.values code value; provenance = with_source code source m }

abbrev pub put_some : ℕ → Option Text → Source → Resolved → Resolved
put_some code none source m = m
put_some code (some value) source m = put code value source m

-- `if (!values.has(code)) set(code, value, source)`
abbrev pub put_missing : ℕ → Text → Source → Resolved → Resolved
put_missing code value source m = if has m.values code then m else put code value source m

abbrev pub linked_at : ℕ → List Entry → ℕ → Resolved → Option Text → Resolved
linked_at family defaults code m (some value) = m
linked_at family defaults code m none =
    if family == 4 && code == 51 then m else put_some code (get defaults code) from_default m

-- The linked rows, with the defaults.
unfoldable pub put_linked : ℕ → List Entry → List OptionRow → Resolved → Resolved
put_linked family defaults [] m = m
put_linked family defaults (row ∷ rows) m =
    put_linked family defaults rows (linked_at family defaults row.code m row.value)

abbrev pub explicit_at : ℕ → ℕ → Resolved → Option Text → Resolved
explicit_at family code m none = m
explicit_at family code m (some value) =
    if family == 4 && code == 51 then m else put code value from_scope m

-- The rows with a value. IPv4 leaves out option 51.
unfoldable pub put_explicit : ℕ → List OptionRow → Resolved → Resolved
put_explicit family [] m = m
put_explicit family (row ∷ rows) m =
    put_explicit family rows (explicit_at family row.code m row.value)

abbrev pub has_explicit : List OptionRow → Bool
has_explicit [] = false
has_explicit (row ∷ rows) = explicit row.value || has_explicit rows
  where
    explicit : Option Text → Bool
    explicit none = false
    explicit (some value) = true

-- `legacyListValue`, of the array that `JSON.parse` reads in the column, if it does.
unfoldable pub legacy_list_value : Option (List Text) → Option Text
legacy_list_value none = none
legacy_list_value (some []) = none
legacy_list_value (some (s ∷ ss)) = some (join 44 (s ∷ ss))

abbrev pub legacy_v4 : Scope → Resolved → Resolved
legacy_v4 scope m = put 119 scope.domain_search from_legacy (
    put_some 42 (legacy_list_value scope.ntp_servers) from_legacy
      (put 15 scope.domain_name from_legacy (put 3 scope.gateway from_legacy m)))

abbrev pub put_mask : Network → Resolved → Resolved
put_mask parsed m =
    if parsed.family == 4
    then put 28 parsed.last from_network (put 1 parsed.mask from_network m)
    else m

-- The mask and broadcast of the network. `none` where `parseNetwork` throws.
unfoldable pub network_mask : Text → Resolved → Option Resolved
network_mask cidr m =
    if is_empty cidr then some m else parse_network cidr >>= λ parsed. some (put_mask parsed m)

unfoldable pub network_router : Text → Resolved → Resolved
network_router gateway m =
    if is_empty gateway
    then record { values = delete m.values 3; provenance = with_source 3 network_none m }
    else put 3 gateway from_network m

pub record Effective : Type 0 where
  pub lease_time : Text
  pub router_suppressed : Bool
  pub options : List Entry
  pub provenance : List Provenance

abbrev pub effective_of : Scope → Bool → Resolved → Effective
effective_of scope suppressed m = record {
  lease_time = scope.lease_time;
  router_suppressed = suppressed;
  options = sort_entries m.values;
  provenance = m.provenance;
}

abbrev pub domain_values : Scope → Resolved → Resolved
domain_values scope m =
    put_missing 119 scope.subnet_domain_name from_network
      (put_missing 15 scope.subnet_domain_name from_network m)

-- The values of the rows, and the legacy columns of an IPv4 scope without any.
unfoldable pub own_v4 : List OptionRow → List Entry → Scope → Resolved
own_v4 rows defaults scope =
    let m = put_explicit 4 rows (put_linked 4 defaults rows empty_maps) in
    if has_explicit rows then m else legacy_v4 scope m

-- Of a row that has the network's columns; the fallbacks on `scope.cidr` and `scope.gateway_address` are for
-- rows under other names.
unfoldable pub effective_v4 : List OptionRow → List Entry → Scope → Option Effective
effective_v4 rows defaults scope =
    network_mask scope.subnet_cidr (own_v4 rows defaults scope) >>= λ m. some (
      effective_of scope (is_empty scope.subnet_gateway)
        (domain_values scope (network_router scope.subnet_gateway m)))

unfoldable pub effective_v6 : List OptionRow → List Entry → Scope → Effective
effective_v6 rows defaults scope =
    let linked = put_linked 6 defaults rows empty_maps in
    let dns = put_some 23 (legacy_list_value scope.dns_servers) from_legacy linked in
    let search = put 24 scope.domain_search from_legacy dns in
    let ntp = put_some 56 (legacy_list_value scope.ntp_servers) from_legacy search in
    let own = put_explicit 6 rows ntp in
    effective_of scope false
      (put_missing 24 (text_or scope.domain_name scope.subnet_domain_name) from_network own)

unfoldable pub resolve_effective_scope_options :
    ℕ → List OptionRow → List Entry → Scope → Option Effective
resolve_effective_scope_options family rows defaults scope =
    if family == 6
    then some (effective_v6 rows defaults scope)
    else effective_v4 rows defaults scope

unfoldable pub effective_runs : Unit {0}
unfolding put put_linked put_explicit legacy_list_value network_mask network_router own_v4
    effective_v4 effective_v6 resolve_effective_scope_options scope_runs
effective_runs = tt
