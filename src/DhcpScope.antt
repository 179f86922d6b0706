-- ===== src/DhcpScope.antt =====
-- The options of a DHCP scope as every backend serves them: `loadDhcpScopes` of
-- server/src/backends/shared/dhcp-scope-model.js, for one scope.
pub mod Resolver
pub mod Served
pub mod Codes
pub mod Ordering
use cidrella.Base.{
  ℕ, Bool, true, false, not, ◌&&◌, ◌||◌, Option, none, some, List, [], ◌∷◌, ◌++◌, map, leb, ◌==◌,
  if◌then◌else◌, is_some, ◌>>=◌,
}
use cidrella.Base.Text.{Text, codes, text_eq, is_empty, split, join, trim, is_space, text_runs}
use cidrella.Address.{address_family}
use cidrella.Cidr.{is_valid_address, parse_network, parsed_network_contains, Network, cidr_runs}
use cidrella.ConfigValue.{validate_config_safe_value, config_runs}
use cidrella.DhcpCatalog.{
  OptionType, ip, ip_list, text, text_list, DhcpOption, by_code, option_catalog_for, has_code,
}
use cidrella.DhcpOptions.{option_runs}

-- A JavaScript `Map` from option codes to values, in the order of insertion.
pub record Entry : Type 0 where
  pub code : ℕ
  pub value : Text

unfoldable pub get : List Entry → ℕ → Option Text
get [] code = none
get (e ∷ es) code = let rest = get es code in if e.code == code then some e.value else rest

abbrev pub has : List Entry → ℕ → Bool
has es code = is_some (get es code)

-- A code that is there keeps its place.
unfoldable pub set : List Entry → ℕ → Text → List Entry
set [] code value = record { code = code; value = value } ∷ []
set (e ∷ es) code value =
    let rest = set es code value in
    if e.code == code then record { code = code; value = value } ∷ es else e ∷ rest

unfoldable pub delete : List Entry → ℕ → List Entry
delete [] code = []
delete (e ∷ es) code = let rest = delete es code in if e.code == code then rest else e ∷ rest

-- The columns that are read, with the empty text for null. The two server lists are the arrays that
-- `JSON.parse` reads in their columns, where it reads one. A row has the network's columns as `subnet_cidr`
-- and `subnet_gateway`, as `loadDhcpScopes` selects them.
pub record Scope : Type 0 where
  pub lease_time : Text
  pub gateway : Text
  pub dns_servers : Option (List Text)
  pub domain_name : Text
  pub ntp_servers : Option (List Text)
  pub domain_search : Text
  pub subnet_gateway : Text
  pub subnet_domain_name : Text
  pub subnet_cidr : Text

-- `if (value && !merged.has(code)) merged.set(code, value)`
abbrev pub set_missing : ℕ → Text → List Entry → List Entry
set_missing code value merged =
    if not (is_empty value) && not (has merged code) then set merged code value else merged

abbrev is_nil : List Text → Bool
is_nil [] = true
is_nil (s ∷ ss) = false

unfoldable pub set_server_list : ℕ → Option (List Text) → List Entry → List Entry
set_server_list code none merged = merged
set_server_list code (some servers) merged =
    if has merged code || is_nil servers then merged else set merged code (join 44 servers)

-- `for (const opt of effective.options) merged.set(opt.option_code, opt.value)`
unfoldable pub set_all : List Entry → List Entry → List Entry
set_all [] merged = merged
set_all (opt ∷ opts) merged = set_all opts (set merged opt.code opt.value)

-- `a || b`
abbrev pub text_or : Text → Text → Text
text_or a b = if is_empty a then b else a

unfoldable pub legacy_columns : Scope → List Entry → List Entry
legacy_columns scope merged =
    let router = set_missing 3 (text_or scope.gateway scope.subnet_gateway) merged in
    let dns = set_server_list 6 scope.dns_servers router in
    let domain = set_missing 15 scope.domain_name dns in
    let ntp = set_server_list 42 scope.ntp_servers domain in set_missing 119 scope.domain_search ntp

unfoldable pub network_values : Scope → List Entry → List Entry
network_values scope merged =
    set_missing 119 scope.subnet_domain_name
      (set_missing 15 scope.subnet_domain_name (set_missing 3 scope.subnet_gateway merged))

abbrev no_entry : List Entry → Bool
no_entry [] = true
no_entry (e ∷ es) = false

abbrev pub lease_of : Text → Option Text → Text
lease_of column none = column
lease_of column (some seconds) = seconds ++ codes "s"

-- The options of an IPv4 scope, and its lease time.
unfoldable pub v4_merged : Scope → List Entry → List Entry
v4_merged scope effective =
    let own = set_all effective [] in
    network_values scope (if no_entry effective then legacy_columns scope own else own)

unfoldable pub v4_options : Scope → List Entry → List Entry × Text
v4_options scope effective =
    let merged = v4_merged scope effective in
    let leased = if has merged 51 then delete merged 51 else merged in
    (delete (delete leased 1) 28, lease_of scope.lease_time (get merged 51))

-- An address of the host, as `os.networkInterfaces()` lists them.
pub record Interface : Type 0 where
  pub is_ipv6 : Bool
  pub internal : Bool
  pub address : Text

abbrev same_family : Bool → ℕ → Bool
same_family is_ipv6 family = if family == 6 then is_ipv6 else not is_ipv6

unfoldable pub first_inside : Network → List Interface → Option Text
first_inside parsed [] = none
first_inside parsed (i ∷ is) =
    let rest = first_inside parsed is in
    if same_family i.is_ipv6 parsed.family
      && not i.internal
      && parsed_network_contains parsed i.address
    then some i.address
    else rest

unfoldable pub get_server_ip_for_subnet : List Interface → Text → Option Text
get_server_ip_for_subnet interfaces cidr =
    parse_network cidr >>= λ parsed. first_inside parsed interfaces

-- `if (value) merged.set(23, value)`
abbrev set_some : ℕ → Option Text → List Entry → List Entry
set_some code none merged = merged
set_some code (some value) merged = if is_empty value then merged else set merged code value

unfoldable pub set_filled : List Entry → List Entry → List Entry
set_filled [] merged = merged
set_filled (opt ∷ opts) merged =
    set_filled opts (if is_empty opt.value then merged else set merged opt.code opt.value)

unfoldable pub without_codes : List ℕ → List Entry → List Entry
without_codes internal [] = []
without_codes internal (e ∷ es) =
    let rest = without_codes internal es in if has_code internal e.code then rest else e ∷ rest

-- `sort((a, b) => a[0] - b[0])`, which is stable.
unfoldable pub insert_entry : Entry → List Entry → List Entry
insert_entry e [] = e ∷ []
insert_entry e (f ∷ es) =
    let rest = insert_entry e es in if leb e.code f.code then e ∷ (f ∷ es) else f ∷ rest

unfoldable pub sort_entries : List Entry → List Entry
sort_entries [] = []
sort_entries (e ∷ es) = insert_entry e (sort_entries es)

unfoldable pub v6_options : List Interface → Scope → List Entry → List Entry
v6_options interfaces scope effective =
    let own = set_filled effective [] in
    let server = get_server_ip_for_subnet interfaces scope.subnet_cidr in
    let merged = if has own 23 then own else set_some 23 server own in
    sort_entries (without_codes (option_catalog_for 6).internal_codes merged)

-- The addresses found so far, by family and name.
pub record Cached : Type 0 where
  pub family : ℕ
  pub name : Text
  pub found : Option Text

unfoldable pub cached : List Cached → Text → ℕ → Option (Option Text)
cached [] value family = none
cached (c ∷ cs) value family =
    let rest = cached cs value family in
    if c.family == family && text_eq c.name value then some c.found else rest

abbrev pub in_family : ℕ → Option ℕ → Bool
in_family family none = false
in_family family (some f) = f == family

-- The value itself, or null unless its family is the one asked for.
unfoldable pub keep_family : Text → ℕ → Option Text
keep_family s family =
    if is_valid_address s && in_family family (address_family s) then some s else none

-- The first line, up to white space.
unfoldable pub first_word : Text → Text
first_word [] = []
first_word (c ∷ s) = let rest = first_word s in if is_space c then [] else c ∷ rest

abbrev pub address_of : Option Text → ℕ → Option Text
address_of none family = none
address_of (some out) family = keep_family (first_word out) family

-- What `getent` prints for a family and a name, if it does not fail.
module _ (getent : ℕ → Text → Option Text) where
  abbrev looked_up : List Cached → Text → ℕ → Option (Option Text) → List Cached × Option Text
  looked_up cache value family (some found) = (cache, found)
  looked_up cache value family none =
      let found = address_of (getent family value) family in
      (record { family = family; name = value; found = found } ∷ cache, found)

  -- An address, from its text or its name, and the cache behind it.
  unfoldable pub resolve_to_ip : List Cached → Text → ℕ → List Cached × Option Text
  resolve_to_ip cache value family =
      if is_valid_address value
      then (cache, keep_family value family)
      else looked_up cache value family (cached cache value family)

pub data Content : Type 0 where
  addresses : List Text → Content
  plain : Text → Content

pub record ServedOption : Type 0 where
  pub code : ℕ
  pub type : OptionType
  pub custom : Bool
  pub content : Content

abbrev pub takes_address : OptionType → Bool
takes_address ip = true
takes_address ip_list = true
takes_address type = false

abbrev pub is_text_list : OptionType → Bool
is_text_list text_list = true
is_text_list type = false

abbrev pub keep_some : Option Text → List Text → List Text
keep_some none found = found
keep_some (some s) found = s ∷ found

abbrev pub is_none : {A : Type 0} → Option A → Bool
is_none o = not (is_some o)

unfoldable pub address_content : List Text → Option Content
address_content found =
    if not (is_nil found) && is_none (validate_config_safe_value true false (join 44 found))
    then some (addresses found)
    else none

unfoldable pub text_content : OptionType → Text → Option Content
text_content type value =
    if is_none (validate_config_safe_value (is_text_list type) false value)
    then some (plain value)
    else none

-- The type of an option from the catalog, or else of a custom one.
unfoldable pub served_type :
    (ℕ → Option OptionType) → Option DhcpOption → ℕ → Option (OptionType × Bool)
served_type custom none code = custom code >>= λ type. some (type, true)
served_type custom (some o) code = some (o.type, false)

abbrev pub cons_served :
    ℕ → OptionType × Bool → Option Content → List ServedOption → List ServedOption
cons_served code type none served = served
cons_served code (type, custom) (some content) served =
    record { code = code; type = type; custom = custom; content = content } ∷ served

module _ (getent : ℕ → Text → Option Text) where
  -- The parts of a value resolved in turn, those without an address left out.
  unfoldable pub resolve_all : List Cached → List Text → ℕ → List Cached × List Text
  resolve_all cache [] family = (cache, [])
  resolve_all cache (part ∷ parts) family =
      let (cache', found) = resolve_to_ip getent cache (trim part) family in
      let (cache'', rest) = resolve_all cache' parts family in (cache'', keep_some found rest)

  unfoldable pub option_value : List Cached → Text → OptionType → ℕ → List Cached × Option Content
  option_value cache value type family =
      let (cache', found) = resolve_all cache (split 44 value) family in
      if takes_address type
      then (cache', address_content found)
      else (cache, text_content type value)

  module _ (custom : ℕ → Option OptionType) (family : ℕ) where
    abbrev pub serve_entry :
        List Cached
        → Entry
        → Option (OptionType × Bool)
        → List Cached × (List ServedOption → List ServedOption)
    serve_entry cache e none = (cache, λ rest. rest)
    serve_entry cache e (some type) =
        let (cache', content) = option_value cache e.value type.0 family in
        if is_empty e.value
        then (cache, λ rest. rest)
        else (cache', cons_served e.code type content)

    -- The loop over the options of a scope.
    unfoldable pub serve : List Cached → List Entry → List Cached × List ServedOption
    serve cache [] = (cache, [])
    serve cache (e ∷ es) =
        let (cache', add) =
          serve_entry cache e
            (served_type custom (by_code (option_catalog_for family).options e.code) e.code) in
        let (cache'', rest) = serve cache' es in (cache'', add rest)

  -- A scope's options, from the effective ones, and its lease time.
  unfoldable pub scope_options :
      List Interface
      → (ℕ → Option OptionType)
      → ℕ
      → Scope
      → List Entry
      → List Cached
      → (List Cached × List ServedOption) × Text
  scope_options interfaces custom family scope effective cache =
      let (four, lease) = v4_options scope effective in
      if family == 6
      then (serve custom family cache (v6_options interfaces scope effective), scope.lease_time)
      else (serve custom family cache four, lease)

unfoldable pub scope_runs : Unit {0}
unfolding get set delete set_server_list set_all legacy_columns network_values v4_merged v4_options
    first_inside get_server_ip_for_subnet set_filled without_codes insert_entry sort_entries
    v6_options cached keep_family first_word resolve_to_ip address_content text_content served_type
    resolve_all option_value serve scope_options option_runs cidr_runs config_runs
scope_runs = tt
