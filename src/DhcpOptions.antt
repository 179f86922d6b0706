-- ===== src/DhcpOptions.antt =====
-- What may be set of the DHCP options: the functions of server/src/utils/dhcp-options.js, the lease
-- times of server/src/utils/lease-time.js, and the checks on requests in server/src/routes/dhcp.js.
pub mod Lookup
pub mod Accepted
use cidrella.Base.{
  ℕ, ◌+◌, ◌*◌, map, Bool, true, false, not, ◌&&◌, ◌||◌, Option, none, some, List, [], ◌∷◌, ◌++◌,
  ltb, leb, ◌==◌, if◌then◌else◌, any, all, length,
}
use cidrella.Base.Text.{
  lower_char, Text, codes, text_eq, is_empty, to_string, trim, is_digit, parse_int, text_runs,
}
use cidrella.ConfigValue.{ValueError, validate_config_safe_value, config_runs}
use cidrella.DhcpCatalog.{
  OptionType, ip, ip_list, text, text_list, number, select, flag, DhcpOption, dhcp_options,
  dhcp6_options, by_code, Catalog, catalog_v4, catalog_v6, option_catalog_for, has_code,
}

-- `byCode[code]?.builtIn`
abbrev built_in_label : Option DhcpOption → Option Text
built_in_label none = none
built_in_label (some o) = if o.built_in then some o.label else none

abbrev reason_for : ℕ → Option Text → Text
reason_for code none =
    codes "code " ++ (to_string 10 code ++ codes " is built by the DHCP server itself")
reason_for code (some label) =
    label ++ (codes " (" ++ (to_string 10 code ++ codes ") is always on and has nothing to set"))

unfoldable pub built_in_code_reason : ℕ → ℕ → Text
built_in_code_reason code family =
    reason_for code (built_in_label (by_code (option_catalog_for family).options code))

unfoldable pub is_allowed_in : Catalog → ℕ → Bool
is_allowed_in catalog code =
    leb 1 code && leb code catalog.max_code && not (has_code catalog.internal_codes code)

unfoldable pub is_option_code_allowed : ℕ → ℕ → Bool
is_option_code_allowed code family = is_allowed_in (option_catalog_for family) code

-- Lease times

-- `[smhd]?$` behind the digits
abbrev pub is_input_unit : Text → Bool
is_input_unit [] = true
is_input_unit (c ∷ []) = c == 115 || c == 109 || c == 104 || c == 100
is_input_unit (c ∷ (d ∷ s)) = false

-- The digits at the front, and what follows them.
unfoldable pub digits_of : Text → Text
digits_of [] = []
digits_of (c ∷ s) = let rest = digits_of s in if is_digit c then c ∷ rest else []

unfoldable pub after_digits : Text → Text
after_digits [] = []
after_digits (c ∷ s) = let rest = after_digits s in if is_digit c then rest else c ∷ s

-- `/^\d+[smhd]?$/`
unfoldable pub is_valid_lease_time : Text → Bool
is_valid_lease_time s = not (is_empty (digits_of s)) && is_input_unit (after_digits s)

-- `UNIT_SECONDS[match[2]]`, for a unit that `[smhdw]?$` matches.
unfoldable pub unit_seconds : Text → Option ℕ
unit_seconds [] = some 1
unit_seconds (c ∷ []) =
    if c == 115
    then some 1
    else if c == 109
    then some 60
    else if c == 104
    then some 3600
    else if c == 100
    then some 86400
    else if c == 119
    then some 604800
    else none
unit_seconds (c ∷ (d ∷ s)) = none

pub data Seconds : Type 0 where
  infinite not_a_number : Seconds
  seconds : ℕ → Seconds

abbrev times_unit : Text → Option ℕ → Seconds
times_unit digits none = not_a_number
times_unit digits (some unit) =
    if is_empty digits then not_a_number else seconds (parse_int 10 digits * unit)

unfoldable pub seconds_of : Text → Seconds
seconds_of raw =
    if text_eq raw (codes "infinite")
    then infinite
    else times_unit (digits_of raw) (unit_seconds (after_digits raw))

unfoldable pub lease_seconds : Text → Seconds
lease_seconds s = seconds_of (map lower_char (trim s))

unfoldable pub lease_duration_ms : Text → Seconds
lease_duration_ms s = elim (lease_seconds s) [
  | infinite ↦ infinite
  | not_a_number ↦ not_a_number
  | seconds n ↦ seconds (n * 1000)
]

-- The options in a request. A value of a request is absent or null, a text, or something else.
pub data Value : Type 0 where
  absent other : Value
  string : Text → Value

-- `undefined`, a Boolean, or something else.
pub data UseDefault : Type 0 where
  unset invalid : UseDefault
  chosen : Bool → UseDefault

-- A natural number, another value that `Number` reads as one, or anything else.
pub data Code : Type 0 where
  whole written : ℕ → Code
  no_code : Code

-- `Number(code)`, where that is a natural number.
abbrev pub coerced : Code → Option ℕ
coerced (whole n) = some n
coerced (written n) = some n
coerced no_code = none

-- The code itself, where `Number.isInteger` holds of it and it is not negative.
abbrev pub integer_code : Code → Option ℕ
integer_code (whole n) = some n
integer_code (written n) = none
integer_code no_code = none

pub record ScopeOption : Type 0 where
  pub code : Code
  pub value : Value
  pub use_default : UseDefault

pub data OptionError : Type 0 where
  not_an_object use_default_not_boolean default_with_value lease_time_default : OptionError
  value_not_string lease_time_format : OptionError
  code_out_of_range : ℕ → OptionError
  code_reserved : Text → OptionError
  unsafe_value : ValueError → OptionError

unfoldable pub option_code_error : Option ℕ → ℕ → Option OptionError
option_code_error none family = some (code_out_of_range (option_catalog_for family).max_code)
option_code_error (some code) family =
    let catalog = option_catalog_for family in
    if ltb code 1 || ltb catalog.max_code code
    then some (code_out_of_range catalog.max_code)
    else if is_option_code_allowed code family
    then none
    else some (code_reserved (built_in_code_reason code family))

-- `opt.value == null || opt.value === ''`
unfoldable pub is_blank : Value → Bool
is_blank absent = true
is_blank other = false
is_blank (string s) = is_empty s

abbrev pub type_of : Option DhcpOption → OptionType
type_of none = text
type_of (some o) = o.type

abbrev pub allows_comma : OptionType → Bool
allows_comma ip_list = true
allows_comma text_list = true
allows_comma type = false

abbrev pub unsafe : Option ValueError → Option OptionError
unsafe none = none
unsafe (some e) = some (unsafe_value e)

abbrev pub is_lease_time : ℕ → ℕ → Bool
is_lease_time code family = family == 4 && code == 51

-- The value of an option that does not use the default.
unfoldable pub own_value_error : ℕ → ℕ → Value → Option OptionError
own_value_error code family absent = none
own_value_error code family other = some value_not_string
own_value_error code family (string s) =
    if is_empty s
    then none
    else if is_lease_time code family && not (is_valid_lease_time s)
    then some lease_time_format
    else unsafe (
        validate_config_safe_value
          (allows_comma (type_of (by_code (option_catalog_for family).options code))) false s)

unfoldable pub default_use_error : ℕ → ℕ → Value → Option OptionError
default_use_error code family value =
    if not (is_blank value)
    then some default_with_value
    else if is_lease_time code family
    then some lease_time_default
    else none

abbrev pub use_error : ℕ → ℕ → Value → UseDefault → Option OptionError
use_error code family value invalid = some use_default_not_boolean
use_error code family value (chosen true) = default_use_error code family value
use_error code family value (chosen false) = own_value_error code family value
use_error code family value unset = own_value_error code family value

-- Behind the check of the code.
abbrev pub checked_option : Option OptionError → Option ℕ → ℕ → ScopeOption → Option OptionError
checked_option (some e) code family opt = some e
checked_option none none family opt = none
checked_option none (some code) family opt = use_error code family opt.value opt.use_default

-- `none` for what is no object.
unfoldable pub validate_scope_option : Option ScopeOption → ℕ → Option OptionError
validate_scope_option none family = some not_an_object
validate_scope_option (some opt) family =
    checked_option (option_code_error (coerced opt.code) family) (coerced opt.code) family opt

abbrev pub blank_or_scope : Option OptionError → ScopeOption → ℕ → Option OptionError
blank_or_scope (some e) opt family = some e
blank_or_scope none opt family =
    if is_blank opt.value then none else validate_scope_option (some opt) family

unfoldable pub validate_default_option : Option ScopeOption → ℕ → Option OptionError
validate_default_option none family = some not_an_object
validate_default_option (some opt) family =
    blank_or_scope (option_code_error (integer_code opt.code) family) opt family

-- The defaults editor: the options, `none` for what is no array, and the codes enabled by default.
pub data Enabled : Type 0 where
  not_given not_array : Enabled
  enabled : List Code → Enabled

pub data DefaultsError : Type 0 where
  options_not_array too_many_options enabled_not_array too_many_enabled enabled_code : DefaultsError
  default_option : OptionError → DefaultsError

abbrev is_enabled_code : ℕ → Option ℕ → Bool
is_enabled_code family none = false
is_enabled_code family (some code) = is_option_code_allowed code family

unfoldable pub enabled_error : ℕ → Enabled → Option DefaultsError
enabled_error family not_given = none
enabled_error family not_array = some enabled_not_array
enabled_error family (enabled cs) =
    if ltb 254 (length cs)
    then some too_many_enabled
    else if all (λ c. is_enabled_code family (integer_code c)) cs
    then none
    else some enabled_code

abbrev pub first_error : Option OptionError → Option DefaultsError → Option DefaultsError
first_error (some e) rest = some (default_option e)
first_error none rest = rest

-- The loop over the options, and what follows it.
unfoldable pub options_error :
    ℕ → List (Option ScopeOption) → Option DefaultsError → Option DefaultsError
options_error family [] after = after
options_error family (opt ∷ opts) after =
    first_error (validate_default_option opt family) (options_error family opts after)

unfoldable pub defaults_body_error :
    Option (List (Option ScopeOption)) → Enabled → ℕ → Option DefaultsError
defaults_body_error none defaults family = some options_not_array
defaults_body_error (some opts) defaults family =
    if ltb 254 (length opts)
    then some too_many_options
    else options_error family opts (enabled_error family defaults)

unfoldable pub option_runs : Unit {0}
unfolding dhcp_options dhcp6_options by_code catalog_v4 catalog_v6 option_catalog_for
    built_in_code_reason is_allowed_in is_option_code_allowed digits_of after_digits
    is_valid_lease_time unit_seconds seconds_of lease_seconds lease_duration_ms option_code_error
    is_blank own_value_error default_use_error validate_scope_option validate_default_option
    enabled_error options_error defaults_body_error text_runs config_runs
option_runs = tt
