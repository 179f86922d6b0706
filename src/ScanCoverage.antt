-- ===== src/ScanCoverage.antt =====
-- Which networks are scanned, server/src/utils/scan-coverage.js. The predicates for the database are given
-- as what they say of a row.
pub mod Intervals
use cidrella.Base.{
  ℕ, ◌*◌, Bool, true, false, not, ◌&&◌, ◌||◌, Option, none, some, List, [], ◌∷◌, ltb, ◌==◌,
  if◌then◌else◌, all, any, is_some, ◌>>=◌,
}
use cidrella.Base.Text.{Text, codes, text_eq, is_empty, is_digit, parse_int, trim, text_runs}
use cidrella.Cidr.Reserved.{is_globally_routable_cidr, reserved_runs}

-- An entry of `INTERVAL_MS`
pub record ScanInterval : Type 0 where
  pub key : Text
  pub ms : Option ℕ

unfoldable pub interval_ms : List ScanInterval
interval_ms =
    record { key = []; ms = none }
    ∷ record { key = codes "off"; ms = none }
    ∷ record { key = codes "5m"; ms = some (5 * 60 * 1000) }
    ∷ record { key = codes "15m"; ms = some (15 * 60 * 1000) }
    ∷ record { key = codes "30m"; ms = some (30 * 60 * 1000) }
    ∷ record { key = codes "1h"; ms = some (60 * 60 * 1000) }
    ∷ record { key = codes "4h"; ms = some (4 * 60 * 60 * 1000) }
    ∷ []

unfoldable pub keys_with_ms : List ScanInterval → List Text
keys_with_ms [] = []
keys_with_ms (i ∷ is) = let rest = keys_with_ms is in if is_some i.ms then i.key ∷ rest else rest

unfoldable pub scanning_interval_keys : List Text
scanning_interval_keys = keys_with_ms interval_ms

-- Minutes, as older installations stored them.
abbrev positive_ms : ℕ → Option ℕ
positive_ms minutes = if ltb 0 minutes then some (minutes * 60 * 1000) else none

unfoldable pub minutes_ms : Text → Option ℕ
minutes_ms raw =
    if not (is_empty raw) && all is_digit raw then positive_ms (parse_int 10 raw) else none

unfoldable pub interval_in : List ScanInterval → Text → Option ℕ
interval_in [] raw = minutes_ms raw
interval_in (i ∷ is) raw = let rest = interval_in is raw in if text_eq raw i.key then i.ms else rest

unfoldable pub interval_to_ms : Option Text → Option ℕ
interval_to_ms none = none
interval_to_ms (some value) = interval_in interval_ms (trim value)

-- `TRIM(x)` of SQLite takes spaces off, and nothing else.
unfoldable pub sql_trim_start : Text → Text
sql_trim_start [] = []
sql_trim_start (c ∷ s) = if c == 32 then sql_trim_start s else c ∷ s

unfoldable pub sql_trim_end : Text → Text
sql_trim_end [] = []
sql_trim_end (c ∷ s) =
    let rest = sql_trim_end s in if c == 32 && is_empty rest then [] else c ∷ rest

unfoldable pub sql_trim : Text → Text
sql_trim s = sql_trim_end (sql_trim_start s)

-- The part of `scannerCoveredSql` on the interval, of its trimmed text.
unfoldable pub names_interval : Text → Bool
names_interval raw =
    any (λ k. text_eq raw k) scanning_interval_keys
    || (not (is_empty raw) && all is_digit raw && ltb 0 (parse_int 10 raw))

unfoldable pub covered_interval : Option Text → Bool
covered_interval none = false
covered_interval (some value) = names_interval (sql_trim value)

-- `scanBoolean` of a value that was read: a flag, a number, a text or something else.
pub data Toggle : Type 0 where
  flag : Bool → Toggle
  number : ℕ → Toggle
  text : Text → Toggle
  unset : Toggle

unfoldable pub scan_boolean : Toggle → Option Bool
scan_boolean (flag b) = some b
scan_boolean (number n) = if n == 1 then some true else if n == 0 then some false else none
scan_boolean (text s) =
    if text_eq s (codes "1") || text_eq s (codes "true")
    then some true
    else if text_eq s (codes "0") || text_eq s (codes "false")
    then some false
    else none
scan_boolean unset = none

unfoldable pub known_or : Option Bool → Bool → Bool
known_or none b = b
known_or (some a) b = a

unfoldable pub resolve_scanning_enabled : Toggle → Toggle → Toggle → Bool
resolve_scanning_enabled ip_override subnet_override global_default =
    known_or (scan_boolean ip_override)
      (known_or (scan_boolean subnet_override) (known_or (scan_boolean global_default) true))

-- A network's row: its family, its own override, and the text of the network.
pub record ScanSubnet : Type 0 where
  pub address_family : ℕ
  pub scan_enabled : Option ℕ
  pub cidr : Text

abbrev is_switched_on : Option ℕ → Bool
is_switched_on none = false
is_switched_on (some n) = n == 1

-- `isGloballyRoutableCidr` throws for a text that is no network.
unfoldable pub is_automatic_scan_allowed : ScanSubnet → Bool → Option Bool
is_automatic_scan_allowed subnet ipv6 =
    if subnet.address_family == 6 && not ipv6
    then some false
    else if is_switched_on subnet.scan_enabled
    then some true
    else is_globally_routable_cidr subnet.cidr >>= λ routable. some (not routable)

unfoldable pub coverage_runs : Unit {0}
unfolding interval_ms keys_with_ms scanning_interval_keys minutes_ms interval_in interval_to_ms
    sql_trim sql_trim_start sql_trim_end names_interval covered_interval scan_boolean known_or
    resolve_scanning_enabled is_automatic_scan_allowed text_runs reserved_runs
coverage_runs = tt
