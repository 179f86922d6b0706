-- ===== src/UrlGuard.antt =====
-- The guard of outbound requests, server/src/utils/url-guard.js. `net.isIP`, the parser of URLs and the
-- lookup of names are arguments. A function that throws returns `none`.
pub mod Connected
pub mod Decided
pub mod Outside
pub mod Scoped
use cidrella.Base.{
  ℕ, Bool, true, false, not, ◌&&◌, ◌||◌, Option, none, some, List, [], ◌∷◌, ◌==◌, if◌then◌else◌,
  ◌>>=◌, last_or, drop_last,
}
use cidrella.Base.Text.{Text, codes, text_eq, is_empty}
use cidrella.Address.{IpOptions, ParsedIp, parse_ip, ipv4_bits, ipv6_bits}
use cidrella.Address.Format.{format_ip}
use cidrella.Cidr.{network_contains, cidr_runs}

unfoldable pub blocked_ipv4_ranges : List Text
blocked_ipv4_ranges =
    codes "0.0.0.0/8"
    ∷ codes "10.0.0.0/8"
    ∷ codes "100.64.0.0/10"
    ∷ codes "127.0.0.0/8"
    ∷ codes "169.254.0.0/16"
    ∷ codes "172.16.0.0/12"
    ∷ codes "192.0.0.0/24"
    ∷ codes "192.0.2.0/24"
    ∷ codes "192.168.0.0/16"
    ∷ codes "198.18.0.0/15"
    ∷ codes "198.51.100.0/24"
    ∷ codes "203.0.113.0/24"
    ∷ codes "224.0.0.0/4"
    ∷ codes "240.0.0.0/4"
    ∷ []

unfoldable pub blocked_ipv6_ranges : List Text
blocked_ipv6_ranges =
    codes "::/128"
    ∷ codes "::1/128"
    ∷ codes "::ffff:0:0/96"
    ∷ codes "64:ff9b::/96"
    ∷ codes "2001::/32"
    ∷ codes "2001:db8::/32"
    ∷ codes "2002::/16"
    ∷ codes "fc00::/7"
    ∷ codes "fe80::/10"
    ∷ codes "ff00::/8"
    ∷ []

-- `ranges.some((range) => networkContains(range, ip))`
unfoldable pub some_contains : List Text → Text → Option Bool
some_contains [] ip = some false
some_contains (range ∷ ranges) ip =
    let rest = some_contains ranges ip in
    network_contains range ip >>= λ hit. if hit then some true else rest

abbrev pub unmapped : IpOptions
unmapped = record { zone_id = false; map_v4 = false; embedded_v4 = true }

abbrev pub mapped : IpOptions
mapped = record { zone_id = false; map_v4 = true; embedded_v4 = true }

-- Reasons to refuse a URL.
pub data Refusal : Type 0 where
  no_url invalid_url wrong_protocol no_hostname ipv6_off not_resolved blocked_ipv6 : Refusal
  blocked_range : Text → Refusal

-- What the parser of URLs gives of one.
pub record Url : Type 0 where
  pub protocol : Text
  pub hostname : Text
  pub href : Text

pub record Answer : Type 0 where
  pub family : ℕ
  pub address : Text

pub data Verdict : Type 0 where
  refused : Refusal → Verdict
  accepted : Text → Text → Text → Verdict

abbrev pub find_family : ℕ → List Answer → Option Text
find_family family [] = none
find_family family (a ∷ answers) =
    let rest = find_family family answers in if a.family == family then some a.address else rest

abbrev pub or_else : Option Text → Option Text → Option Text
or_else none o = o
or_else (some a) o = some a

-- The first IPv4 address, or else the first IPv6 one.
unfoldable pub chosen_address : List Answer → Option Text
chosen_address answers = or_else (find_family 4 answers) (find_family 6 answers)

-- `replace(/^\[(.*)\]$/, '$1')` of a hostname, which has no line terminator.
unfoldable pub without_brackets : Text → Text
without_brackets [] = []
without_brackets (c ∷ []) = c ∷ []
without_brackets (c ∷ (d ∷ s)) =
    if c == 91 && last_or d s == 93 then drop_last (d ∷ s) else c ∷ (d ∷ s)

-- The loop over the ranges, and what follows it.
unfoldable pub refuse_ranges : List Text → Text → Verdict → Option Verdict
refuse_ranges [] ip after = some after
refuse_ranges (range ∷ ranges) ip after =
    let rest = refuse_ranges ranges ip after in
    network_contains range ip >>= λ hit. if hit then some (refused (blocked_range range)) else rest

abbrev is_http : Text → Bool
is_http protocol = text_eq protocol (codes "http:") || text_eq protocol (codes "https:")

module _ (is_ip : Text → ℕ) where
  unfoldable pub is_blocked_ipv4 : Text → Option Bool
  is_blocked_ipv4 ip =
      if not (is_ip ip == 4) then some false else some_contains blocked_ipv4_ranges ip

  -- Behind the first reading, as an IPv6 address with this value, and the second one.
  abbrev pub check_mapped : ℕ → Option ParsedIp → Option Bool
  check_mapped value none = some_contains blocked_ipv6_ranges (format_ip value ipv6_bits)
  check_mapped value (some parsed) =
      if parsed.bits == 32
      then is_blocked_ipv4 (format_ip parsed.value ipv4_bits)
      else some_contains blocked_ipv6_ranges (format_ip value ipv6_bits)

  abbrev pub check_parsed : Option ParsedIp → Option ParsedIp → Option Bool
  check_parsed none second = some false
  check_parsed (some parsed) second =
      if not (parsed.bits == 128) then some false else check_mapped parsed.value second

  unfoldable pub is_blocked_ipv6 : Text → Option Bool
  is_blocked_ipv6 ip = check_parsed (parse_ip unmapped ip) (parse_ip mapped ip)

  unfoldable pub is_blocked_address : Text → Option Bool
  is_blocked_address ip =
      is_blocked_ipv4 ip >>= λ four. if four then some true else is_blocked_ipv6 ip

  -- The check of the address that is connected to.
  unfoldable pub check_address : Url → Text → Option Verdict
  check_address url ip =
      let verdict = accepted url.href url.hostname ip in
      if is_ip ip == 6
      then (is_blocked_ipv6 ip >>= λ hit. some (if hit then refused blocked_ipv6 else verdict))
      else refuse_ranges blocked_ipv4_ranges ip verdict

  abbrev pub check_chosen : Url → Option Text → Option Verdict
  check_chosen url none = some (refused not_resolved)
  check_chosen url (some ip) = check_address url ip

  abbrev pub chosen_of : Option (List Answer) → Option Text
  chosen_of none = none
  chosen_of (some answers) = chosen_address answers

  module _ (lookup : Text → ℕ → Option (List Answer)) (ipv6 : Bool) where
    -- The address of a host: itself, if it is one, or what the lookup of its name gives.
    unfoldable pub check_host : Url → Text → Option Verdict
    check_host url host =
        if is_ip host == 4
        then check_address url host
        else if is_ip host == 6
        then (if ipv6 then check_address url host else some (refused ipv6_off))
        else check_chosen url (chosen_of (lookup host (if ipv6 then 0 else 4)))

    abbrev pub check_url : Option Url → Option Verdict
    check_url none = some (refused invalid_url)
    check_url (some url) =
        if not (is_http url.protocol)
        then some (refused wrong_protocol)
        else if is_empty url.hostname
        then some (refused no_hostname)
        else check_host url (without_brackets url.hostname)

    unfoldable pub validate_outbound_url : (Text → Option Url) → Text → Option Verdict
    validate_outbound_url parse_url raw_url =
        if is_empty raw_url then some (refused no_url) else check_url (parse_url raw_url)

unfoldable pub guard_runs : Unit {0}
unfolding blocked_ipv4_ranges blocked_ipv6_ranges some_contains chosen_address without_brackets
    refuse_ranges is_blocked_ipv4 is_blocked_ipv6 is_blocked_address check_address check_host
    validate_outbound_url cidr_runs
guard_runs = tt
