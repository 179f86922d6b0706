-- ===== src/Liveness.antt =====
-- Liveness from the sources of DNS queries, server/src/utils/ip-liveness.js: what is ignored, and the
-- debounce of writes. `net.isIP`, the subnet of an address and the time are arguments.
pub mod Debounced
pub mod Pruning
use cidrella.Base.{
  ℕ, ◌+◌, ◌*◌, Bool, true, false, not, ◌&&◌, ◌||◌, List, [], ◌∷◌, ltb, leb, ◌==◌, if◌then◌else◌,
  map,
}
use cidrella.Base.Text.{Text, codes, lower_char, text_eq, starts_with}

-- `PASSIVE_LIVENESS_DEBOUNCE_MS` of the configuration
abbrev pub debounce_ms : ℕ
debounce_ms = 60000

-- `/^fe[89ab]/`
abbrev is_link_local : Text → Bool
is_link_local s =
    starts_with (codes "fe8") s
    || starts_with (codes "fe9") s
    || starts_with (codes "fea") s
    || starts_with (codes "feb") s

abbrev ignores_v6 : Text → Bool
ignores_v6 s =
    text_eq s (codes "::1")
    || text_eq s (codes "::")
    || is_link_local s
    || starts_with (codes "ff") s

-- The family of the address is what `net.isIP` says of it.
unfoldable pub should_ignore_ip : ℕ → Text → Bool
should_ignore_ip family ip =
    if family == 4
    then starts_with (codes "127.") ip
      || text_eq ip (codes "0.0.0.0")
      || text_eq ip (codes "255.255.255.255")
    else if family == 6
    then ignores_v6 (map lower_char ip)
    else true

-- An entry of `lastPassiveWrite`
pub record Write : Type 0 where
  pub ip : Text
  pub at : ℕ

pub record Debounce : Type 0 where
  pub writes : List Write
  pub last_prune : ℕ

-- `lastPassiveWrite.get(ip) || 0`
unfoldable pub last_write : List Write → Text → ℕ
last_write [] ip = 0
last_write (w ∷ ws) ip = let rest = last_write ws ip in if text_eq w.ip ip then w.at else rest

-- `lastPassiveWrite.set(ip, now)`
unfoldable pub set_write : List Write → Text → ℕ → List Write
set_write [] ip now = record { ip = ip; at = now } ∷ []
set_write (w ∷ ws) ip now =
    let rest = set_write ws ip now in
    if text_eq w.ip ip then record { ip = ip; at = now } ∷ ws else w ∷ rest

-- Those with `ts < cutoff` go; the cutoff is `double` before now.
unfoldable pub without_older : ℕ → ℕ → List Write → List Write
without_older now double [] = []
without_older now double (w ∷ ws) =
    let rest = without_older now double ws in if ltb (w.at + double) now then rest else w ∷ rest

unfoldable pub prune_debounce : Debounce → ℕ → Debounce
prune_debounce d now =
    if ltb now (d.last_prune + 60000)
    then d
    else record { writes = without_older now (debounce_ms * 2) d.writes; last_prune = now }

pub data QueryOutcome : Type 0 where
  ignored debounced recorded : QueryOutcome

-- A query: its source, the family of that, whether it lies in a subnet, and the time.
pub record Query : Type 0 where
  pub ip : Text
  pub family : ℕ
  pub in_subnet : Bool
  pub now : ℕ

unfoldable pub observe : Debounce → Query → Debounce × QueryOutcome
observe d q =
    if ltb q.now (last_write d.writes q.ip + debounce_ms)
    then (d, debounced)
    else if q.in_subnet
    then (record d { writes = set_write d.writes q.ip q.now }, recorded)
    else (d, ignored)

unfoldable pub record_dns_query_liveness : Debounce → Query → Debounce × QueryOutcome
record_dns_query_liveness d q =
    if should_ignore_ip q.family q.ip then (d, ignored) else observe (prune_debounce d q.now) q

-- What becomes of a sequence of queries.
unfoldable pub outcomes : Debounce → List Query → List QueryOutcome
outcomes d [] = []
outcomes d (q ∷ qs) = let (d', o) = record_dns_query_liveness d q in o ∷ outcomes d' qs

unfoldable pub liveness_runs : Unit {0}
unfolding should_ignore_ip last_write set_write without_older prune_debounce observe
    record_dns_query_liveness outcomes
liveness_runs = tt
