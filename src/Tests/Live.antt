-- ===== src/Tests/Live.antt =====
-- The theorems on the debounce of liveness on DUIDs, on scan intervals and on the password policy, at concrete values.
use cidrella.Base.{false, ◌++◌, is_some, ℕ, ◌≡◌, refl, arith, none, some, true, List, [], ◌∷◌}
use cidrella.Base.Text.{Text, codes}
use cidrella.Liveness.{
  Debounce, ignored, debounced, recorded, Query, outcomes, should_ignore_ip, liveness_runs,
}
use cidrella.Duid.{normalize_duid, mac_from_duid, duid_from_bytes, duid_runs}
use cidrella.Duid.RoundTrip.{spelling}
use cidrella.Duid.Embedded.{ethernet_mac, duid_from_bytes-mac}
use cidrella.PasswordPolicy.{
  PolicyBody, missing, boolean, whole, other, Settings, Setting, min_length_key, number_key,
  patched, refused, no_boolean, validate_policy_patch, effective_password_policy, store_all,
  password_policy, password_policy_error, policy_runs, needs_number,
}
use cidrella.PasswordPolicy.Stored.{changed}
use cidrella.PasswordPolicy.Applied.{effective-validate_policy_patch}
use cidrella.ScanCoverage.{interval_to_ms, covered_interval, coverage_runs}
use cidrella.ScanCoverage.Intervals.{HasPlainSpace, interval_to_ms-covered}
use cidrella.Liveness.Debounced.{unpruned, IsOrdered, outcomes-unpruned}

abbrev query_at : ℕ → Text → Query
query_at time source = record { ip = source; family = 4; in_subnet = true; now = time }

abbrev start : Debounce
start = record { writes = []; last_prune = 100000 }

-- The fourth query comes after a pruning that forgets the first host.
abbrev queries : List Query
queries =
    query_at 100000 (codes "10.0.0.5")
    ∷ query_at 159999 (codes "10.0.0.5")
    ∷ query_at 230001 (codes "10.0.0.6")
    ∷ query_at 260000 (codes "10.0.0.5")
    ∷ query_at 260000 (codes "127.0.0.1")
    ∷ query_at 270000 (codes "10.0.0.6")
    ∷ []

run : outcomes start queries ≡ recorded ∷ debounced ∷ recorded ∷ recorded ∷ ignored ∷ debounced ∷ []
unfolding liveness_runs
run = refl

link_local_case : should_ignore_ip 6 (codes "FE80::1") ≡ true
unfolding liveness_runs
link_local_case = refl

ordered : IsOrdered 0 queries
ordered = ground arith

outcomes-unpruned_example : outcomes start queries ≡ unpruned [] queries
outcomes-unpruned_example = outcomes-unpruned queries 100000 ordered

-- A DUID-LL of an Ethernet interface
abbrev link_layer : List ℕ
link_layer = 0 ∷ 3 ∷ 0 ∷ 1 ∷ 82 ∷ 84 ∷ 0 ∷ 18 ∷ 171 ∷ 255 ∷ []

link_layer_mac :
    mac_from_duid (codes " 00:03:00:01:52:54:00:12:AB:ff") ≡ some (codes "52:54:00:12:ab:ff")
unfolding duid_runs
link_layer_mac = refl

short_duid : mac_from_duid (codes "00:01:01") ≡ none
unfolding duid_runs
short_duid = refl

duid_from_bytes-mac_example :
    (duid_from_bytes link_layer ≡ some (spelling link_layer))
    × (normalize_duid (spelling link_layer) ≡ some (spelling link_layer))
    × (mac_from_duid (spelling link_layer) ≡ ethernet_mac link_layer)
duid_from_bytes-mac_example =
    duid_from_bytes-mac link_layer (omega arith) (omega arith) (ground arith)

-- The old form: ten minutes
abbrev ten : Text
ten = codes " 10 "

ten_plain : HasPlainSpace ten
unfolding coverage_runs
ten_plain = (refl, (refl, (refl, (refl, tt))))

ten_ms : interval_to_ms (some ten) ≡ some 600000
unfolding coverage_runs
ten_ms = refl

interval_to_ms-covered_example : is_some (interval_to_ms (some ten)) ≡ covered_interval (some ten)
interval_to_ms-covered_example = interval_to_ms-covered (some ten) ten_plain

-- Spaces are all that SQLite trims.
tab :
    (interval_to_ms (some (codes "1h" ++ 9 ∷ [])) ≡ some 3600000)
    × (covered_interval (some (codes "1h" ++ 9 ∷ [])) ≡ false)
unfolding coverage_runs
tab = (refl, refl)

abbrev longer : PolicyBody
longer = record {
  min_length = whole 12;
  mixed_case = missing;
  number = boolean false;
  symbol = missing;
}

abbrev longer_settings : List Setting
longer_settings =
    record { key = min_length_key; value = codes "12" }
    ∷ record { key = number_key; value = codes "false" }
    ∷ []

abbrev no_settings : Settings
no_settings key = none

longer_accepted : validate_policy_patch (some longer) ≡ patched longer_settings
unfolding policy_runs
longer_accepted = refl

effective-validate_policy_patch_example :
    effective_password_policy (store_all no_settings longer_settings)
    ≡ changed longer (effective_password_policy no_settings)
effective-validate_policy_patch_example =
    effective-validate_policy_patch no_settings longer longer_settings longer_accepted

not_boolean :
    validate_policy_patch (some (record longer { number = other }))
    ≡ refused (no_boolean number_key)
unfolding policy_runs
not_boolean = refl

letters_only : password_policy_error (some (codes "Cidrella")) password_policy ≡ some needs_number
unfolding policy_runs
letters_only = refl
