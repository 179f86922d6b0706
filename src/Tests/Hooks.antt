-- ===== src/Tests/Hooks.antt =====
-- The theorems on the hooks after a commit, on versions and on roles, at concrete ones.
use Prim.Native.Nat.Ordering.{lt}
use cidrella.Base.{◌<◌, ◌≡◌, ◌⊎◌, refl, arith, true, false, Option, some, [], ◌∷◌, length}
use cidrella.Base.Text.{Text, codes}
use cidrella.Hooks.{
  HookName, regenerate_dns, regenerate_dhcp, Generation, applied, promised, System, queue_regen,
  start, hold_hooks, step, Reach, here, next, hooks_run,
}
use cidrella.Hooks.Sound.{IsBounded, IsSettled}
use cidrella.Hooks.SingleFlight.{resumed, single_flight, quiet-IsSettled}
use cidrella.Hooks.Draining.{worked_off}
use cidrella.Hooks.Finishing.{IsFinished, worked_off-IsFinished}
use cidrella.Hooks.Holding.{step-held}
use cidrella.Semver.{parse_version, compare_semver, semver_runs}
use cidrella.Roles.{has_permission, role_runs}
use cidrella.Roles.{next as passes}
use cidrella.Roles.Authority.{system_write}

abbrev all_applied : HookName → Option Generation
all_applied n = some (record { desired = 3; applied = 3; status = applied })

all_applied-IsBounded : (n : HookName) → IsBounded (all_applied n)
all_applied-IsBounded n = omega arith

-- Two requests, the second while the first runs.
abbrev busy : System
busy =
    step
      (step (step (resumed all_applied) (queue_regen regenerate_dns))
        (start regenerate_dns 0 promised))
      (queue_regen regenerate_dns)

busy-Reach : Reach (resumed all_applied) busy
busy-Reach =
    next (next (next here (queue_regen regenerate_dns)) (start regenerate_dns 0 promised))
      (queue_regen regenerate_dns)

busy_free : busy.holds ≡ 0
unfolding hooks_run
busy_free = refl

busy_pending :
    ((busy.hooks regenerate_dns).running ≡ true) × ((busy.hooks regenerate_dns).pending ≡ true)
unfolding hooks_run
busy_pending = (refl, refl)

dhcp_idle : (busy.hooks regenerate_dhcp).running ≡ false
unfolding hooks_run
dhcp_idle = refl

single_flight_example :
    (((busy.hooks regenerate_dns).running ≡ false) × ((busy.hooks regenerate_dns).tasks ≡ []))
    ⊎ (((busy.hooks regenerate_dns).running ≡ true)
        × (length (busy.hooks regenerate_dns).tasks ≡ 1))
single_flight_example =
    single_flight all_applied busy regenerate_dns all_applied-IsBounded busy-Reach

quiet-IsSettled_example :
    ((busy.hooks regenerate_dhcp).pending ≡ false) × IsSettled (busy.hooks regenerate_dhcp).row
quiet-IsSettled_example =
    quiet-IsSettled all_applied busy regenerate_dhcp all_applied-IsBounded busy-Reach busy_free
      dhcp_idle

worked_off-IsFinished_example :
    (((worked_off busy regenerate_dns).hooks regenerate_dns).running ≡ false)
    × (((worked_off busy regenerate_dns).hooks regenerate_dns).pending ≡ false)
    × IsSettled ((worked_off busy regenerate_dns).hooks regenerate_dns).row
    × IsFinished
        (busy.hooks regenerate_dns)
        ((worked_off busy regenerate_dns).hooks regenerate_dns).row
worked_off-IsFinished_example =
    worked_off-IsFinished all_applied busy regenerate_dns all_applied-IsBounded busy-Reach busy_free

abbrev held : System
held = step busy hold_hooks

held-Reach : Reach (resumed all_applied) held
held-Reach = next busy-Reach hold_hooks

held_idle : (held.hooks regenerate_dhcp).running ≡ false
unfolding hooks_run
held_idle = refl

held_after : 0 < (step held (queue_regen regenerate_dhcp)).holds
unfolding hooks_run
held_after = omega arith

step-held_example :
    ((step held (queue_regen regenerate_dhcp)).hooks regenerate_dhcp).running ≡ false
step-held_example =
    step-held all_applied all_applied-IsBounded held (queue_regen regenerate_dhcp) regenerate_dhcp
      held-Reach held_after held_idle

abbrev preview : Text
preview = codes "v0.4.15-pre.1"

abbrev final : Text
final = codes "v0.4.15"

preview_parts :
    ((parse_version preview).major ≡ (parse_version final).major)
    × ((parse_version preview).minor ≡ (parse_version final).minor)
    × ((parse_version preview).patch ≡ (parse_version final).patch)
    × ((parse_version preview).pre ≡ codes "pre" ∷ codes "1" ∷ [])
    × ((parse_version final).pre ≡ [])
unfolding semver_runs
preview_parts = (refl, refl, refl, refl, refl)

versions :
    (compare_semver (codes "0.4.13") preview ≡ lt)
    × (compare_semver preview (codes "v0.4.15-pre.2") ≡ lt)
    × (compare_semver (codes "1.0.0-alpha") (codes "1.0.0-beta") ≡ lt)
    × (compare_semver (codes "1.0.0-9") (codes "1.0.0-10+build") ≡ lt)
unfolding semver_runs
versions = (refl, refl, refl, refl)

abbrev administrator : Text
administrator = codes "admin"

administrator_writes : has_permission administrator system_write ≡ true
unfolding role_runs
administrator_writes = refl
