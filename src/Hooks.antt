-- ===== src/Hooks.antt =====
-- The hooks that rewrite the configuration after a commit, server/src/utils/after-commit.js, with the
-- generations of server/src/models/configuration-generation.js.
--
-- A hook has a list of tasks: microtasks that have not started and promises that have not settled. The
-- code keeps no such list, only the flag `running`. Steps name the task that goes on, in any order.
pub mod Sound
pub mod SingleFlight
pub mod Holding
pub mod Draining
pub mod Finishing
use cidrella.Base.{
  ℕ, zero, suc, ◌+◌, ◌-◌, Bool, true, false, not, ◌&&◌, ◌||◌, Option, none, some, List, [], ◌∷◌,
  ◌++◌, ltb, leb, ◌==◌, max, get_elem?, any, if◌then◌else◌,
}

pub data HookName : Type 0 where
  regenerate_dns regenerate_dhcp regenerate_dnsmasq_conf : HookName

abbrev pub hook_order : List HookName
hook_order = regenerate_dns ∷ regenerate_dhcp ∷ regenerate_dnsmasq_conf ∷ []

abbrev pub same_name : HookName → HookName → Bool
same_name regenerate_dns regenerate_dns = true
same_name regenerate_dhcp regenerate_dhcp = true
same_name regenerate_dnsmasq_conf regenerate_dnsmasq_conf = true
same_name a b = false

pub data Status : Type 0 where
  pending applying applied failed : Status

-- A row of `configuration_generations`.
pub record Generation : Type 0 where
  pub desired : ℕ
  pub applied : ℕ
  pub status : Status

unfoldable pub enqueue_generation : Option Generation → Option Generation
enqueue_generation none = some (record { desired = 1; applied = 0; status = pending })
enqueue_generation (some row) = some (record row { desired = row.desired + 1; status = pending })

unfoldable pub mark_applying : Option Generation → Option Generation
mark_applying none = none
mark_applying (some row) = some (record row { status = applying })

unfoldable pub mark_applied : ℕ → Option Generation → Option Generation
mark_applied generation none = none
mark_applied generation (some row) = some (record row {
  applied = max row.applied generation;
  status = if ltb generation row.desired then pending else applied;
})

unfoldable pub mark_failed : Option Generation → Option Generation
mark_failed none = none
mark_failed (some row) = some (record row { status = failed })

-- `?.desired_generation || 0`
abbrev pub desired_of : Option Generation → ℕ
desired_of none = 0
desired_of (some row) = row.desired

pub data Task : Type 0 where
  scheduled : Task
  awaiting : ℕ → Task

pub record Hook : Type 0 where
  pub running : Bool
  pub pending : Bool
  pub tasks : List Task
  pub row : Option Generation

-- `fireHook`, with the number of holds
unfoldable pub fire_hook : ℕ → Hook → Hook
fire_hook holds h =
    if h.running || ltb 0 holds
    then record h { pending = true }
    else record h { running = true; pending = false; tasks = h.tasks ++ scheduled ∷ [] }

unfoldable pub finish : ℕ → Hook → Hook
finish holds h =
    let stopped = record h { running = false } in
    if h.pending then fire_hook holds stopped else stopped

-- What calling the handler results in: a result, an error (also that there is no handler), or a promise.
pub data RunOutcome : Type 0 where
  returned threw promised : RunOutcome

-- The body of the microtask
unfoldable pub run_hook : ℕ → RunOutcome → Hook → Hook
run_hook holds returned h =
    finish holds (record h { row = mark_applied (desired_of h.row) (mark_applying h.row) })
run_hook holds threw h = finish holds (record h { row = mark_failed (mark_applying h.row) })
run_hook holds promised h = record h {
  row = mark_applying h.row;
  tasks = awaiting (desired_of h.row) ∷ h.tasks;
}

unfoldable pub settle_hook : ℕ → ℕ → Bool → Hook → Hook
settle_hook holds generation true h =
    finish holds (record h { row = mark_applied generation h.row })
settle_hook holds generation false h = finish holds (record h { row = mark_failed h.row })

abbrev pub remove_at : ℕ → List Task → List Task
remove_at i [] = []
remove_at zero (t ∷ ts) = ts
remove_at (suc i) (t ∷ ts) = t ∷ remove_at i ts

-- The i-th task, if it is a microtask, starts; if it is a promise, it settles.
abbrev pub start_task : ℕ → ℕ → RunOutcome → Hook → Option Task → Hook
start_task holds i outcome h (some scheduled) =
    run_hook holds outcome (record h { tasks = remove_at i h.tasks })
start_task holds i outcome h t = h

abbrev pub settle_task : ℕ → ℕ → Bool → Hook → Option Task → Hook
settle_task holds i fulfilled h (some (awaiting generation)) =
    settle_hook holds generation fulfilled (record h { tasks = remove_at i h.tasks })
settle_task holds i fulfilled h t = h

-- `enqueueGeneration(getDb(), name); fireHook(name);`
unfoldable pub request : ℕ → Hook → Hook
request holds h = fire_hook holds (record h { row = enqueue_generation h.row })

-- A row whose work is not done, at a restart
unfoldable pub is_unfinished : Option Generation → Bool
is_unfinished none = false
is_unfinished (some row) = ltb row.applied row.desired || not (is_applied row.status)
  where
    is_applied : Status → Bool
    is_applied applied = true
    is_applied status = false

-- The queue, and the release functions that `holdHooks` has handed out, each with its `released`.
pub record System : Type 0 where
  pub hooks : HookName → Hook
  pub holds : ℕ
  pub releases : List Bool

pub data Event : Type 0 where
  respond : ℕ → (HookName → Bool) → Event
  queue_regen : HookName → Event
  start : HookName → ℕ → RunOutcome → Event
  settle : HookName → ℕ → Bool → Event
  hold_hooks resume : Event
  release : ℕ → Event

abbrev pub on_hook : System → HookName → (Hook → Hook) → System
on_hook s name f = record s { hooks = λ n. if same_name name n then f (s.hooks n) else s.hooks n }

abbrev pub on_hooks : System → (HookName → Bool) → (Hook → Hook) → System
on_hooks s names f = record s { hooks = λ n. if names n then f (s.hooks n) else s.hooks n }

abbrev pub set_released : ℕ → List Bool → List Bool
set_released i [] = []
set_released zero (r ∷ rs) = true ∷ rs
set_released (suc i) (r ∷ rs) = r ∷ set_released i rs

-- `holds--; if (holds > 0) return;` and the loop over the pending hooks
abbrev pub let_go : System → System
let_go s =
    let freed = record s { holds = s.holds - 1 } in
    if ltb 0 freed.holds
    then freed
    else on_hooks freed (λ n. (freed.hooks n).pending) (fire_hook freed.holds)

abbrev pub release_one : System → ℕ → Option Bool → System
release_one s i (some false) = let_go (record s { releases = set_released i s.releases })
release_one s i released = s

unfoldable pub step : System → Event → System
step s (respond status queue) =
    if leb 400 status || not (any queue hook_order) then s else on_hooks s queue (request s.holds)
step s (queue_regen name) = on_hook s name (request s.holds)
step s (start name i outcome) =
    on_hook s name (λ h. start_task s.holds i outcome h (get_elem? h.tasks i))
step s (settle name i fulfilled) =
    on_hook s name (λ h. settle_task s.holds i fulfilled h (get_elem? h.tasks i))
step s hold_hooks = record s { holds = s.holds + 1; releases = s.releases ++ false ∷ [] }
step s (release i) = release_one s i (get_elem? s.releases i)
step s resume = on_hooks s (λ n. is_unfinished (s.hooks n).row) (fire_hook s.holds)

-- At the start of the server: the rows are those that the database has.
unfoldable pub at_boot : (HookName → Option Generation) → System
at_boot rows = record {
  hooks = λ n. record { running = false; pending = false; tasks = []; row = rows n };
  holds = 0;
  releases = [];
}

pub data Reach (s : System) : System → Type 0 where
  here : Reach s s
  next : {t : System} → Reach s t → (e : Event) → Reach s (step t e)

unfoldable pub hooks_run : Unit {0}
unfolding enqueue_generation mark_applying mark_applied mark_failed fire_hook finish run_hook
    settle_hook request is_unfinished step at_boot
hooks_run = tt
