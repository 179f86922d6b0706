-- ===== src/Hooks/Holding.antt =====
-- While a hold is in force no hook starts, and a hold is let go of once.
use cidrella.Base.{
  ℕ, zero, suc, ◌+◌, ◌-◌, ◌<◌, ◌≡◌, inl, inr, refl, sym, ap, ◌∙◌, subst, arith, Bool, true, false,
  not, ◌||◌, Option, none, some, List, [], ◌∷◌, ◌++◌, ltb, leb, get_elem?, any, Bool-cases,
  if◌then◌else◌,
}
use cidrella.Hooks.{
  HookName, hook_order, same_name, Generation, enqueue_generation, Hook, fire_hook, start_task,
  settle_task, request, is_unfinished, System, Event, respond, queue_regen, start, settle,
  hold_hooks, resume, release, let_go, release_one, set_released, step, at_boot, Reach, here, next,
}
use cidrella.Hooks.Sound.{IsBounded, IsSafe, resting, starting, settling}
use cidrella.Hooks.SingleFlight.{Reach-AllSound, resumed, resumed-AllSound}

-- The holds that have not been released.
abbrev pub open_holds : List Bool → ℕ
open_holds [] = 0
open_holds (false ∷ rs) = suc (open_holds rs)
open_holds (true ∷ rs) = open_holds rs

open_holds-snoc : (rs : List Bool) → open_holds (rs ++ false ∷ []) ≡ open_holds rs + 1
open_holds-snoc [] = refl
open_holds-snoc (false ∷ rs) = omega (arith, open_holds-snoc rs)
open_holds-snoc (true ∷ rs) = open_holds-snoc rs

open_holds-set_released :
    (i : ℕ) (rs : List Bool)
    → get_elem? rs i ≡ some false
    → open_holds (set_released i rs) ≡ open_holds rs - 1
open_holds-set_released i [] e = absurd (cc)
open_holds-set_released zero (true ∷ rs) e = absurd (cc)
open_holds-set_released zero (false ∷ rs) e = omega arith
open_holds-set_released (suc i) (true ∷ rs) e = open_holds-set_released i rs e
open_holds-set_released (suc i) (false ∷ rs) e =
    omega (arith, open_holds-set_released i rs e, some_open i rs e)
  where
    some_open : (i : ℕ) (rs : List Bool) → get_elem? rs i ≡ some false → 0 < open_holds rs
    some_open i [] e = absurd (cc)
    some_open zero (true ∷ rs) e = absurd (cc)
    some_open zero (false ∷ rs) e = omega arith
    some_open (suc i) (true ∷ rs) e = some_open i rs e
    some_open (suc i) (false ∷ rs) e = omega arith

abbrev Counts : System → Type 0
Counts s = s.holds ≡ open_holds s.releases

let_go-same : (s : System) → ((let_go s).holds ≡ s.holds - 1) × ((let_go s).releases ≡ s.releases)
let_go-same s = elim (Bool-cases (ltb 0 (s.holds - 1))) [
  | inl e ↦ rw e (refl, refl)
  | inr e ↦ rw e (refl, refl)
]

step-Counts : (s : System) (e : Event) → Counts s → Counts (step s e)
unfolding step
step-Counts s (respond status queue) c =
    elim (Bool-cases (leb 400 status || not (any queue hook_order))) [
      | inl e ↦ rw e c
      | inr e ↦ rw e c
    ]
step-Counts s (queue_regen name) c = c
step-Counts s (start name i o) c = c
step-Counts s (settle name i fulfilled) c = c
step-Counts s hold_hooks c = omega (arith, c, open_holds-snoc s.releases)
step-Counts s resume c = c
step-Counts s (release i) c = by_release (get_elem? s.releases i) refl
  where
    by_release : (o : Option Bool) → get_elem? s.releases i ≡ o → Counts (release_one s i o)
    by_release none e = c
    by_release (some true) e = c
    by_release (some false) e =
        let (holds, kept) = let_go-same (record s { releases = set_released i s.releases }) in
        holds
        ∙ ap (λ n. n - 1) c
        ∙ sym (open_holds-set_released i s.releases e)
        ∙ ap open_holds (sym kept)

Reach-Counts : {s t : System} → Counts s → Reach s t → Counts t
Reach-Counts c here = c
Reach-Counts c (next r e) = step-Counts _ e (Reach-Counts c r)

-- Whatever happens after the start, the number of holds is that of the release functions that have
-- been handed out and not been called: calling one again takes off no other hold.
pub holds_open :
    (rows : HookName → Option Generation) (s : System)
    → Reach (resumed rows) s
    → s.holds ≡ open_holds s.releases
unfolding step at_boot
holds_open rows s r = Reach-Counts refl r

-- A hook that does not run stays so while there is a hold.
fire_hook-held :
    (holds : ℕ) (h : Hook) → 0 < holds → h.running ≡ false → (fire_hook holds h).running ≡ false
unfolding fire_hook
fire_hook-held holds h k r = let held : ltb 0 holds ≡ true = ground arith in rw (r, held) refl

request-held :
    (holds : ℕ) (h : Hook) → 0 < holds → h.running ≡ false → (request holds h).running ≡ false
unfolding request
request-held holds h k r = fire_hook-held holds (record h { row = enqueue_generation h.row }) k r

-- A hook that is safe and does not run has no task that could go on.
idle_task :
    (holds : ℕ) (h : Hook) (i : ℕ) → IsSafe holds h → h.running ≡ false → get_elem? h.tasks i ≡ none
idle_task holds h i (resting t r w) idle = ap (λ ts. get_elem? ts i) t
idle_task holds h i (starting t r) idle = absurd (cc)
idle_task holds h i (settling g t r c) idle = absurd (cc)

either_idle :
    (b : Bool) (g h : Hook)
    → g.running ≡ false
    → h.running ≡ false
    → (if b then g else h).running ≡ false
either_idle true g h x y = x
either_idle false g h x y = y

module _ (rows : HookName → Option Generation) (b : (m : HookName) → IsBounded (rows m)) where
  -- As long as a hold is in force after a step, no hook that was at rest before has started, whatever
  -- the step was.
  pub step-held :
      (s : System) (e : Event) (n : HookName)
      → Reach (resumed rows) s
      → 0 < (step s e).holds
      → (s.hooks n).running ≡ false
      → ((step s e).hooks n).running ≡ false
  unfolding step
  step-held s (respond status queue) n r k idle =
      elim (Bool-cases (leb 400 status || not (any queue hook_order))) [
        | inl e ↦ rw e idle
        | inr e ↦ rw e (
            either_idle (queue n) (request s.holds (s.hooks n)) (s.hooks n)
              (request-held s.holds (s.hooks n) (rw e at k) idle) idle)
      ]
  step-held s (queue_regen name) n r k idle =
      either_idle (same_name name n) (request s.holds (s.hooks n)) (s.hooks n)
        (request-held s.holds (s.hooks n) k idle) idle
  step-held s (start name i o) n r k idle =
      either_idle (same_name name n) _ (s.hooks n)
        (subst (λ t. (start_task s.holds i o (s.hooks n) t).running ≡ false)
          (sym (
            idle_task s.holds (s.hooks n) i (Reach-AllSound (resumed-AllSound rows b) r n).safe
              idle))
          idle)
        idle
  step-held s (settle name i fulfilled) n r k idle =
      either_idle (same_name name n) _ (s.hooks n)
        (subst (λ t. (settle_task s.holds i fulfilled (s.hooks n) t).running ≡ false)
          (sym (
            idle_task s.holds (s.hooks n) i (Reach-AllSound (resumed-AllSound rows b) r n).safe
              idle))
          idle)
        idle
  step-held s hold_hooks n r k idle = idle
  step-held s resume n r k idle =
      either_idle (is_unfinished (s.hooks n).row) _ (s.hooks n)
        (fire_hook-held s.holds (s.hooks n) k idle) idle
  step-held s (release i) n r k idle = by_release (get_elem? s.releases i) k
    where
      by_release :
          (o : Option Bool)
          → 0 < (release_one s i o).holds
          → ((release_one s i o).hooks n).running ≡ false
      by_release none k = idle
      by_release (some true) k = idle
      by_release (some false) k = elim (Bool-cases (ltb 0 (s.holds - 1))) [
        | inl e ↦ rw e idle
        | inr e ↦ absurd (let z = rw e at k in ground (arith, e))
      ]
