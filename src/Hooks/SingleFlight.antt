-- ===== src/Hooks/SingleFlight.antt =====
-- A hook never runs twice at once, and no requested generation is forgotten.
use cidrella.Base.{
  ℕ, zero, suc, ◌+◌, ◌-◌, ◌<◌, ◌≡◌, ◌⊎◌, inl, inr, refl, sym, ap, ◌∙◌, subst, arith, Bool, true,
  false, not, ◌||◌, Option, none, some, [], ◌∷◌, ltb, leb, get_elem?, any, length, Bool-cases,
  some-inj, none-ne-some, if◌then◌else◌,
}
use cidrella.Hooks.{
  HookName, hook_order, same_name, Generation, enqueue_generation, Task, scheduled, awaiting, Hook,
  fire_hook, RunOutcome, remove_at, start_task, settle_task, request, is_unfinished, System, Event,
  respond, queue_regen, start, settle, hold_hooks, resume, release, let_go, release_one,
  set_released, step, at_boot, Reach, here, next,
}
use cidrella.Hooks.Sound.{
  IsBounded, IsSettled, Covers, IsSafe, resting, starting, settling, IsSound, fire_any-IsSafe,
  fire_hook-IsSafe, request-IsSafe, run_hook-IsSound, settle_hook-IsSound, fire_hook-row,
  enqueue_generation-IsBounded,
}

get_one :
    (u v : Task) (i : ℕ) → get_elem? (u ∷ []) i ≡ some v → (u ≡ v) × (remove_at i (u ∷ []) ≡ [])
get_one u v zero e = (some-inj e, refl)
get_one u v (suc i) e = absurd (cc)

pub start_task-IsSound :
    (holds i : ℕ) (o : RunOutcome) (h : Hook) (t : Option Task)
    → get_elem? h.tasks i ≡ t
    → IsSound holds h
    → IsSound holds (start_task holds i o h t)
start_task-IsSound holds i o h none e s = s
start_task-IsSound holds i o h (some (awaiting g)) e s = s
start_task-IsSound holds i o h (some scheduled) e s = by_phase s.safe
  where
    by_phase : IsSafe holds h → IsSound holds (start_task holds i o h (some scheduled))
    by_phase (resting t r w) = none-ne-some (sym (ap (λ ts. get_elem? ts i) t) ∙ e)
    by_phase (starting t r) =
        let (same, gone) = get_one scheduled scheduled i (sym (ap (λ ts. get_elem? ts i) t) ∙ e) in
        run_hook-IsSound holds o (record h { tasks = remove_at i h.tasks })
          (ap (remove_at i) t ∙ gone) r s.bounded
    by_phase (settling g t r c) =
        let (same, gone) =
          get_one (awaiting g) scheduled i (sym (ap (λ ts. get_elem? ts i) t) ∙ e) in
        absurd (cc)

pub settle_task-IsSound :
    (holds i : ℕ) (fulfilled : Bool) (h : Hook) (t : Option Task)
    → get_elem? h.tasks i ≡ t
    → IsSound holds h
    → IsSound holds (settle_task holds i fulfilled h t)
settle_task-IsSound holds i fulfilled h none e s = s
settle_task-IsSound holds i fulfilled h (some scheduled) e s = s
settle_task-IsSound holds i fulfilled h (some (awaiting g)) e s = by_phase s.safe
  where
    awaited : Task → ℕ
    awaited scheduled = 0
    awaited (awaiting g) = g

    by_phase : IsSafe holds h → IsSound holds (settle_task holds i fulfilled h (some (awaiting g)))
    by_phase (resting t r w) = none-ne-some (sym (ap (λ ts. get_elem? ts i) t) ∙ e)
    by_phase (starting t r) =
        let (same, gone) =
          get_one scheduled (awaiting g) i (sym (ap (λ ts. get_elem? ts i) t) ∙ e) in
        absurd (cc)
    by_phase (settling k t r c) =
        let (same, gone) =
          get_one (awaiting k) (awaiting g) i (sym (ap (λ ts. get_elem? ts i) t) ∙ e) in
        settle_hook-IsSound holds g fulfilled (record h { tasks = remove_at i h.tasks })
          (ap (remove_at i) t ∙ gone) s.bounded
          (subst (λ n. Covers n h.row h.pending) (ap awaited same) c)

fire_hook-IsSound : (held holds : ℕ) (h : Hook) → IsSound held h → IsSound holds (fire_hook holds h)
fire_hook-IsSound held holds h s = record {
  safe = fire_any-IsSafe held holds h s.safe;
  bounded = subst IsBounded (sym (fire_hook-row holds h)) s.bounded;
}

request-IsSound : (holds : ℕ) (h : Hook) → IsSound holds h → IsSound holds (request holds h)
unfolding request
request-IsSound holds h s = record {
  safe = request-IsSafe holds h s.safe;
  bounded =
      subst IsBounded (sym (fire_hook-row holds (record h { row = enqueue_generation h.row })))
        (enqueue_generation-IsBounded h.row s.bounded);
}

-- Holds may be taken while pending work still waits for one.
held-IsSound : (holds more : ℕ) (h : Hook) → 0 < more → IsSound holds h → IsSound more h
held-IsSound holds more h m s = record { safe = by_phase s.safe; bounded = s.bounded }
  where
    by_phase : IsSafe holds h → IsSafe more h
    by_phase (resting t r (inl w)) = resting t r (inl (w.0, m))
    by_phase (resting t r (inr w)) = resting t r (inr w)
    by_phase (starting t r) = starting t r
    by_phase (settling g t r c) = settling g t r c

-- At the last release the pending hooks are fired, and the others have nothing to wait for.
freed-IsSound :
    (holds : ℕ) (h : Hook) → IsSound holds h → IsSound 0 (if h.pending then fire_hook 0 h else h)
freed-IsSound holds h s = at h.pending refl
  where
    by_phase : h.pending ≡ false → IsSafe holds h → IsSafe 0 h
    by_phase e (resting t r (inl w)) = absurd (cc)
    by_phase e (resting t r (inr w)) = resting t r (inr w)
    by_phase e (starting t r) = starting t r
    by_phase e (settling g t r c) = settling g t r c

    at : (p : Bool) → h.pending ≡ p → IsSound 0 (if p then fire_hook 0 h else h)
    at true e = fire_hook-IsSound holds 0 h s
    at false e = record { safe = by_phase e s.safe; bounded = s.bounded }

abbrev pub AllSound : System → Type 0
AllSound s = (n : HookName) → IsSound s.holds (s.hooks n)

either :
    (holds : ℕ) (b : Bool) (g h : Hook)
    → IsSound holds g
    → IsSound holds h
    → IsSound holds (if b then g else h)
either holds true g h x y = x
either holds false g h x y = y

let_go-AllSound : (s : System) → AllSound s → AllSound (let_go s)
let_go-AllSound s a = elim (Bool-cases (ltb 0 (s.holds - 1))) [
  | inl e ↦ rw e (λ n. held-IsSound s.holds (s.holds - 1) (s.hooks n) (ground (arith, e)) (a n))
  | inr e ↦
      let last : s.holds - 1 ≡ 0 = ground (arith, e) in
      rw e (λ n.
        subst (λ k. IsSound k (if (s.hooks n).pending then fire_hook k (s.hooks n) else s.hooks n))
          (sym last) (freed-IsSound s.holds (s.hooks n) (a n)))
]

step-AllSound : (s : System) (e : Event) → AllSound s → AllSound (step s e)
unfolding step
step-AllSound s (respond status queue) a =
    elim (Bool-cases (leb 400 status || not (any queue hook_order))) [
      | inl e ↦ rw e a
      | inr e ↦
          rw e (λ n. either s.holds (queue n) _ _ (request-IsSound s.holds (s.hooks n) (a n)) (a n))
    ]
step-AllSound s (queue_regen name) a =
    λ n. either s.holds (same_name name n) _ _ (request-IsSound s.holds (s.hooks n) (a n)) (a n)
step-AllSound s (start name i o) a = λ n.
    either s.holds (same_name name n) _ _ (start_task-IsSound s.holds i o (s.hooks n) _ refl (a n))
      (a n)
step-AllSound s (settle name i fulfilled) a = λ n.
    either s.holds (same_name name n) _ _
      (settle_task-IsSound s.holds i fulfilled (s.hooks n) _ refl (a n)) (a n)
step-AllSound s hold_hooks a =
    λ n. held-IsSound s.holds (s.holds + 1) (s.hooks n) (omega arith) (a n)
step-AllSound s resume a = λ n.
    either s.holds (is_unfinished (s.hooks n).row) _ _
      (fire_hook-IsSound s.holds s.holds (s.hooks n) (a n)) (a n)
step-AllSound s (release i) a = by_release (get_elem? s.releases i)
  where
    by_release : (o : Option Bool) → AllSound (release_one s i o)
    by_release none = a
    by_release (some true) = a
    by_release (some false) = let_go-AllSound (record s { releases = set_released i s.releases }) a

pub Reach-AllSound : {s t : System} → AllSound s → Reach s t → AllSound t
Reach-AllSound a here = a
Reach-AllSound a (next r e) = step-AllSound _ e (Reach-AllSound a r)

-- The server at its start, with the work that was left over taken up.
abbrev pub resumed : (HookName → Option Generation) → System
resumed rows = step (at_boot rows) resume

is_unfinished-IsSettled :
    (row : Option Generation) → IsBounded row → is_unfinished row ≡ false → IsSettled row
unfolding is_unfinished
is_unfinished-IsSettled none b e = tt
is_unfinished-IsSettled (some row) b e = inr (ground (arith, b))

pub resumed-AllSound :
    (rows : HookName → Option Generation)
    → ((n : HookName) → IsBounded (rows n))
    → AllSound (resumed rows)
unfolding step at_boot
resumed-AllSound rows b n = at (is_unfinished (rows n)) refl
  where
    at :
        (u : Bool)
        → is_unfinished (rows n) ≡ u
        → IsSound 0 (
            if u
            then fire_hook 0 (record { running = false; pending = false; tasks = []; row = rows n })
            else record { running = false; pending = false; tasks = []; row = rows n })
    at true e = record {
      safe =
          fire_hook-IsSafe 0 (record { running = false; pending = false; tasks = []; row = rows n })
            refl refl;
      bounded =
          subst IsBounded
            (sym (
              fire_hook-row 0
                (record { running = false; pending = false; tasks = []; row = rows n })))
            (b n);
    }
    at false e = record {
      safe = resting refl refl (inr (refl, is_unfinished-IsSettled (rows n) (b n) e));
      bounded = b n;
    }

-- Whatever happens after the start, a hook has one task while it is marked as running, and none
-- otherwise: it never runs twice at once.
pub single_flight :
    (rows : HookName → Option Generation) (s : System) (n : HookName)
    → ((m : HookName) → IsBounded (rows m))
    → Reach (resumed rows) s
    → (((s.hooks n).running ≡ false) × ((s.hooks n).tasks ≡ []))
      ⊎ (((s.hooks n).running ≡ true) × (length (s.hooks n).tasks ≡ 1))
single_flight rows s n b r = by_phase (Reach-AllSound (resumed-AllSound rows b) r n).safe
  where
    by_phase :
        IsSafe s.holds (s.hooks n)
        → (((s.hooks n).running ≡ false) × ((s.hooks n).tasks ≡ []))
          ⊎ (((s.hooks n).running ≡ true) × (length (s.hooks n).tasks ≡ 1))
    by_phase (resting t r w) = inl (r, t)
    by_phase (starting t r) = inr (r, ap length t)
    by_phase (settling g t r c) = inr (r, ap length t)

-- Whatever happens after the start, a hook that does not run while no hold is in force has nothing
-- pending, and all that was asked of it is applied, unless its last run failed.
pub quiet-IsSettled :
    (rows : HookName → Option Generation) (s : System) (n : HookName)
    → ((m : HookName) → IsBounded (rows m))
    → Reach (resumed rows) s
    → s.holds ≡ 0
    → (s.hooks n).running ≡ false
    → ((s.hooks n).pending ≡ false) × IsSettled (s.hooks n).row
quiet-IsSettled rows s n b r free idle =
    by_phase (Reach-AllSound (resumed-AllSound rows b) r n).safe
  where
    by_phase :
        IsSafe s.holds (s.hooks n) → ((s.hooks n).pending ≡ false) × IsSettled (s.hooks n).row
    by_phase (resting t r (inl w)) = absurd (omega (arith, w.1, free))
    by_phase (resting t r (inr w)) = w
    by_phase (starting t r) = absurd (cc)
    by_phase (settling g t r c) = absurd (cc)
