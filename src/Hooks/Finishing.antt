-- ===== src/Hooks/Finishing.antt =====
-- What the runs that work off a hook leave in its row.
use cidrella.Base.{
  ℕ, ◌≡◌, ◌⊎◌, inl, inr, refl, sym, ap, subst, arith, Bool, true, false, Option, none, some, [],
  ◌∷◌, get_elem?, if◌then◌else◌,
}
use cidrella.Hooks.{
  HookName, Generation, applied, mark_applying, mark_applied, desired_of, scheduled, awaiting, Hook,
  fire_hook, finish, returned, run_hook, settle_hook, remove_at, start_task, settle_task, System,
  start, settle, step, Reach, next,
}
use cidrella.Hooks.Sound.{
  IsBounded, IsSettled, Covers, IsSafe, IsSound, resting, starting, settling, finish-row,
}
use cidrella.Hooks.SingleFlight.{
  Reach-AllSound, resumed, resumed-AllSound, quiet-IsSettled, start_task-IsSound,
  settle_task-IsSound,
}
use cidrella.Hooks.Draining.{
  IsQuiet, IsLast, settled, ran, ran-once, ran-last, ran-drained, fire_hook-IsLast, worked_off,
  worked_off-hook,
}

-- All that was asked for is applied, and the row says so.
abbrev pub IsApplied : Option Generation → Type 0
IsApplied none = Unit
IsApplied (some row) = (row.applied ≡ row.desired) × (row.status ≡ applied)

mark_applied-IsApplied :
    (g : ℕ) (row : Option Generation)
    → IsBounded row
    → Covers g row false
    → IsApplied (mark_applied g row)
unfolding mark_applied
mark_applied-IsApplied g none b c = tt
mark_applied-IsApplied g (some row) b (low, inl e) = absurd (cc)
mark_applied-IsApplied g (some row) b (low, inr e) = (omega (arith, b, e), ground (arith, e))

run_IsApplied :
    (row : Option Generation)
    → IsBounded row
    → IsApplied (mark_applied (desired_of row) (mark_applying row))
unfolding mark_applying
run_IsApplied none b = mark_applied-IsApplied 0 none b refl
run_IsApplied (some row) b =
    mark_applied-IsApplied row.desired (mark_applying (some row)) b (omega arith, inr refl)

-- A hook without tasks is left as it is.
ran_idle : (h : Hook) → h.tasks ≡ [] → ran h ≡ h
ran_idle h t = subst (λ ts. start_task 0 0 returned h (get_elem? ts 0) ≡ h) (sym t) refl

settled_idle : (h : Hook) → h.tasks ≡ [] → settled h ≡ h
settled_idle h t = subst (λ ts. settle_task 0 0 true h (get_elem? ts 0) ≡ h) (sym t) refl

settled_scheduled : (h : Hook) → h.tasks ≡ scheduled ∷ [] → settled h ≡ h
settled_scheduled h t = subst (λ ts. settle_task 0 0 true h (get_elem? ts 0) ≡ h) (sym t) refl

ran-IsApplied : (h : Hook) → h.tasks ≡ scheduled ∷ [] → IsBounded h.row → IsApplied (ran h).row
unfolding run_hook
ran-IsApplied h t b =
    subst (λ ts. IsApplied (start_task 0 0 returned h (get_elem? ts 0)).row) (sym t)
      (subst IsApplied (sym (finish-row 0 _)) (run_IsApplied h.row b))

-- A promise that is fulfilled leaves all applied, or one more run.
settled-IsApplied :
    (h : Hook) (g : ℕ)
    → h.tasks ≡ awaiting g ∷ []
    → IsBounded h.row
    → Covers g h.row h.pending
    → IsLast (settled h) ⊎ (((settled h).tasks ≡ []) × IsApplied (settled h).row)
unfolding settle_hook finish
settled-IsApplied h g t b c =
    subst
      (λ ts.
        let k = settle_task 0 0 true h (get_elem? ts 0) in
        IsLast k ⊎ ((k.tasks ≡ []) × IsApplied k.row))
      (sym t) (at h.pending c)
  where
    at :
        (p : Bool)
        → Covers g h.row p
        → let stopped = record h {
          running = false;
          pending = p;
          tasks = remove_at 0 h.tasks;
          row = mark_applied g h.row;
        } in
          let k = if p then fire_hook 0 stopped else stopped in
          IsLast k ⊎ ((k.tasks ≡ []) × IsApplied k.row)
    at true c = inl (fire_hook-IsLast _ (ap (remove_at 0) t) refl)
    at false c = inr (ap (remove_at 0) t, mark_applied-IsApplied g h.row b c)

-- Nothing was to be done, or all is applied.
abbrev pub IsFinished : Hook → Option Generation → Type 0
IsFinished h row = ((h.tasks ≡ []) × (row ≡ h.row)) ⊎ IsApplied row

ran_last-IsApplied : (h : Hook) → IsLast h → IsBounded h.row → IsApplied (ran (ran h)).row
ran_last-IsApplied h l b =
    subst (λ k. IsApplied k.row) (sym (ran_idle (ran h) (ran-last h l).0)) (ran-IsApplied h l.0 b)

ran-IsFinished : (h : Hook) → IsSound 0 h → IsFinished h (ran (ran (settled h))).row
ran-IsFinished h s = by_phase s.safe
  where
    settled_sound : IsSound 0 (settled h)
    settled_sound = settle_task-IsSound 0 0 true h (get_elem? h.tasks 0) refl s

    once : (t : h.tasks ≡ scheduled ∷ []) → IsApplied (ran (ran h)).row
    once t = elim (ran-once h t) [
      | inl q ↦
          subst (λ k. IsApplied k.row) (sym (ran_idle (ran h) q.0)) (ran-IsApplied h t s.bounded)
      | inr l ↦
          ran-IsApplied (ran h) l.0
            (start_task-IsSound 0 0 returned h (get_elem? h.tasks 0) refl s).bounded
    ]

    by_phase : IsSafe 0 h → IsFinished h (ran (ran (settled h))).row
    by_phase (resting t r w) = inl (
      t,
      subst (λ k. (ran (ran k)).row ≡ h.row) (sym (settled_idle h t))
          (subst (λ k. (ran k).row ≡ h.row) (sym (ran_idle h t)) (ap (λ k. k.row) (ran_idle h t))),
    )
    by_phase (starting t r) =
        inr (subst (λ k. IsApplied (ran (ran k)).row) (sym (settled_scheduled h t)) (once t))
    by_phase (settling g t r c) = elim (settled-IsApplied h g t s.bounded c) [
      | inl l ↦ inr (ran_last-IsApplied (settled h) l settled_sound.bounded)
      | inr (gone, a) ↦ inr (
          subst (λ k. IsApplied (ran k).row) (sym (ran_idle (settled h) gone))
            (subst (λ k. IsApplied k.row) (sym (ran_idle (settled h) gone)) a))
    ]

-- From whatever is reached after the start, with no hold in force and nothing new asked for, a promise
-- that is fulfilled and two runs without an error leave the hook at rest with nothing pending. If it had
-- a task, all that was asked for is then applied, and its row has the status for it; if it had none, its
-- row is as it was: all applied, or the last run failed.
pub worked_off-IsFinished :
    (rows : HookName → Option Generation) (s : System) (n : HookName)
    → ((m : HookName) → IsBounded (rows m))
    → Reach (resumed rows) s
    → s.holds ≡ 0
    → (((worked_off s n).hooks n).running ≡ false)
      × (((worked_off s n).hooks n).pending ≡ false)
      × IsSettled ((worked_off s n).hooks n).row
      × IsFinished (s.hooks n) ((worked_off s n).hooks n).row
unfolding step
worked_off-IsFinished rows s n b r free =
    let sound =
      subst (λ k. IsSound k (s.hooks n)) free (Reach-AllSound (resumed-AllSound rows b) r n) in
    let same = sym (worked_off-hook s n free) in
    let quiet = subst IsQuiet same (ran-drained (s.hooks n) sound.safe) in
    let reached =
      next (next (next r (settle n 0 true)) (start n 0 returned)) (start n 0 returned) in
    let (rests, done) = quiet-IsSettled rows (worked_off s n) n b reached free quiet.1 in
    (
      quiet.1,
      rests,
      done,
      subst (λ k. IsFinished (s.hooks n) k.row) same (ran-IsFinished (s.hooks n) sound),
    )
