-- ===== src/Hooks/Draining.antt =====
-- Pending work comes to an end.
use cidrella.Base.{
  ℕ, ◌≡◌, ◌⊎◌, inl, inr, refl, sym, ap, subst, arith, Bool, true, false, [], ◌∷◌, ◌++◌, get_elem?,
  if◌then◌else◌,
}
use cidrella.Hooks.{
  HookName, regenerate_dns, regenerate_dhcp, regenerate_dnsmasq_conf, same_name, scheduled,
  awaiting, Hook, fire_hook, finish, returned, run_hook, settle_hook, remove_at, start_task,
  settle_task, System, start, settle, step,
}
use cidrella.Hooks.Sound.{IsSafe, resting, starting, settling}

-- A hook with nothing to do, and one that is about to run for all that was asked.
abbrev pub IsQuiet : Hook → Type 0
IsQuiet h = (h.tasks ≡ []) × (h.running ≡ false) × (h.pending ≡ false)

abbrev pub IsLast : Hook → Type 0
IsLast h = (h.tasks ≡ scheduled ∷ []) × (h.running ≡ true) × (h.pending ≡ false)

pub fire_hook-IsLast : (h : Hook) → h.tasks ≡ [] → h.running ≡ false → IsLast (fire_hook 0 h)
unfolding fire_hook
fire_hook-IsLast h t r = rw r (ap (λ ts. ts ++ scheduled ∷ []) t, refl, refl)

finish-once : (h : Hook) → h.tasks ≡ [] → IsQuiet (finish 0 h) ⊎ IsLast (finish 0 h)
unfolding finish
finish-once h t = at h.pending refl
  where
    at :
        (p : Bool)
        → h.pending ≡ p
        → let g =
            if p
            then fire_hook 0 (record h { running = false })
            else record h { running = false } in
          IsQuiet g ⊎ IsLast g
    at true e = inr (fire_hook-IsLast (record h { running = false }) t refl)
    at false e = inl (t, refl, e)

finish-IsQuiet : (h : Hook) → h.tasks ≡ [] → h.pending ≡ false → IsQuiet (finish 0 h)
unfolding finish
finish-IsQuiet h t e =
    subst
      (λ p.
        IsQuiet
          (if p then fire_hook 0 (record h { running = false }) else record h { running = false }))
      (sym e) (t, refl, e)

-- The i-th task, if any, goes on to its end without an error.
abbrev pub settled : Hook → Hook
settled h = settle_task 0 0 true h (get_elem? h.tasks 0)

abbrev pub ran : Hook → Hook
ran h = start_task 0 0 returned h (get_elem? h.tasks 0)

settled-IsQuiet : (h : Hook) → IsQuiet h → IsQuiet (settled h)
settled-IsQuiet h q = subst (λ ts. IsQuiet (settle_task 0 0 true h (get_elem? ts 0))) (sym q.0) q

pub ran-IsQuiet : (h : Hook) → IsQuiet h → IsQuiet (ran h)
ran-IsQuiet h q = subst (λ ts. IsQuiet (start_task 0 0 returned h (get_elem? ts 0))) (sym q.0) q

pub ran-once : (h : Hook) → h.tasks ≡ scheduled ∷ [] → IsQuiet (ran h) ⊎ IsLast (ran h)
unfolding run_hook
ran-once h t =
    subst (λ ts. let g = start_task 0 0 returned h (get_elem? ts 0) in IsQuiet g ⊎ IsLast g) (sym t)
      (finish-once _ (ap (remove_at 0) t))

pub ran-last : (h : Hook) → IsLast h → IsQuiet (ran h)
unfolding run_hook
ran-last h (t, r, p) =
    subst (λ ts. IsQuiet (start_task 0 0 returned h (get_elem? ts 0))) (sym t)
      (finish-IsQuiet _ (ap (remove_at 0) t) p)

ran-rest : (h : Hook) → IsQuiet h ⊎ IsLast h → IsQuiet (ran h)
ran-rest h (inl q) = ran-IsQuiet h q
ran-rest h (inr l) = ran-last h l

settled-once :
    (h : Hook) (g : ℕ) → h.tasks ≡ awaiting g ∷ [] → IsQuiet (settled h) ⊎ IsLast (settled h)
unfolding settle_hook
settled-once h g t =
    subst (λ ts. let k = settle_task 0 0 true h (get_elem? ts 0) in IsQuiet k ⊎ IsLast k) (sym t)
      (finish-once _ (ap (remove_at 0) t))

-- Three steps are enough: a promise that settles, and two runs.
pub ran-drained : (h : Hook) → IsSafe 0 h → IsQuiet (ran (ran (settled h)))
ran-drained h (resting t r (inl w)) = absurd (omega (arith, w.1))
ran-drained h (resting t r (inr w)) =
    let q = settled-IsQuiet h (t, r, w.0) in
    ran-IsQuiet (ran (settled h)) (ran-IsQuiet (settled h) q)
ran-drained h (starting t r) =
    let same : h ≡ settled h =
      subst (λ ts. h ≡ settle_task 0 0 true h (get_elem? ts 0)) (sym t) refl in
    subst (λ k. IsQuiet (ran (ran k))) same (ran-rest (ran h) (ran-once h t))
ran-drained h (settling g t r c) =
    ran-IsQuiet (ran (settled h)) (ran-rest (settled h) (settled-once h g t))

same_name_refl : (n : HookName) → same_name n n ≡ true
same_name_refl regenerate_dns = refl
same_name_refl regenerate_dhcp = refl
same_name_refl regenerate_dnsmasq_conf = refl

abbrev pub worked_off : System → HookName → System
worked_off s n = step (step (step s (settle n 0 true)) (start n 0 returned)) (start n 0 returned)

pub worked_off-hook :
    (s : System) (n : HookName)
    → s.holds ≡ 0
    → (worked_off s n).hooks n ≡ ran (ran (settled (s.hooks n)))
unfolding step
worked_off-hook s n free = rw (same_name_refl n, free) refl
