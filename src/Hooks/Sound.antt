-- ===== src/Hooks/Sound.antt =====
-- The invariant of one hook, and that what happens to it keeps it.
use cidrella.Base.{
  ℕ, ◌≤◌, ◌<◌, ◌≡◌, ◌⊎◌, inl, inr, refl, sym, ap, subst, arith, Bool, true, false, ◌||◌, Option,
  none, some, [], ◌∷◌, ◌++◌, ltb, Bool-cases, if◌then◌else◌,
}
use cidrella.Hooks.{
  failed, Generation, enqueue_generation, mark_applying, mark_applied, mark_failed, desired_of,
  scheduled, awaiting, Hook, fire_hook, finish, RunOutcome, returned, threw, promised, run_hook,
  settle_hook, request,
}

-- Nothing is applied that was not asked for.
abbrev pub IsBounded : Option Generation → Type 0
IsBounded none = Unit
IsBounded (some row) = row.applied ≤ row.desired

-- All that was asked for is applied, or the last run failed.
abbrev pub IsSettled : Option Generation → Type 0
IsSettled none = Unit
IsSettled (some row) = (row.status ≡ failed) ⊎ (row.applied ≡ row.desired)

-- A run for this generation: what was asked for since then is pending.
abbrev pub Covers : ℕ → Option Generation → Bool → Type 0
Covers generation none p = generation ≡ 0
Covers generation (some row) p =
    (generation ≤ row.desired) × ((p ≡ true) ⊎ (generation ≡ row.desired))

-- What is pending waits for a hold, and nothing else is left to do.
abbrev pub Rests : ℕ → Bool → Option Generation → Type 0
Rests holds p row = ((p ≡ true) × (0 < holds)) ⊎ ((p ≡ false) × IsSettled row)

pub data IsSafe (holds : ℕ) (h : Hook) : Type 0 where
  resting : h.tasks ≡ [] → h.running ≡ false → Rests holds h.pending h.row → IsSafe holds h
  starting : h.tasks ≡ scheduled ∷ [] → h.running ≡ true → IsSafe holds h
  settling :
      (generation : ℕ)
      → h.tasks ≡ awaiting generation ∷ []
      → h.running ≡ true
      → Covers generation h.row h.pending
      → IsSafe holds h

pub enqueue_generation-IsBounded :
    (row : Option Generation) → IsBounded row → IsBounded (enqueue_generation row)
unfolding enqueue_generation
enqueue_generation-IsBounded none h = omega arith
enqueue_generation-IsBounded (some row) h = omega (arith, h)

mark_applied-IsBounded :
    (generation : ℕ) (row : Option Generation)
    → generation ≤ desired_of row
    → IsBounded row
    → IsBounded (mark_applied generation row)
unfolding mark_applied
mark_applied-IsBounded generation none g h = tt
mark_applied-IsBounded generation (some row) g h = omega (arith, g, h)

-- What firing does: the hook starts, or is pending behind a run or a hold.
pub fire_hook-IsSafe :
    (holds : ℕ) (h : Hook) → h.tasks ≡ [] → h.running ≡ false → IsSafe holds (fire_hook holds h)
unfolding fire_hook
fire_hook-IsSafe holds h t r = elim (Bool-cases (ltb 0 holds)) [
  | inl e ↦ rw (r, e) (resting t refl (inl (refl, ground (arith, e))))
  | inr e ↦ rw (r, e) (starting (ap (λ ts. ts ++ scheduled ∷ []) t) refl)
]

-- Firing a hook that is safe leaves it so, also one that still rests with work to do.
pub fire_any-IsSafe : (held holds : ℕ) (h : Hook) → IsSafe held h → IsSafe holds (fire_hook holds h)
unfolding fire_hook
fire_any-IsSafe held holds h (resting t r w) = fire_hook-IsSafe holds h t r
fire_any-IsSafe held holds h (starting t r) = rw r (starting t refl)
fire_any-IsSafe held holds h (settling g t r c) = rw r (settling g t refl (now_pending g h.row c))
  where
    now_pending : (g : ℕ) (row : Option Generation) → Covers g row h.pending → Covers g row true
    now_pending g none c = c
    now_pending g (some row) c = (c.0, inl refl)

enqueue_generation-Covers :
    (g : ℕ) (row : Option Generation) (p : Bool)
    → Covers g row p
    → Covers g (enqueue_generation row) true
unfolding enqueue_generation
enqueue_generation-Covers g none p c = (omega (arith, c), inl refl)
enqueue_generation-Covers g (some row) p c = (omega (arith, c.0), inl refl)

pub request-IsSafe : (holds : ℕ) (h : Hook) → IsSafe holds h → IsSafe holds (request holds h)
unfolding request fire_hook
request-IsSafe holds h (resting t r w) =
    fire_hook-IsSafe holds (record h { row = enqueue_generation h.row }) t r
request-IsSafe holds h (starting t r) = rw r (starting t refl)
request-IsSafe holds h (settling g t r c) =
    rw r (settling g t refl (enqueue_generation-Covers g h.row h.pending c))

finish-IsSafe :
    (holds : ℕ) (h : Hook)
    → h.tasks ≡ []
    → (h.pending ≡ true) ⊎ IsSettled h.row
    → IsSafe holds (finish holds h)
unfolding finish
finish-IsSafe holds h t w = at h.pending refl
  where
    at :
        (p : Bool)
        → h.pending ≡ p
        → IsSafe holds (
            if p
            then fire_hook holds (record h { running = false })
            else record h { running = false })
    at true e = fire_hook-IsSafe holds (record h { running = false }) t refl
    at false e = resting t refl (inr (e, settled w))
      where
        settled : (h.pending ≡ true) ⊎ IsSettled h.row → IsSettled h.row
        settled (inl f) = absurd (cc)
        settled (inr s) = s

-- A run for all that is asked for leaves it applied.
mark_applied-IsSettled :
    (g : ℕ) (row : Option Generation) (p : Bool)
    → IsBounded row
    → Covers g row p
    → (p ≡ true) ⊎ IsSettled (mark_applied g row)
unfolding mark_applied
mark_applied-IsSettled g none p b c = inr tt
mark_applied-IsSettled g (some row) p b (low, inl e) = inl e
mark_applied-IsSettled g (some row) p b (low, inr e) = inr (inr (omega (arith, b, e)))

mark_failed-IsSettled : (row : Option Generation) → IsSettled (mark_failed row)
unfolding mark_failed
mark_failed-IsSettled none = tt
mark_failed-IsSettled (some row) = inl refl

mark_applying-Covers :
    (row : Option Generation) (p : Bool) → Covers (desired_of row) (mark_applying row) p
unfolding mark_applying
mark_applying-Covers none p = refl
mark_applying-Covers (some row) p = (omega arith, inr refl)

mark_applying-IsBounded : (row : Option Generation) → IsBounded row → IsBounded (mark_applying row)
unfolding mark_applying
mark_applying-IsBounded none b = tt
mark_applying-IsBounded (some row) b = b

mark_failed-IsBounded : (row : Option Generation) → IsBounded row → IsBounded (mark_failed row)
unfolding mark_failed
mark_failed-IsBounded none b = tt
mark_failed-IsBounded (some row) b = b

Covers-le : (g : ℕ) (row : Option Generation) (p : Bool) → Covers g row p → g ≤ desired_of row
Covers-le g none p c = omega (arith, c)
Covers-le g (some row) p c = c.0

-- The invariant of a hook.
pub record IsSound (holds : ℕ) (h : Hook) : Type 0 where
  pub safe : IsSafe holds h
  pub bounded : IsBounded h.row

pub fire_hook-row : (holds : ℕ) (h : Hook) → (fire_hook holds h).row ≡ h.row
unfolding fire_hook
fire_hook-row holds h = at (h.running || ltb 0 holds)
  where
    at :
        (b : Bool)
        → (if b then record h { pending = true } else record h {
          running = true;
          pending = false;
          tasks = h.tasks ++ scheduled ∷ [];
        }).row
          ≡ h.row
    at true = refl
    at false = refl

pub finish-row : (holds : ℕ) (h : Hook) → (finish holds h).row ≡ h.row
unfolding finish
finish-row holds h = at h.pending
  where
    at :
        (p : Bool)
        → (if p
            then fire_hook holds (record h { running = false })
            else record h { running = false }).row
          ≡ h.row
    at true = fire_hook-row holds (record h { running = false })
    at false = refl

finish-IsSound :
    (holds : ℕ) (h : Hook)
    → h.tasks ≡ []
    → (h.pending ≡ true) ⊎ IsSettled h.row
    → IsBounded h.row
    → IsSound holds (finish holds h)
finish-IsSound holds h t w b = record {
  safe = finish-IsSafe holds h t w;
  bounded = subst IsBounded (sym (finish-row holds h)) b;
}

pub run_hook-IsSound :
    (holds : ℕ) (o : RunOutcome) (h : Hook)
    → h.tasks ≡ []
    → h.running ≡ true
    → IsBounded h.row
    → IsSound holds (run_hook holds o h)
unfolding run_hook
run_hook-IsSound holds returned h t r b =
    let covers = mark_applying-Covers h.row h.pending in
    let bounded = mark_applying-IsBounded h.row b in
    finish-IsSound holds (record h { row = mark_applied (desired_of h.row) (mark_applying h.row) })
      t (mark_applied-IsSettled (desired_of h.row) (mark_applying h.row) h.pending bounded covers)
      (mark_applied-IsBounded (desired_of h.row) (mark_applying h.row)
        (Covers-le (desired_of h.row) (mark_applying h.row) h.pending covers) bounded)
run_hook-IsSound holds threw h t r b =
    finish-IsSound holds (record h { row = mark_failed (mark_applying h.row) }) t
      (inr (mark_failed-IsSettled (mark_applying h.row)))
      (mark_failed-IsBounded (mark_applying h.row) (mark_applying-IsBounded h.row b))
run_hook-IsSound holds promised h t r b = record {
  safe =
      settling (desired_of h.row) (ap (λ ts. awaiting (desired_of h.row) ∷ ts) t) r
        (mark_applying-Covers h.row h.pending);
  bounded = mark_applying-IsBounded h.row b;
}

pub settle_hook-IsSound :
    (holds g : ℕ) (fulfilled : Bool) (h : Hook)
    → h.tasks ≡ []
    → IsBounded h.row
    → Covers g h.row h.pending
    → IsSound holds (settle_hook holds g fulfilled h)
unfolding settle_hook
settle_hook-IsSound holds g true h t b c =
    finish-IsSound holds (record h { row = mark_applied g h.row }) t
      (mark_applied-IsSettled g h.row h.pending b c)
      (mark_applied-IsBounded g h.row (Covers-le g h.row h.pending c) b)
settle_hook-IsSound holds g false h t b c =
    finish-IsSound holds (record h { row = mark_failed h.row }) t
      (inr (mark_failed-IsSettled h.row)) (mark_failed-IsBounded h.row b)
