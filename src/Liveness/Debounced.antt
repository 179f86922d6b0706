-- ===== src/Liveness/Debounced.antt =====
-- The debounce of server/src/utils/ip-liveness.js against one that never forgets a write.
use cidrella.Base.{
  ℕ, ◌+◌, ◌*◌, ◌≤◌, ◌≡◌, ◌⊎◌, refl, sym, ap, ap₂, ◌∙◌, subst, arith, true, false, inl, inr, List,
  [], ◌∷◌, ltb, Bool-cases, if◌then◌else◌,
}
use cidrella.Base.Text.{Text, text_eq}
use cidrella.Liveness.{
  debounce_ms, should_ignore_ip, Write, Debounce, last_write, set_write, without_older,
  prune_debounce, QueryOutcome, ignored, debounced, recorded, Query, observe,
  record_dns_query_liveness, outcomes,
}
use cidrella.Liveness.Pruning.{
  IsUnique, last_write-without_older, last_write-set_write, set_write-IsUnique,
  without_older-IsUnique,
}

-- Without pruning: every write is remembered, the latest first.
unfoldable pub outcome_of : List Write → Query → QueryOutcome
outcome_of log q =
    if should_ignore_ip q.family q.ip
    then ignored
    else if ltb q.now (last_write log q.ip + debounce_ms)
    then debounced
    else if q.in_subnet
    then recorded
    else ignored

unfoldable pub logged : List Write → Query → QueryOutcome → List Write
logged log q recorded = record { ip = q.ip; at = q.now } ∷ log
logged log q debounced = log
logged log q ignored = log

unfoldable pub unpruned : List Write → List Query → List QueryOutcome
unpruned log [] = []
unpruned log (q ∷ qs) = let o = outcome_of log q in o ∷ unpruned (logged log q o) qs

-- The clock does not go back, and shows more than the debounce.
abbrev pub IsOrdered : ℕ → List Query → Type 0
IsOrdered now [] = Unit
IsOrdered now (q ∷ qs) = (now ≤ q.now) × (debounce_ms ≤ q.now) × IsOrdered q.now qs

-- What is left of the writes says the same, or forgets one that debounces no more.
abbrev Agrees : ℕ → List Write → List Write → Type 0
Agrees now ws log =
    (ip : Text)
    → (last_write ws ip ≡ last_write log ip)
      ⊎ ((last_write ws ip ≡ 0) × (last_write log ip + debounce_ms ≤ now))

Agrees-later :
    (prev now : ℕ) (ws log : List Write) → prev ≤ now → Agrees prev ws log → Agrees now ws log
Agrees-later prev now ws log le agrees ip = elim (agrees ip) [
  | inl e ↦ inl e
  | inr (z, b) ↦ inr (z, omega (arith, b, le))
]

Agrees-prune_debounce :
    (d : Debounce) (now : ℕ) (log : List Write)
    → IsUnique d.writes
    → Agrees now d.writes log
    → Agrees now (prune_debounce d now).writes log
unfolding prune_debounce
Agrees-prune_debounce d now log u agrees = elim (Bool-cases (ltb now (d.last_prune + 60000))) [
  | inl e ↦ rw e agrees
  | inr e ↦ rw e pruned
]
  where
    pruned :
        (ip : Text)
        → (last_write (without_older now (debounce_ms * 2) d.writes) ip ≡ last_write log ip)
          ⊎ ((last_write (without_older now (debounce_ms * 2) d.writes) ip ≡ 0)
              × (last_write log ip + debounce_ms ≤ now))
    pruned ip = elim (last_write-without_older now (debounce_ms * 2) d.writes ip u) [
      | inl e ↦
          subst (λ n. (n ≡ last_write log ip) ⊎ ((n ≡ 0) × (last_write log ip + debounce_ms ≤ now)))
            (sym e) (agrees ip)
      | inr (z, b) ↦ inr (z, elim (agrees ip) [ inl f ↦ omega (arith, b, f) | inr (y, c) ↦ c ])
    ]

prune_debounce-IsUnique :
    (d : Debounce) (now : ℕ) → IsUnique d.writes → IsUnique (prune_debounce d now).writes
unfolding prune_debounce
prune_debounce-IsUnique d now u = elim (Bool-cases (ltb now (d.last_prune + 60000))) [
  | inl e ↦ rw e u
  | inr e ↦ rw e (without_older-IsUnique now (debounce_ms * 2) d.writes u)
]

-- The test of the debounce is the same on both.
ltb-Agrees :
    (now : ℕ) (ws log : List Write) (ip : Text)
    → debounce_ms ≤ now
    → Agrees now ws log
    → ltb now (last_write ws ip + debounce_ms) ≡ ltb now (last_write log ip + debounce_ms)
ltb-Agrees now ws log ip h agrees = elim (agrees ip) [
  | inl e ↦ ap (λ n. ltb now (n + debounce_ms)) e
  | inr (z, b) ↦ ground (arith, z, b, h)
]

Agrees-set_write :
    (now : ℕ) (ws log : List Write) (ip : Text)
    → Agrees now ws log
    → Agrees now (set_write ws ip now) (record { ip = ip; at = now } ∷ log)
unfolding last_write
Agrees-set_write now ws log ip agrees other = elim (Bool-cases (text_eq ip other)) [
  | inl e ↦ inl (last_write-set_write ws ip other now ∙ rw e refl)
  | inr e ↦ rw (last_write-set_write ws ip other now, e) (agrees other)
]

-- A state of the code beside the log.
abbrev Tracks : ℕ → Debounce → List Write → Type 0
Tracks now d log = IsUnique d.writes × Agrees now d.writes log

observe-Tracks :
    (d : Debounce) (log : List Write) (q : Query)
    → should_ignore_ip q.family q.ip ≡ false
    → debounce_ms ≤ q.now
    → Tracks q.now d log
    → ((observe d q).1 ≡ outcome_of log q)
      × Tracks q.now (observe d q).0 (logged log q (outcome_of log q))
unfolding observe outcome_of logged
observe-Tracks d log q n h (u, agrees) =
    let same = ltb-Agrees q.now d.writes log q.ip h agrees in
    elim (Bool-cases (ltb q.now (last_write log q.ip + debounce_ms))) [
      | inl e ↦ rw (n, same, e) (refl, (u, agrees))
      | inr e ↦ elim (Bool-cases q.in_subnet) [
        | inl i ↦
            rw (n, same, e, i)
              (
                refl,
                (
                  set_write-IsUnique d.writes q.ip q.now u,
                  Agrees-set_write q.now d.writes log q.ip agrees,
                ),
              )
        | inr i ↦ rw (n, same, e, i) (refl, (u, agrees))
      ]
    ]

outcome_of-ignored :
    (log : List Write) (q : Query)
    → should_ignore_ip q.family q.ip ≡ true
    → outcome_of log q ≡ ignored
unfolding outcome_of
outcome_of-ignored log q e = rw e refl

outcomes-Tracks :
    (qs : List Query) (d : Debounce) (log : List Write) (now : ℕ)
    → IsOrdered now qs
    → Tracks now d log
    → outcomes d qs ≡ unpruned log qs
unfolding outcomes unpruned record_dns_query_liveness logged
outcomes-Tracks [] d log now o t = refl
outcomes-Tracks (q ∷ qs) d log now (le, h, o) (u, agrees) =
    let after = Agrees-later now q.now d.writes log le agrees in
    elim (Bool-cases (should_ignore_ip q.family q.ip)) [
      | inl e ↦
          rw (e, outcome_of-ignored log q e)
            (ap (λ os. ignored ∷ os) (outcomes-Tracks qs d log q.now o (u, after)))
      | inr e ↦
          let (same, t) =
            observe-Tracks (prune_debounce d q.now) log q e h
              (prune_debounce-IsUnique d q.now u, Agrees-prune_debounce d q.now log u after) in
          let kept =
            ap₂ (λ x xs. x ∷ xs) same
              (outcomes-Tracks qs (observe (prune_debounce d q.now) q).0
                (logged log q (outcome_of log q)) q.now o t) in
          rw e kept
    ]

-- Pruning shows in nothing: from a start, whatever the time of the last pruning, each query of a sequence
-- has the outcome that it has when every write is remembered forever. The clock does not go back and shows
-- at least the debounce.
pub outcomes-unpruned :
    (qs : List Query) (start : ℕ)
    → IsOrdered 0 qs
    → outcomes (record { writes = []; last_prune = start }) qs ≡ unpruned [] qs
unfolding last_write
outcomes-unpruned qs start o =
    outcomes-Tracks qs (record { writes = []; last_prune = start }) [] 0 o (tt, λ ip. inl refl)
