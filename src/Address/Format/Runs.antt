-- ===== src/Address/Format/Runs.antt =====
-- The run of zero groups that `formatIp` leaves out is a run of zero groups.
use cidrella.Base.{
  ℕ, zero, suc, ◌+◌, ◌≡◌, refl, ap, sym, ◌∙◌, true, List, [], ◌∷◌, ◌++◌, append_assoc, length,
  length-append, length-replicate, replicate, drop, ltb, Bool-cases, if◌then◌else◌, inl, inr, arith,
}
use cidrella.Base.Text.{Text, text_eq}
use cidrella.Address.{zero_text}
use cidrella.Address.Format.{zero_run, Run, best_run, no_run}

pub text_eq_sound : (s t : Text) → text_eq s t ≡ true → s ≡ t
text_eq_sound [] [] h = refl
text_eq_sound [] (d ∷ t) h = cc
text_eq_sound (c ∷ s) [] h = cc
text_eq_sound (c ∷ s) (d ∷ t) h = ground (arith, text_eq_sound s t)

zero_run-split : (gs : List Text) → gs ≡ replicate (zero_run gs) zero_text ++ drop (zero_run gs) gs
unfolding zero_run
zero_run-split [] = refl
zero_run-split (g ∷ gs) = ground (arith, text_eq_sound g zero_text, zero_run-split gs)

-- The groups before the run, and those behind it.
pub record IsRun (gs : List Text) (r : Run) : Type 0 where
  pub before : List Text
  pub behind : List Text
  pub whole : gs ≡ before ++ (replicate r.len zero_text ++ behind)
  pub start : length before ≡ r.start

module _ (gs : List Text) where
  no_run-IsRun : IsRun gs no_run
  no_run-IsRun = record { before = []; behind = gs; whole = refl; start = refl }

  IsRun-here :
      (pre rest : List Text)
      → gs ≡ pre ++ rest
      → IsRun gs (record { start = length pre; len = zero_run rest })
  IsRun-here pre rest e = record {
    before = pre;
    behind = drop (zero_run rest) rest;
    whole = e ∙ ap (λ t. pre ++ t) (zero_run-split rest);
    start = refl;
  }

  best_run-IsRun :
      (fuel : ℕ) (pre rest : List Text) (i : ℕ) (best : Run)
      → gs ≡ pre ++ rest
      → length pre ≡ i
      → IsRun gs best
      → IsRun gs (best_run fuel rest i best)
  unfolding best_run
  best_run-IsRun zero pre rest i best e p h = h
  best_run-IsRun (suc fuel) pre [] i best e p h = h
  best_run-IsRun (suc fuel) pre (g ∷ rest) i best e p h = elim (Bool-cases (text_eq g zero_text)) [
    | inl z ↦ rw z (
        best_run-IsRun fuel (pre ++ replicate n zero_text) (drop n (g ∷ rest)) (i + n) _ moved_on
          reach better)
    | inr other ↦ rw other (
        best_run-IsRun fuel (pre ++ g ∷ []) rest (suc i) best
          (e ∙ sym (append_assoc pre (g ∷ []) rest)) (omega (arith, p, length-append pre (g ∷ [])))
          h)
  ]
    where
      n : ℕ
      n = zero_run (g ∷ rest)

      moved_on : gs ≡ (pre ++ replicate n zero_text) ++ drop n (g ∷ rest)
      moved_on = e ∙ ap (λ t. pre ++ t) (zero_run-split (g ∷ rest)) ∙ sym (append_assoc pre _ _)

      reach : length (pre ++ replicate n zero_text) ≡ i + n
      reach =
          omega (arith, p, length-append pre (replicate n zero_text), length-replicate n zero_text)

      better : IsRun gs (if ltb best.len n then record { start = i; len = n } else best)
      better = elim (Bool-cases (ltb best.len n)) [
        | inl longer ↦ rw (longer, ← p) (IsRun-here pre (g ∷ rest) e)
        | inr not_longer ↦ rw not_longer h
      ]

  -- The run that is found in all groups.
  pub found-IsRun : IsRun gs (best_run 8 gs 0 no_run)
  found-IsRun = best_run-IsRun 8 [] gs 0 no_run refl refl no_run-IsRun
