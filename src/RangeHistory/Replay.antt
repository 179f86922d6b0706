-- ===== src/RangeHistory/Replay.antt =====
-- The recorded changes, replayed on the coverage before a write, give the coverage after it.
use cidrella.Base.{
  ℕ, ◌≡◌, refl, ap, ap₂, ◌∙◌, arith, inl, inr, Bool, true, false, not, ◌&&◌, ◌||◌, List, [], ◌∷◌,
  ◌++◌, map, All, ltb, Bool-cases,
}
use cidrella.Base.Text.{Text}
use cidrella.RangeHistory.{
  Interval, RangeEventType, range_assigned, range_unassigned, Change, uncovered, changes_of,
  coverage_changes,
}
use cidrella.RangeHistory.Cutting.{IsRange, covers, covered_by, times, times-uncovered}

abbrev same_event : RangeEventType → RangeEventType → Bool
same_event range_assigned range_assigned = true
same_event range_assigned range_unassigned = false
same_event range_unassigned range_assigned = false
same_event range_unassigned range_unassigned = true

-- Whether one of the changes is of this kind, for this range type, and takes in the address.
pub changed : RangeEventType → Text → ℕ → ℕ → List Change → Bool
changed kind type family x [] = false
changed kind type family x (c ∷ cs) =
    (same_event c.type kind && covers type family x c.interval) || changed kind type family x cs

module _ (type : Text) (family x : ℕ) where
  changed-append :
      (kind : RangeEventType) (cs ds : List Change)
      → changed kind type family x (cs ++ ds)
        ≡ (changed kind type family x cs || changed kind type family x ds)
  unfolding changed
  changed-append kind [] ds = refl
  changed-append kind (c ∷ cs) ds = ground (arith, changed-append kind cs ds)

  covered_by-times :
      (is : List Interval) → covered_by type family x is ≡ ltb 0 (times type family x is)
  unfolding covered_by times
  covered_by-times [] = refl
  covered_by-times (i ∷ is) = ground (arith, covered_by-times is)

  changed-parts :
      (kind event : RangeEventType) (parts : List Interval)
      → changed kind type family x
          (map (λ (part : Interval). record { interval = part; type = event }) parts)
        ≡ (same_event event kind && covered_by type family x parts)
  unfolding changed covered_by
  changed-parts kind event [] = elim (Bool-cases (same_event event kind)) [
    | inl same ↦ rw same (refl)
    | inr other ↦ rw other (refl)
  ]
  changed-parts kind event (part ∷ parts) = ground (arith, changed-parts kind event parts)

  covered_by-uncovered :
      (i : Interval) (others : List Interval)
      → All IsRange others
      → covered_by type family x (uncovered i others)
        ≡ (covers type family x i && not (covered_by type family x others))
  covered_by-uncovered i others h =
      covered_by-times (uncovered i others)
      ∙ ap (ltb 0) (times-uncovered type family x i others h)
      ∙ ground arith

  changed-changes_of :
      (kind event : RangeEventType) (is others : List Interval)
      → All IsRange others
      → changed kind type family x (changes_of is others event) ≡ (
          same_event event kind
          && (covered_by type family x is && not (covered_by type family x others)))
  unfolding changed changes_of covered_by
  changed-changes_of kind event [] others h = elim (Bool-cases (same_event event kind)) [
    | inl same ↦ rw same (refl)
    | inr other ↦ rw other (refl)
  ]
  changed-changes_of kind event (i ∷ is) others h =
      changed-append kind
        (map (λ (part : Interval). record { interval = part; type = event }) (uncovered i others))
        (changes_of is others event)
      ∙ ap₂ (λ a b. a || b)
          (changed-parts kind event (uncovered i others)
            ∙ ap (λ t. same_event event kind && t) (covered_by-uncovered i others h))
          (changed-changes_of kind event is others h)
      ∙ ground arith

-- An address is covered by a range type after a write exactly when a change assigns it, or it was
-- covered before and no change takes it off. The ranges begin before they end.
pub coverage_changes-replay :
    (type : Text) (family x : ℕ) (before after : List Interval)
    → All IsRange before
    → All IsRange after
    → covered_by type family x after ≡ (
        changed range_assigned type family x (coverage_changes before after)
        || (covered_by type family x before
            && not (changed range_unassigned type family x (coverage_changes before after))))
unfolding coverage_changes
coverage_changes-replay type family x before after hb ha =
    rw
      (
        changed-append type family x range_assigned (changes_of before after range_unassigned)
            (changes_of after before range_assigned),
        changed-append type family x range_unassigned (changes_of before after range_unassigned)
            (changes_of after before range_assigned),
        changed-changes_of type family x range_assigned range_unassigned before after ha,
        changed-changes_of type family x range_assigned range_assigned after before hb,
        changed-changes_of type family x range_unassigned range_unassigned before after ha,
        changed-changes_of type family x range_unassigned range_assigned after before hb,
      )
      (ground arith)

-- What is assigned was not covered before, and what is taken off is not covered after.
pub coverage_changes-minimal :
    (type : Text) (family x : ℕ) (before after : List Interval)
    → All IsRange before
    → All IsRange after
    → (changed range_assigned type family x (coverage_changes before after)
        ≡ (covered_by type family x after && not (covered_by type family x before)))
      × (changed range_unassigned type family x (coverage_changes before after)
          ≡ (covered_by type family x before && not (covered_by type family x after)))
unfolding coverage_changes
coverage_changes-minimal type family x before after hb ha =
    rw
      (
        changed-append type family x range_assigned (changes_of before after range_unassigned)
            (changes_of after before range_assigned),
        changed-append type family x range_unassigned (changes_of before after range_unassigned)
            (changes_of after before range_assigned),
        changed-changes_of type family x range_assigned range_unassigned before after ha,
        changed-changes_of type family x range_assigned range_assigned after before hb,
        changed-changes_of type family x range_unassigned range_unassigned before after ha,
        changed-changes_of type family x range_unassigned range_assigned after before hb,
      )
      (ground arith, ground arith)
