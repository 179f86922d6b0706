-- ===== src/RangeHistory.antt =====
-- The history of a network's custom range types, server/src/models/range.js: `customCoverage`,
-- `uncovered` and `recordCoverageChange`. The rows that the database returns are arguments, and the
-- events that are inserted are the result.
pub mod Cutting
pub mod Replay
use cidrella.Base.{
  ℕ, suc, ◌+◌, ◌-◌, Bool, true, false, not, ◌&&◌, ◌||◌, Option, none, some, List, [], ◌∷◌, ◌++◌,
  map, ltb, leb, ◌==◌, if◌then◌else◌, ◌>>=◌,
}
use cidrella.Base.Text.{Text, text_eq}
use cidrella.Cidr.{address_to_big, big_to_address, cidr_runs}

-- A row of the query of `customCoverage`.
pub record RangeRow : Type 0 where
  pub id : ℕ
  pub start_ip : Text
  pub end_ip : Text
  pub type : Text

pub record Interval : Type 0 where
  pub id : ℕ
  pub type : Text
  pub family : ℕ
  pub start : ℕ
  pub end : ℕ

-- A part of an interval.
pub record Fragment : Type 0 where
  pub start : ℕ
  pub end : ℕ

unfoldable pub interval_of_row : RangeRow → Option Interval
interval_of_row row = address_to_big row.start_ip >>= λ start. address_to_big row.end_ip >>= λ end.
    some (record {
      id = row.id;
      type = row.type;
      family = start.family;
      start = start.value;
      end = end.value;
    })

unfoldable pub custom_coverage : List RangeRow → Option (List Interval)
custom_coverage [] = some []
custom_coverage (row ∷ rows) =
    interval_of_row row >>= λ interval. custom_coverage rows >>= λ rest. some (interval ∷ rest)

-- What is left of one fragment; `push` only on one of its sides, or on both.
unfoldable pub cut : Interval → Fragment → List Fragment
cut other fragment =
    if ltb other.end fragment.start || ltb fragment.end other.start
    then fragment ∷ []
    else (if ltb fragment.start other.start
        then record { start = fragment.start; end = other.start - 1 } ∷ []
        else [])
      ++ (if ltb other.end fragment.end
          then record { start = other.end + 1; end = fragment.end } ∷ []
          else [])

-- The loop over the fragments.
unfoldable pub cut_all : Interval → List Fragment → List Fragment
cut_all other [] = []
cut_all other (fragment ∷ fragments) = cut other fragment ++ cut_all other fragments

-- The loop over the other intervals.
unfoldable pub cut_by : Interval → List Interval → List Fragment → List Fragment
cut_by interval [] fragments = fragments
cut_by interval (other ∷ others) fragments =
    let skipped = cut_by interval others fragments in
    let cut_off = cut_by interval others (cut_all other fragments) in
    if not (text_eq other.type interval.type) || not (other.family == interval.family)
    then skipped
    else cut_off

unfoldable pub uncovered : Interval → List Interval → List Interval
uncovered interval others =
    map (λ (fragment : Fragment). record interval { start = fragment.start; end = fragment.end })
      (cut_by interval others (record { start = interval.start; end = interval.end } ∷ []))

pub data RangeEventType : Type 0 where
  range_assigned range_unassigned : RangeEventType

pub record RangeEvent : Type 0 where
  pub range_id : ℕ
  pub range_type : Text
  pub start_ip : Text
  pub end_ip : Text
  pub type : RangeEventType

-- An event before its addresses are rendered.
pub record Change : Type 0 where
  pub interval : Interval
  pub type : RangeEventType

unfoldable pub changes_of : List Interval → List Interval → RangeEventType → List Change
changes_of [] others type = []
changes_of (interval ∷ intervals) others type =
    map (λ (part : Interval). record { interval = part; type = type }) (uncovered interval others)
    ++ changes_of intervals others type

unfoldable pub coverage_changes : List Interval → List Interval → List Change
coverage_changes before after =
    changes_of before after range_unassigned ++ changes_of after before range_assigned

unfoldable pub event_of : Change → RangeEvent
event_of change = record {
  range_id = change.interval.id;
  range_type = change.interval.type;
  start_ip = big_to_address change.interval.start change.interval.family;
  end_ip = big_to_address change.interval.end change.interval.family;
  type = change.type;
}

unfoldable pub record_coverage_change : List Interval → List Interval → List RangeEvent
record_coverage_change before after = map event_of (coverage_changes before after)

-- `withRangeHistory`: the rows before and after the write.
unfoldable pub with_range_history : List RangeRow → List RangeRow → Option (List RangeEvent)
with_range_history rows_before rows_after = custom_coverage rows_before >>= λ before.
    custom_coverage rows_after >>= λ after. some (record_coverage_change before after)

-- `recordSubtreeRangesRemoved`: the rows of each network of the subtree.
unfoldable pub record_subtree_ranges_removed : List (List RangeRow) → Option (List RangeEvent)
record_subtree_ranges_removed [] = some []
record_subtree_ranges_removed (rows ∷ subnets) = custom_coverage rows >>= λ coverage.
    record_subtree_ranges_removed subnets >>= λ rest.
    some (record_coverage_change coverage [] ++ rest)

unfoldable pub history_runs : Unit {0}
unfolding cidr_runs interval_of_row custom_coverage cut cut_all cut_by uncovered changes_of
    coverage_changes event_of record_coverage_change with_range_history
    record_subtree_ranges_removed
history_runs = tt
