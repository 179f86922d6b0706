-- ===== src/RangeHistory/Cutting.antt =====
-- `uncovered` keeps the addresses of an interval that no other interval of its type covers.
use cidrella.Base.{
  ℕ, ◌+◌, ◌*◌, ◌≤◌, ◌≡◌, ap, ap₂, ◌∙◌, arith, inl, inr, Bool, true, false, not, ◌&&◌, ◌||◌, List,
  [], ◌∷◌, ◌++◌, map, All, leb, ◌==◌, if◌then◌else◌, Bool-cases,
}
use cidrella.Base.Text.{Text, text_eq}
use cidrella.Address.Format.Runs.{text_eq_sound}
use cidrella.RangeHistory.{Interval, Fragment, cut, cut_all, cut_by, uncovered}

-- 1 for a number from `start` to `end`, and 0 for any other.
unfoldable pub between : ℕ → ℕ → ℕ → ℕ
between start end x = if leb start x && leb x end then 1 else 0

-- In how many of the fragments the number lies.
pub in_fragments : List Fragment → ℕ → ℕ
in_fragments [] x = 0
in_fragments (f ∷ fs) x = between f.start f.end x + in_fragments fs x

abbrev pub IsRange : Interval → Type 0
IsRange i = i.start ≤ i.end

-- Whether the interval of the type and the family covers the address.
unfoldable pub covers : Text → ℕ → ℕ → Interval → Bool
covers type family x i = text_eq i.type type && i.family == family && leb i.start x && leb x i.end

unfoldable pub covered_by : Text → ℕ → ℕ → List Interval → Bool
covered_by type family x [] = false
covered_by type family x (i ∷ is) = covers type family x i || covered_by type family x is

in_fragments-append :
    (fs gs : List Fragment) (x : ℕ)
    → in_fragments (fs ++ gs) x ≡ in_fragments fs x + in_fragments gs x
unfolding in_fragments
in_fragments-append [] gs x = omega arith
in_fragments-append (f ∷ fs) gs x = omega (arith, in_fragments-append fs gs x)

abbrev outside : Interval → ℕ → ℕ
outside other x = if leb other.start x && leb x other.end then 0 else 1

cut_lem :
    (other : Interval) (f : Fragment) (x : ℕ)
    → IsRange other
    → in_fragments (cut other f) x ≡ between f.start f.end x * outside other x
unfolding in_fragments cut between
cut_lem other f x h = ground arith

cut_all_lem :
    (other : Interval) (fs : List Fragment) (x : ℕ)
    → IsRange other
    → in_fragments (cut_all other fs) x ≡ in_fragments fs x * outside other x
unfolding in_fragments cut_all
cut_all_lem other [] x h = omega arith
cut_all_lem other (f ∷ fs) x h =
    in_fragments-append (cut other f) (cut_all other fs) x
    ∙ ground (arith, cut_lem other f x h, cut_all_lem other fs x h)

-- 0 if one of the intervals of the type and family covers the address, and 1 otherwise.
abbrev apart_from : Text → ℕ → ℕ → List Interval → ℕ
apart_from type family x is = if covered_by type family x is then 0 else 1

skip_lem :
    (type : Text) (family x : ℕ) (other : Interval) (others : List Interval)
    → (not (text_eq other.type type) || not (other.family == family)) ≡ true
    → apart_from type family x (other ∷ others) ≡ apart_from type family x others
unfolding covered_by covers
skip_lem type family x other others h = ground arith

cut_lem_by :
    (type : Text) (family x m : ℕ) (other : Interval) (others : List Interval)
    → (not (text_eq other.type type) || not (other.family == family)) ≡ false
    → m * outside other x * apart_from type family x others
      ≡ m * apart_from type family x (other ∷ others)
unfolding covered_by covers
cut_lem_by type family x m other others h = ground arith

cut_by_lem :
    (i : Interval) (others : List Interval) (fs : List Fragment) (x : ℕ)
    → All IsRange others
    → in_fragments (cut_by i others fs) x ≡ in_fragments fs x * apart_from i.type i.family x others
unfolding cut_by
cut_by_lem i [] fs x h = unfold covered_by in omega arith
cut_by_lem i (other ∷ others) fs x (r, h) =
    elim (Bool-cases (not (text_eq other.type i.type) || not (other.family == i.family))) [
      | inl skipped ↦
          rw (skipped, skip_lem i.type i.family x other others skipped) (cut_by_lem i others fs x h)
      | inr cuts ↦ rw cuts (
          cut_by_lem i others (cut_all other fs) x h
          ∙ ap (λ t. t * apart_from i.type i.family x others) (cut_all_lem other fs x r)
          ∙ cut_lem_by i.type i.family x (in_fragments fs x) other others cuts)
    ]

-- How many of the intervals of the type and the family cover the address.
unfoldable pub times : Text → ℕ → ℕ → List Interval → ℕ
times type family x [] = 0
times type family x (i ∷ is) = (if covers type family x i then 1 else 0) + times type family x is

abbrev part_of : Interval → Fragment → Interval
part_of i f = record i { start = f.start; end = f.end }

times-parts :
    (type : Text) (family x : ℕ) (i : Interval) (fs : List Fragment)
    → times type family x (map (λ (f : Fragment). record i { start = f.start; end = f.end }) fs)
      ≡ (if text_eq i.type type && i.family == family then in_fragments fs x else 0)
unfolding times in_fragments covers between
times-parts type family x i [] = ground arith
times-parts type family x i (f ∷ fs) = ground (arith, times-parts type family x i fs)

uncovered_of :
    (i : Interval) (others : List Interval) (x : ℕ)
    → All IsRange others
    → in_fragments (cut_by i others (record { start = i.start; end = i.end } ∷ [])) x
      ≡ between i.start i.end x * apart_from i.type i.family x others
uncovered_of i others x h =
    cut_by_lem i others (record { start = i.start; end = i.end } ∷ []) x h
    ∙ unfold in_fragments in omega arith

same_apart :
    (type : Text) (family x : ℕ) (i : Interval) (others : List Interval)
    → text_eq i.type type ≡ true
    → i.family ≡ family
    → apart_from i.type i.family x others ≡ apart_from type family x others
same_apart type family x i others same e =
    ap₂ (λ t f. apart_from t f x others) (text_eq_sound i.type type same) e

parts_value :
    (type : Text) (family x m : ℕ) (i : Interval) (others : List Interval)
    → m ≡ between i.start i.end x * apart_from i.type i.family x others
    → (if text_eq i.type type && i.family == family then m else 0)
      ≡ (if covers type family x i && not (covered_by type family x others) then 1 else 0)
unfolding covers between
parts_value type family x m i others e =
    elim (Bool-cases (text_eq i.type type && i.family == family)) [
      | inr other ↦ ground (arith, other)
      | inl same ↦
          let apart =
            same_apart type family x i others (ground (arith, same)) (ground (arith, same)) in
          ground (arith, same, e, apart)
    ]

-- The parts of an interval that no other covers: an address is in one of them, and in one only, exactly
-- when the interval covers it and none of the others of its type and family does. The others begin
-- before they end.
pub times-uncovered :
    (type : Text) (family x : ℕ) (i : Interval) (others : List Interval)
    → All IsRange others
    → times type family x (uncovered i others)
      ≡ (if covers type family x i && not (covered_by type family x others) then 1 else 0)
unfolding uncovered
times-uncovered type family x i others h =
    times-parts type family x i (cut_by i others (record { start = i.start; end = i.end } ∷ []))
    ∙ parts_value type family x _ i others (uncovered_of i others x h)
