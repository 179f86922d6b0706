-- ===== src/Semver.antt =====
-- The order of versions, server/src/utils/semver.js.
pub mod Order
use Prim.Native.Nat.{compare, Ordering}
use Prim.Native.Nat.Ordering.{lt, eq, gt}
use cidrella.Base.{
  ℕ, ◌≡◌, refl, Bool, true, false, not, ◌&&◌, ◌||◌, Option, none, some, List, [], ◌∷◌, ◌==◌,
  if◌then◌else◌, all, get_elem?,
}
use cidrella.Base.Text.{
  Text, codes, is_empty, split, trim_start, is_digit, parse_int, starts_with, text_runs,
}
use cidrella.DhcpOptions.{digits_of, option_runs}

-- -1, 0 and 1 are `lt`, `eq` and `gt`. The first that is not 0 decides.
abbrev pub then_by : Ordering → Ordering → Ordering
then_by lt o = lt
then_by eq o = o
then_by gt o = gt

-- Element by element, and a list that ends first comes first.
unfoldable pub compare_lists {ℓ} : {A : Type ℓ} → (A → A → Ordering) → List A → List A → Ordering
compare_lists cmp [] [] = eq
compare_lists cmp [] (y ∷ ys) = lt
compare_lists cmp (x ∷ xs) [] = gt
compare_lists cmp (x ∷ xs) (y ∷ ys) = then_by (cmp x y) (compare_lists cmp xs ys)

-- `x < y` on texts goes by code units.
unfoldable pub compare_text : Text → Text → Ordering
compare_text = compare_lists compare

-- `/^\d+$/`
unfoldable pub is_numeric : Text → Bool
is_numeric s = not (is_empty s) && all is_digit s

abbrev pub pick : Bool → Bool → Ordering → Ordering → Ordering
pick true true numbers texts = numbers
pick true false numbers texts = lt
pick false true numbers texts = gt
pick false false numbers texts = texts

unfoldable pub compare_ids : Text → Text → Ordering
compare_ids x y =
    pick (is_numeric x) (is_numeric y) (compare (parse_int 10 x) (parse_int 10 y))
      (compare_text x y)

-- The loop over the identifiers that both have, and then the lengths.
unfoldable pub compare_pre : List Text → List Text → Ordering
compare_pre = compare_lists compare_ids

pub record Version : Type 0 where
  pub major : ℕ
  pub minor : ℕ
  pub patch : ℕ
  pub pre : List Text

-- `.split(sep)[0]`
unfoldable pub before : ℕ → Text → Text
before sep [] = []
before sep (c ∷ s) = let rest = before sep s in if c == sep then [] else c ∷ rest

-- What follows the first separator.
unfoldable pub behind : ℕ → Text → Text
behind sep [] = []
behind sep (c ∷ s) = let rest = behind sep s in if c == sep then s else rest

-- `(.*)` ends at a line terminator.
unfoldable pub to_line_end : Text → Text
to_line_end [] = []
to_line_end (c ∷ s) =
    let rest = to_line_end s in
    if c == 10 || c == 13 || c == 8232 || c == 8233 then [] else c ∷ rest

-- `parseInt(s, 10) || 0` of a text without a sign
abbrev number_of : Text → ℕ
number_of s = parse_int 10 (digits_of (trim_start s))

abbrev part_of : List Text → ℕ → ℕ
part_of parts i = elim (get_elem? parts i) [ none ↦ 0 | some s ↦ number_of s ]

abbrev identifiers : Text → List Text
identifiers [] = []
identifiers (c ∷ s) = split 46 (c ∷ s)

abbrev without_v : Text → Text
without_v [] = []
without_v (c ∷ s) = if c == 118 then s else c ∷ s

unfoldable pub parse_version : Text → Version
parse_version s =
    let plain = before 43 (without_v s) in
    let parts = split 46 (before 45 plain) in
    record {
      major = part_of parts 0;
      minor = part_of parts 1;
      patch = part_of parts 2;
      pre = identifiers (to_line_end (behind 45 plain));
    }

-- A version without identifiers outranks one with.
unfoldable pub compare_tags : List Text → List Text → Ordering
compare_tags [] [] = eq
compare_tags [] (y ∷ ys) = gt
compare_tags (x ∷ xs) [] = lt
compare_tags (x ∷ xs) (y ∷ ys) = compare_pre (x ∷ xs) (y ∷ ys)

unfoldable pub compare_versions : Version → Version → Ordering
compare_versions a b = then_by (compare a.major b.major) (
    then_by (compare a.minor b.minor)
      (then_by (compare a.patch b.patch) (compare_tags a.pre b.pre)))

unfoldable pub compare_semver : Text → Text → Ordering
compare_semver a b = compare_versions (parse_version a) (parse_version b)

unfoldable pub semver_runs : Unit {0}
unfolding compare_lists compare_text is_numeric compare_ids compare_pre before behind to_line_end
    parse_version compare_tags compare_versions compare_semver option_runs text_runs
semver_runs = tt
