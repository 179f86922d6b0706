-- ===== src/Base/Text/Trimming.antt =====
-- `trim` of a text with no white space.
use mathlib.Core.Path.{◌≡◌, refl, ap, ◌∙◌}
use mathlib.Core.Bool.{false}
use mathlib.Core.List.{[], ◌∷◌}
use native.Mathlib.Omega.{arith}
use cidrella.Base.Lists.{All}
use cidrella.Base.Text.{Text, is_space, trim, trim_start, trim_end}

abbrev pub NoSpace : Text → Type 0
NoSpace = All (λ c. is_space c ≡ false)

trim_start-NoSpace : (s : Text) → NoSpace s → trim_start s ≡ s
unfolding trim_start
trim_start-NoSpace [] h = refl
trim_start-NoSpace (c ∷ s) (n, h) = ground arith

trim_end-NoSpace : (s : Text) → NoSpace s → trim_end s ≡ s
unfolding trim_end
trim_end-NoSpace [] h = refl
trim_end-NoSpace (c ∷ s) (n, h) = ground (arith, trim_end-NoSpace s h)

pub trim-NoSpace : (s : Text) → NoSpace s → trim s ≡ s
unfolding trim
trim-NoSpace s h = ap trim_end (trim_start-NoSpace s h) ∙ trim_end-NoSpace s h
