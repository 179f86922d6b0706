-- ===== src/Base/Text/Pairs.antt =====
-- A text with one adjacent pair of separators, and joins of groups, which have none.
use Prim.Native.Nat.{ℕ}
use mathlib.Core.Path.{◌≡◌, refl}
use mathlib.Core.Logic.{◌≢◌}
use mathlib.Core.Option.{some}
use mathlib.Core.List.{List, [], ◌∷◌, ◌++◌, append_assoc}
use native.Mathlib.Omega.{arith}
use cidrella.Base.Lists.{length, All}
use cidrella.Base.Text.{Text, index_of, last_index_of, split_pair, join}
use cidrella.Base.Text.Splitting.{
  Lacks, NoPair, NoPair-append, last_index_of-NoPair, split_pair-NoPair,
}

module _ (c : ℕ) where
  pub index_of_pair :
      (h t : Text)
      → NoPair c (h ++ c ∷ [])
      → index_of (c ∷ c ∷ []) (h ++ c ∷ c ∷ t) ≡ some (length h)
  unfolding index_of
  index_of_pair [] t n = ground arith
  index_of_pair (a ∷ []) t (n, _) = ground (arith)
  index_of_pair (a ∷ (b ∷ h)) t (n, k) = ground (arith, index_of_pair (b ∷ h) t k)

  pub last_index_of_pair :
      (h t : Text)
      → NoPair c (c ∷ t)
      → last_index_of (c ∷ c ∷ []) (h ++ c ∷ c ∷ t) ≡ some (length h)
  unfolding last_index_of
  last_index_of_pair [] t n = ground (arith, last_index_of-NoPair c (c ∷ t) n)
  last_index_of_pair (a ∷ h) t n = ground (arith, last_index_of_pair h t n)

  pub split_pair_at :
      (h t : Text)
      → NoPair c (h ++ c ∷ [])
      → NoPair c t
      → split_pair c (h ++ c ∷ c ∷ t) ≡ h ∷ t ∷ []
  unfolding split_pair
  split_pair_at [] t n m = ground (arith, split_pair-NoPair c t m)
  split_pair_at (a ∷ []) t (n, _) m = ground (arith, split_pair-NoPair c t m)
  split_pair_at (a ∷ (b ∷ h)) t (n, k) m = ground (arith, split_pair_at (b ∷ h) t k m)

  -- A group is not empty and holds no separator.
  abbrev pub IsGroup : Text → Type 0
  IsGroup p = (p ≢ []) × Lacks c p

  group-NoPair : (p rest : Text) → IsGroup p → NoPair c rest → NoPair c (c ∷ (p ++ rest))
  group-NoPair [] rest (h, _) n = absurd (h refl)
  group-NoPair (a ∷ p) rest (_, h) n = (λ _. h.0, NoPair-append c (a ∷ p) rest h n)

  -- Separators at both ends of a join of groups make no pair.
  pub join-NoPair :
      (p : Text) (ps : List Text)
      → All IsGroup (p ∷ ps)
      → NoPair c (c ∷ (join c (p ∷ ps) ++ c ∷ []))
  unfolding join
  join-NoPair p [] (g, _) = group-NoPair p (c ∷ []) g tt
  join-NoPair p (q ∷ ps) (g, gs) = rw (append_assoc) (group-NoPair p _ g (join-NoPair q ps gs))
