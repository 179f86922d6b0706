-- ===== src/Base/Text/Splitting.antt =====
-- Splitting a joined list, texts with no adjacent pair of separators, and trimming.
use Prim.Native.Nat.{ℕ}
use mathlib.Core.Path.{◌≡◌, refl, ap, ◌∙◌}
use mathlib.Core.Logic.{◌≢◌}
use mathlib.Core.Bool.{true, false}
use mathlib.Core.Option.{none, some}
use mathlib.Core.List.{List, [], ◌∷◌, ◌++◌}
use native.Mathlib.Omega.{arith}
use cidrella.Base.Lists.{length, All, All-append}
use cidrella.Base.Text.{Text, includes, index_of, last_index_of, split, split_pair, join}

abbrev pub Lacks : ℕ → Text → Type 0
Lacks c = All (λ x. x ≢ c)

pub split-Lacks : (sep : ℕ) (p : Text) → Lacks sep p → split sep p ≡ p ∷ []
unfolding split
split-Lacks sep [] h = refl
split-Lacks sep (c ∷ p) (n, h) = ground (arith, split-Lacks sep p h)

split-append :
    (sep : ℕ) (p rest : Text) → Lacks sep p → split sep (p ++ sep ∷ rest) ≡ p ∷ split sep rest
unfolding split
split-append sep [] rest h = ground arith
split-append sep (c ∷ p) rest (n, h) = ground (arith, split-append sep p rest h)

-- Splitting a join gives the parts back, when there is one and none holds the separator.
pub split-join :
    (sep : ℕ) (ps : List Text) → ps ≢ [] → All (Lacks sep) ps → split sep (join sep ps) ≡ ps
unfolding join
split-join sep [] h k = absurd (h refl)
split-join sep (p ∷ []) h (k, _) = split-Lacks sep p k
split-join sep (p ∷ (q ∷ ps)) h (k, ks) =
    split-append sep p _ k ∙ ap (λ t. p ∷ t) (split-join sep (q ∷ ps) (cc) ks)

module _ {ℓ} (P : ℕ → Type ℓ) where
  pub All-join : (sep : ℕ) (ps : List Text) → P sep → All (All P) ps → All P (join sep ps)
  unfolding join
  All-join sep [] s h = tt
  All-join sep (p ∷ []) s (h, _) = h
  All-join sep (p ∷ (q ∷ ps)) s (h, hs) = All-append P p _ h (s, All-join sep (q ∷ ps) s hs)

pub includes-Lacks : (c : ℕ) (s : Text) → Lacks c s → includes c s ≡ false
includes-Lacks c [] h = refl
includes-Lacks c (x ∷ s) (n, h) = ground (arith, includes-Lacks c s h)

pub includes_at : (c : ℕ) (s t : Text) → includes c (s ++ c ∷ t) ≡ true
includes_at c [] t = ground arith
includes_at c (x ∷ s) t = ground (arith, includes_at c s t)

pub index_of-Lacks : (c : ℕ) (s : Text) → Lacks c s → index_of (c ∷ []) s ≡ none
unfolding index_of
index_of-Lacks c [] h = refl
index_of-Lacks c (x ∷ s) (n, h) = ground (arith, index_of-Lacks c s h)

pub last_index_of-Lacks : (c : ℕ) (s : Text) → Lacks c s → last_index_of (c ∷ []) s ≡ none
unfolding last_index_of
last_index_of-Lacks c [] h = refl
last_index_of-Lacks c (x ∷ s) (n, h) = ground (arith, last_index_of-Lacks c s h)

pub last_index_of_at :
    (c : ℕ) (s t : Text) → Lacks c t → last_index_of (c ∷ []) (s ++ c ∷ t) ≡ some (length s)
unfolding last_index_of
last_index_of_at c [] t h = ground (arith, last_index_of-Lacks c t h)
last_index_of_at c (x ∷ s) t h = ground (arith, last_index_of_at c s t h)

-- No two adjacent separators.
abbrev pub NoPair : ℕ → Text → Type 0
NoPair c [] = Unit
NoPair c (a ∷ []) = Unit
NoPair c (a ∷ (b ∷ s)) = ((a ≡ c) → b ≢ c) × NoPair c (b ∷ s)

module _ (c : ℕ) where
  pub NoPair-tail : (a : ℕ) (s : Text) → NoPair c (a ∷ s) → NoPair c s
  NoPair-tail a [] h = tt
  NoPair-tail a (b ∷ s) (_, h) = h

  pub NoPair-prefix : (s t : Text) → NoPair c (s ++ t) → NoPair c s
  NoPair-prefix [] t h = tt
  NoPair-prefix (a ∷ []) t h = tt
  NoPair-prefix (a ∷ (b ∷ s)) t (n, h) = (n, NoPair-prefix (b ∷ s) t h)

  pub NoPair-append : (p rest : Text) → Lacks c p → NoPair c rest → NoPair c (p ++ rest)
  NoPair-append [] rest h k = k
  NoPair-append (a ∷ []) [] h k = tt
  NoPair-append (a ∷ []) (b ∷ rest) (n, _) k = (λ e. absurd (n e), k)
  NoPair-append (a ∷ (b ∷ p)) rest (n, h) k = (λ e. absurd (n e), NoPair-append (b ∷ p) rest h k)

  pub index_of-NoPair : (s : Text) → NoPair c s → index_of (c ∷ c ∷ []) s ≡ none
  unfolding index_of
  index_of-NoPair [] h = refl
  index_of-NoPair (a ∷ []) h = ground arith
  index_of-NoPair (a ∷ (b ∷ s)) (n, h) = ground (arith, index_of-NoPair (b ∷ s) h)

  pub last_index_of-NoPair : (s : Text) → NoPair c s → last_index_of (c ∷ c ∷ []) s ≡ none
  unfolding last_index_of
  last_index_of-NoPair [] h = refl
  last_index_of-NoPair (a ∷ []) h = ground arith
  last_index_of-NoPair (a ∷ (b ∷ s)) (n, h) = ground (arith, last_index_of-NoPair (b ∷ s) h)

  pub split_pair-NoPair : (s : Text) → NoPair c s → split_pair c s ≡ s ∷ []
  unfolding split_pair
  split_pair-NoPair [] h = refl
  split_pair-NoPair (a ∷ []) h = refl
  split_pair-NoPair (a ∷ (b ∷ s)) (n, h) = ground (arith, split_pair-NoPair (b ∷ s) h)
