-- ===== src/Cidr/Merge/Union.antt =====
-- `mergeNetworks` gives the union of its networks.
use cidrella.Base.{
  ℕ, ◌+◌, ◌-◌, ◌%◌, ◌^◌, ◌≤◌, ◌≡◌, refl, ap, sym, ◌∙◌, arith, bit_and, inl, inr, false, not, none,
  some, some-inj, List, [], ◌∷◌, ◌++◌, length, any, last_or, ltb, ◌==◌, Bool-cases, Option-cases,
  ==_iff, All,
}
use cidrella.Base.Powers.{power_of_two, pow-le_inv, length-to_string_pow}
use cidrella.Base.Text.{Text, to_string}
use cidrella.Cidr.{Network, parse_network, slash}
use cidrella.Cidr.Wellformed.{IsNetwork, IsParsed}
use cidrella.Cidr.Divide.Subtract.{inside_eq, in_network}
use cidrella.Cidr.Divide.Split.{in_networks}
use cidrella.Cidr.Merge.{
  valid, parse_networks, sort_networks, check_adjacent, total_size, merge_total, merge_sorted,
  merge_parsed, merge_networks,
}
use cidrella.Cidr.Merge.Sorting.{
  in_networks-sort_networks, All-sort_networks, adjacent_block, total_size-pos,
}
use cidrella.Cidr.Merge.Named.{All-IsParsed, IsParsed-IsNetwork, All-IsNetwork, IsMerged-parsed}

-- What `merge_total` has tested when it gives a text.
module _ (first : Network) (rest : List Network) (total : ℕ) (t : Text) where
  merge_total-valid :
      merge_total first rest total ≡ valid t
      → (bit_and total (total - 1) ≡ 0)
        × (first.network_big % total ≡ 0)
        × ((last_or first rest).last_big ≡ first.network_big + total - 1)
        × (first.network ++ slash ∷ to_string 10 (first.bits - (length (to_string 2 total) - 1))
            ≡ t)
  unfolding merge_total
  merge_total-valid h = ground arith

All-same :
    (a : Network) (nets : List Network)
    → any (λ net. not (net.family == a.family)) nets ≡ false
    → All (λ n. n.family ≡ a.family) nets
All-same a [] h = tt
All-same a (n ∷ nets) h = elim (Bool-cases (n.family == a.family)) [
  | inl same ↦ ((==_iff n.family a.family).0 same, All-same a nets (let e = rw same at h in e))
  | inr other ↦ absurd (let e = rw other at h in cc)
]

-- What `merge_parsed` has tested when it gives a text.
merge_parsed-valid :
    (a : Network) (nets : List Network) (t : Text)
    → merge_parsed (a ∷ nets) ≡ valid t
    → All (λ n. n.family ≡ a.family) (a ∷ nets)
      × (merge_sorted (sort_networks (a ∷ nets)) ≡ valid t)
unfolding merge_parsed
merge_parsed-valid a nets t h =
    elim (Bool-cases (any (λ net. not (net.family == a.family)) (a ∷ nets))) [
      | inl mixed ↦ absurd (let e = rw mixed at h in cc)
      | inr uniform ↦ (All-same a (a ∷ nets) uniform, (let e = rw uniform at h in e))
    ]

merge_sorted-valid :
    (a : Network) (bs : List Network) (t : Text)
    → merge_sorted (a ∷ bs) ≡ valid t
    → (check_adjacent a bs ≡ none) × (merge_total a bs (total_size (a ∷ bs)) ≡ valid t)
unfolding merge_sorted
merge_sorted-valid a bs t h = elim (Option-cases (check_adjacent a bs)) [
  | inl clear ↦ (clear, (let e = rw clear at h in e))
  | inr (err, wrong) ↦ absurd (let e = rw wrong at h in cc)
]

All-last_or {ℓ} :
    (P : Network → Type ℓ) (a : Network) (bs : List Network) → All P (a ∷ bs) → P (last_or a bs)
All-last_or P a [] (h, _) = h
All-last_or P a (b ∷ bs) (_, h) = All-last_or P b bs h

-- The union of networks: a text of a network of their family that holds the numbers they hold, each
-- as often.
abbrev pub IsUnion : List Network → ℕ → Text → Type 0
IsUnion nets family t =
    (m : Network) × ((parse_network t ≡ some m)
      × (m.family ≡ family)
      × ((x : ℕ) → in_networks nets x ≡ in_network m x))

same_bits : (a b : Network) → IsNetwork a → IsNetwork b → a.family ≡ b.family → a.bits ≡ b.bits
same_bits a b h k e = let f = h.families in let g = k.families in ground arith

module _ (first : Network) (rest : List Network) (t : Text) (f : ℕ)
    (every : All IsParsed (first ∷ rest)) (uniform : All (λ n. n.family ≡ f) (first ∷ rest))
    (merged : merge_sorted (first ∷ rest) ≡ valid t) where
  first-IsNetwork : IsNetwork first
  first-IsNetwork = IsParsed-IsNetwork first (every.0)

  last-IsNetwork : IsNetwork (last_or first rest)
  last-IsNetwork = All-last_or IsNetwork first rest (All-IsNetwork (first ∷ rest) every)

  last_bits : (last_or first rest).bits ≡ first.bits
  last_bits =
      same_bits (last_or first rest) first last-IsNetwork first-IsNetwork
        (All-last_or (λ n. n.family ≡ f) first rest uniform ∙ sym uniform.0)

  tested :
      (check_adjacent first rest ≡ none)
      × (merge_total first rest (total_size (first ∷ rest)) ≡ valid t)
  tested = merge_sorted-valid first rest t merged

  exponent_le :
      (k : ℕ)
      → total_size (first ∷ rest) ≡ 2 ^ k
      → (last_or first rest).last_big ≡ first.network_big + total_size (first ∷ rest) - 1
      → k ≤ first.bits
  exponent_le k e l =
      pow-le_inv k first.bits (omega (arith, last-IsNetwork.in_range, ap (λ b. 2 ^ b) last_bits))

  IsUnion-of : (k : ℕ) → total_size (first ∷ rest) ≡ 2 ^ k → IsUnion (first ∷ rest) f t
  IsUnion-of k e =
      let (_, aligned, ends, text) =
        merge_total-valid first rest (total_size (first ∷ rest)) t tested.1 in
      let (m, (parsed, family, block)) =
        IsMerged-parsed first k every.0 (exponent_le k e ends)
          (ap (λ s. first.network_big % s) (sym e) ∙ aligned) in
      (
        m,
        (
          ap parse_network (sym text ∙ ap named exponent) ∙ parsed,
          family ∙ uniform.0,
          λ x.
              adjacent_block first rest (All-IsNetwork (first ∷ rest) every) tested.0 x
              ∙ inside_eq _ _ _ _ x refl e
              ∙ sym (block x),
        ),
      )
    where
      named : ℕ → Text
      named j = first.network ++ slash ∷ to_string 10 (first.bits - j)

      exponent : length (to_string 2 (total_size (first ∷ rest))) - 1 ≡ k
      exponent = ap (λ s. length (to_string 2 s) - 1) e ∙ omega (arith, length-to_string_pow k)

  sorted-IsUnion : IsUnion (first ∷ rest) f t
  sorted-IsUnion =
      let tests = merge_total-valid first rest (total_size (first ∷ rest)) t tested.1 in
      let (k, e) =
        power_of_two (total_size (first ∷ rest)) (total_size-pos first rest first-IsNetwork)
          tests.0 in
      IsUnion-of k e

IsUnion-of_sorted :
    (s : List Network) (t : Text) (f : ℕ)
    → All IsParsed s
    → All (λ n. n.family ≡ f) s
    → merge_sorted s ≡ valid t
    → IsUnion s f t
unfolding merge_sorted
IsUnion-of_sorted [] t f every uniform merged = absurd (cc)
IsUnion-of_sorted (first ∷ rest) t f every uniform merged =
    sorted-IsUnion first rest t f every uniform merged

IsUnion-sort_networks :
    (nets : List Network) (f : ℕ) (t : Text) → IsUnion (sort_networks nets) f t → IsUnion nets f t
IsUnion-sort_networks nets f t (m, (parsed, family, block)) =
    (m, (parsed, family, λ x. sym (in_networks-sort_networks nets x) ∙ block x))

merge_parsed-IsUnion :
    (nets : List Network) (t : Text)
    → All IsParsed nets
    → merge_parsed nets ≡ valid t
    → (f : ℕ) × (All (λ n. n.family ≡ f) nets × IsUnion nets f t)
unfolding merge_parsed
merge_parsed-IsUnion [] t every merged = absurd (cc)
merge_parsed-IsUnion (a ∷ nets) t every merged =
    let (uniform, sorted) = merge_parsed-valid a nets t merged in
    (
      a.family,
      (
        uniform,
        IsUnion-sort_networks (a ∷ nets) a.family t (
            IsUnion-of_sorted (sort_networks (a ∷ nets)) t a.family
              (All-sort_networks IsParsed (a ∷ nets) every)
              (All-sort_networks (λ n. n.family ≡ a.family) (a ∷ nets) uniform) sorted),
      ),
    )

merge_networks-valid :
    (cidrs : List Text) (nets : List Network) (t : Text)
    → parse_networks cidrs ≡ some nets
    → merge_networks cidrs ≡ some (valid t)
    → merge_parsed nets ≡ valid t
unfolding merge_networks
merge_networks-valid cidrs nets t parsed h = elim (Bool-cases (ltb (length cidrs) 2)) [
  | inl few ↦ absurd (let e = rw few at h in cc)
  | inr enough ↦ let e = rw (enough, parsed) at h in some-inj e
]

-- When `mergeNetworks` says that a merge is valid, all the networks are of one family, and the text
-- it gives is parsed to a network of that family that holds every number exactly as often as the
-- networks together: they are disjoint and it is their union.
pub merge_networks-IsUnion :
    (cidrs : List Text) (nets : List Network) (t : Text)
    → parse_networks cidrs ≡ some nets
    → merge_networks cidrs ≡ some (valid t)
    → (f : ℕ) × (All (λ n. n.family ≡ f) nets × IsUnion nets f t)
merge_networks-IsUnion cidrs nets t parsed h =
    merge_parsed-IsUnion nets t (All-IsParsed cidrs nets parsed)
      (merge_networks-valid cidrs nets t parsed h)
