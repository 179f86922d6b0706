-- ===== src/Cidr/Merge/Sorting.antt =====
-- Sorting the networks keeps them, and adjacent networks in order fill one block.
use cidrella.Base.{
  ℕ, ◌+◌, ◌-◌, ◌^◌, ◌≤◌, ◌≡◌, refl, ap, sym, ◌∙◌, arith, none, inl, inr, List, [], ◌∷◌, leb, ◌==◌,
  Bool-cases, ==_iff, All,
}
use cidrella.Base.Bits.{pow_pos}
use cidrella.Cidr.{Network}
use cidrella.Cidr.Wellformed.{IsNetwork}
use cidrella.Cidr.Divide.Subtract.{inside, inside_append, inside_eq, in_network}
use cidrella.Cidr.Divide.Split.{in_networks}
use cidrella.Cidr.Merge.{insert_sorted, sort_networks, check_adjacent, total_size}

in_networks-insert_sorted :
    (a : Network) (bs : List Network) (x : ℕ)
    → in_networks (insert_sorted a bs) x ≡ in_network a x + in_networks bs x
unfolding insert_sorted in_networks
in_networks-insert_sorted a [] x = refl
in_networks-insert_sorted a (b ∷ bs) x = elim (Bool-cases (leb a.network_big b.network_big)) [
  | inl before ↦ rw before (refl)
  | inr after ↦ rw after (omega (arith, in_networks-insert_sorted a bs x))
]

pub in_networks-sort_networks :
    (nets : List Network) (x : ℕ) → in_networks (sort_networks nets) x ≡ in_networks nets x
unfolding sort_networks in_networks
in_networks-sort_networks [] x = refl
in_networks-sort_networks (a ∷ nets) x =
    in_networks-insert_sorted a (sort_networks nets) x
    ∙ ap (λ t. in_network a x + t) (in_networks-sort_networks nets x)

module _ {ℓ} (P : Network → Type ℓ) where
  All-insert_sorted :
      (a : Network) (bs : List Network) → P a → All P bs → All P (insert_sorted a bs)
  unfolding insert_sorted
  All-insert_sorted a [] p h = (p, tt)
  All-insert_sorted a (b ∷ bs) p (q, h) = elim (Bool-cases (leb a.network_big b.network_big)) [
    | inl before ↦ rw before (p, (q, h))
    | inr after ↦ rw after (q, All-insert_sorted a bs p h)
  ]

  pub All-sort_networks : (nets : List Network) → All P nets → All P (sort_networks nets)
  unfolding sort_networks
  All-sort_networks [] h = tt
  All-sort_networks (a ∷ nets) (p, h) =
      All-insert_sorted a (sort_networks nets) p (All-sort_networks nets h)

check_adjacent-none :
    (a b : Network) (bs : List Network)
    → check_adjacent a (b ∷ bs) ≡ none
    → (b.network_big ≡ a.last_big + 1) × (check_adjacent b bs ≡ none)
unfolding check_adjacent
check_adjacent-none a b bs h = elim (Bool-cases (leb b.network_big a.last_big)) [
  | inl over ↦ absurd (let e = rw over at h in cc)
  | inr past ↦ elim (Bool-cases (b.network_big == a.last_big + 1)) [
    | inl next ↦ ((==_iff b.network_big _).0 next, (let e = rw (past, next) at h in e))
    | inr apart ↦ absurd (let e = rw (past, apart) at h in cc)
  ]
]

-- Networks each of which begins where the one before it ends hold the numbers of one block, as long
-- as their sizes together.
pub adjacent_block :
    (a : Network) (bs : List Network)
    → All IsNetwork (a ∷ bs)
    → check_adjacent a bs ≡ none
    → (x : ℕ) → in_networks (a ∷ bs) x ≡ inside a.network_big (total_size (a ∷ bs)) x
unfolding in_networks total_size
adjacent_block a [] (h, _) none_wrong x =
    let size = h.size in
    let e : in_network a x ≡ inside a.network_big (a.size_big + 0) x =
      inside_eq _ _ _ _ x refl (omega (arith, size)) in
    omega (arith, e)
adjacent_block a (b ∷ bs) (h, hs) none_wrong x =
    let (next, rest) = check_adjacent-none a b bs none_wrong in
    let start : b.network_big ≡ a.network_big + 2 ^ (a.bits - a.prefix) =
      omega (arith, next, h.last) in
    ap (λ t. in_network a x + t) (adjacent_block b bs hs rest x ∙ inside_eq _ _ _ _ x start refl)
    ∙ inside_append a.network_big (2 ^ (a.bits - a.prefix)) _ x
    ∙ inside_eq _ _ _ _ x refl (ap (λ t. t + total_size (b ∷ bs)) (sym h.size))

pub total_size-pos : (a : Network) (bs : List Network) → IsNetwork a → 1 ≤ total_size (a ∷ bs)
unfolding total_size
total_size-pos a bs h = omega (arith, h.size, pow_pos (a.bits - a.prefix))
