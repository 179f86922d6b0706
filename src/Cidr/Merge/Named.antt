-- ===== src/Cidr/Merge/Named.antt =====
-- The network that the text of a merge names.
use cidrella.Base.{
  ℕ, ◌-◌, ◌*◌, ◌/◌, ◌%◌, ◌^◌, ◌≤◌, ◌≡◌, refl, ap, ◌∙◌, subst, arith, some, >>=-eq-some, some-inj,
  List, [], ◌∷◌, ◌++◌, All,
}
use cidrella.Base.Bits.{pow_pos}
use cidrella.Base.Text.{Text, to_string}
use cidrella.Cidr.{
  BigAddress, Network, parse_network, build_network, network_text, big_to_address, network_of,
  slash,
}
use cidrella.Cidr.Numbers.{network_of_le}
use cidrella.Cidr.Wellformed.{
  IsBig, IsNetwork, IsParsed, parse_network-IsParsed, build_network-IsNetwork,
}
use cidrella.Cidr.RoundTrip.{parse_network-network_text}
use cidrella.Cidr.Normal.{start_of, start-IsBig}
use cidrella.Cidr.Divide.Subtract.{inside, inside_eq, in_network}
use cidrella.Cidr.Merge.{parse_networks}

pub All-IsParsed :
    (cidrs : List Text) (nets : List Network) → parse_networks cidrs ≡ some nets → All IsParsed nets
unfolding parse_networks
All-IsParsed [] nets h = subst (All IsParsed) (some-inj h) tt
All-IsParsed (c ∷ cs) nets h =
    let (a, parsed, h1) = >>=-eq-some (parse_network c) _ h in
    let (rest, others, h2) = >>=-eq-some (parse_networks cs) _ h1 in
    subst (All IsParsed) (some-inj h2)
      (parse_network-IsParsed c a parsed, All-IsParsed cs rest others)

pub IsParsed-IsNetwork : (n : Network) → IsParsed n → IsNetwork n
IsParsed-IsNetwork n p =
    subst IsNetwork p.built (build_network-IsNetwork p.address p.prefix p.big p.le)

pub All-IsNetwork : (nets : List Network) → All IsParsed nets → All IsNetwork nets
All-IsNetwork [] h = tt
All-IsNetwork (n ∷ nets) (p, h) = (IsParsed-IsNetwork n p, All-IsNetwork nets h)

-- What merging networks that fill the block of `2 ^ k` addresses from the first one's on gives.
abbrev pub IsMerged : Network → ℕ → Network → Type 0
IsMerged first k m =
    (parse_network (first.network ++ slash ∷ to_string 10 (first.bits - k)) ≡ some m)
    × (m.family ≡ first.family)
    × ((x : ℕ) → in_network m x ≡ inside first.network_big (2 ^ k) x)

module _ (a : BigAddress) (p : ℕ) (h : IsBig a) (fits : p ≤ a.bits) (k : ℕ) (le : k ≤ a.bits)
    (aligned : network_of a.bits p a.value % 2 ^ k ≡ 0) where
  merged_start :
      network_of a.bits (a.bits - k) (network_of a.bits p a.value) ≡ network_of a.bits p a.value
  merged_start =
      let big = start-IsBig a p h fits in
      let host : a.bits - (a.bits - k) ≡ k = omega arith in
      network_of_le a.bits (a.bits - k) (network_of a.bits p a.value) (omega arith) big.in_range
      ∙ ap (λ t. network_of a.bits p a.value / 2 ^ t * 2 ^ t) host
      ∙ exact (network_of a.bits p a.value) (2 ^ k) (pow_pos k) aligned
    where
      exact : (v m : ℕ) → 1 ≤ m → v % m ≡ 0 → v / m * m ≡ v
      exact v m pos e = grind arith

  IsMerged-of : (m : Network) × IsMerged (build_network a p) k m
  unfolding build_network network_text big_to_address
  IsMerged-of = (
    build_network (start_of a p h fits) (a.bits - k),
    (
      parse_network-network_text (start_of a p h fits) (a.bits - k) (start-IsBig a p h fits)
          (omega arith),
      refl,
      λ x.
          inside_eq _ _ _ _ x merged_start
            (ap (λ t. 2 ^ t) {x = a.bits - (a.bits - k)} {y = k} (omega arith)),
    ),
  )

pub IsMerged-parsed :
    (first : Network) (k : ℕ)
    → IsParsed first
    → k ≤ first.bits
    → first.network_big % 2 ^ k ≡ 0
    → (m : Network) × IsMerged first k m
unfolding build_network
IsMerged-parsed first k p =
    subst (λ (n : Network). k ≤ n.bits → n.network_big % 2 ^ k ≡ 0 → (m : Network) × IsMerged n k m)
      p.built (λ le aligned. IsMerged-of p.address p.prefix p.big p.le k le aligned)
