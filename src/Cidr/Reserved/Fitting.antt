-- ===== src/Cidr/Reserved/Fitting.antt =====
-- `validateNetworkBounds` accepts a network exactly when it is in one address space.
use cidrella.Base.{
  ℕ, ◌*◌, ◌^◌, ◌≡◌, ◌↔◌, refl, sym, subst, ◌∙◌, arith, inl, inr, Bool, true, false, not, ◌&&◌,
  Option, some, >>=-eq-some, some-inj, List, [], ◌∷◌, All, ◌==◌, if◌then◌else◌, Bool-cases,
}
use cidrella.Base.Text.{Text}
use cidrella.Cidr.{Network, parse_network, build_network, share_address, cidr_runs}
use cidrella.Cidr.Wellformed.{IsNetwork, parse_network-IsNetwork}
use cidrella.Cidr.Relations.{networks_overlap_of}
use cidrella.Cidr.Merge.{parse_networks, merge_runs}
use cidrella.Cidr.Divide.Split.{IsClear}
use cidrella.Cidr.Reserved.{
  BoundsResult, in_bounds, overlaps_mapped, extends_beyond, reserved_ranges, within_bounds,
  check_reserved, reaches_mapped, validate_network_bounds,
}

-- A network that shares an address with the range lies within it.
abbrev pub Fits : Network → Network → Type 0
Fits n r = share_address n r ≡ true → within_bounds n r ≡ true

-- No two of the networks share an address.
abbrev Disjoint : List Network → Type 0
Disjoint [] = Unit
Disjoint (r ∷ rs) = All (λ s. share_address r s ≡ false) rs × Disjoint rs

within_disjoint :
    (n r s : Network)
    → share_address n r ≡ true
    → within_bounds n r ≡ true
    → share_address r s ≡ false
    → share_address n s ≡ false
unfolding share_address
within_disjoint n r s h k l = ground arith

within_Fits :
    (n r : Network) (rs : List Network)
    → share_address n r ≡ true
    → within_bounds n r ≡ true
    → All (λ s. share_address r s ≡ false) rs
    → All (Fits n) rs
within_Fits n r [] h k l = tt
within_Fits n r (s ∷ rs) h k (p, l) =
    (λ e. absurd (let apart = within_disjoint n r s h k p in cc), within_Fits n r rs h k l)

other_family : (n r : Network) → (r.family == n.family) ≡ false → share_address n r ≡ false
unfolding share_address
other_family n r h = ground arith

parse_networks-cons :
    (c : Text) (cs : List Text) (nets : List Network)
    → parse_networks (c ∷ cs) ≡ some nets
    → (a : Network) × (rest : List Network) × ((parse_network c ≡ some a)
        × (parse_networks cs ≡ some rest)
        × (a ∷ rest ≡ nets))
unfolding parse_networks
parse_networks-cons c cs nets h =
    let (a, parsed, h1) = >>=-eq-some (parse_network c) _ h in
    let (rest, others, h2) = >>=-eq-some (parse_networks cs) _ h1 in
    (a, rest, (parsed, others, some-inj h2))

-- One range, with the verdict on the ranges behind it.
check_reserved-cons :
    (cidr range : Text) (ranges : List Text) (n r : Network)
    → parse_network cidr ≡ some n
    → parse_network range ≡ some r
    → check_reserved cidr n (range ∷ ranges) ≡ (
        if not (r.family == n.family)
        then check_reserved cidr n ranges
        else if share_address n r
        then (if within_bounds n r then some in_bounds else some (extends_beyond range))
        else check_reserved cidr n ranges)
unfolding check_reserved
check_reserved-cons cidr range ranges n r hn hr =
    rw (hr, networks_overlap_of cidr range n r hn hr) (refl)

-- The verdict on one range and the ranges behind it, from the verdict on these.
verdict_iff :
    (n r : Network) (rs : List Network) (range : Text) (rest : Option BoundsResult)
    → All (λ s. share_address r s ≡ false) rs
    → (rest ≡ some in_bounds) ↔ All (Fits n) rs
    → ((if not (r.family == n.family)
          then rest
          else if share_address n r
          then (if within_bounds n r then some in_bounds else some (extends_beyond range))
          else rest)
        ≡ some in_bounds)
      ↔ (Fits n r × All (Fits n) rs)
verdict_iff n r rs range rest apart (to, from) = elim (Bool-cases (r.family == n.family)) [
  | inr other ↦
      let away = other_family n r other in rw other (λ h. (λ e. absurd (cc), to h), λ h. from h.1)
  | inl same ↦ elim (Bool-cases (share_address n r)) [
    | inr away ↦ rw (same, away) (λ h. (λ e. absurd (cc), to h), λ h. from h.1)
    | inl meets ↦ elim (Bool-cases (within_bounds n r)) [
      | inl inside ↦
          rw (same, meets, inside)
            (λ h. (λ e. refl, within_Fits n r rs meets inside apart), λ h. refl)
      | inr beyond ↦
          rw (same, meets, beyond) (λ h. absurd (cc), λ h. absurd (let w = h.0 refl in cc))
    ]
  ]
]

check_reserved_iff :
    (cidr : Text) (n : Network) (ranges : List Text) (rs : List Network)
    → parse_network cidr ≡ some n
    → parse_networks ranges ≡ some rs
    → Disjoint rs
    → (check_reserved cidr n ranges ≡ some in_bounds) ↔ All (Fits n) rs
unfolding parse_networks check_reserved
check_reserved_iff cidr n [] [] hn hrs apart = (λ h. tt, λ h. refl)
check_reserved_iff cidr n [] (r ∷ rs) hn hrs apart = absurd (cc)
check_reserved_iff cidr n (range ∷ ranges) [] hn hrs apart =
    let (a, rest, (parsed, others, same)) = parse_networks-cons range ranges [] hrs in absurd (cc)
check_reserved_iff cidr n (range ∷ ranges) (r ∷ rs) hn hrs (away, apart) =
    let (a, rest, (parsed, others, same)) = parse_networks-cons range ranges (r ∷ rs) hrs in
    let parsed_r : parse_network range ≡ some r = cc in
    let parsed_rs : parse_networks ranges ≡ some rs = cc in
    subst (λ (c : Option BoundsResult). (c ≡ some in_bounds) ↔ All (Fits n) (r ∷ rs))
      (sym (check_reserved-cons cidr range ranges n r hn parsed_r))
      (verdict_iff n r rs range (check_reserved cidr n ranges) away
        (check_reserved_iff cidr n ranges rs hn parsed_rs apart))

abbrev block_v4 : ℕ → ℕ → Network
block_v4 value prefix = build_network (record { value = value; bits = 32; family = 4 }) prefix

abbrev block_v6 : ℕ → ℕ → Network
block_v6 value prefix = build_network (record { value = value; bits = 128; family = 6 }) prefix

-- What the reserved ranges are parsed to.
abbrev pub reserved_networks : List Network
reserved_networks =
    block_v4 167772160 8
    ∷ block_v4 2886729728 12
    ∷ block_v4 3232235520 16
    ∷ block_v4 1681915904 10
    ∷ block_v4 2851995648 16
    ∷ block_v4 2130706432 8
    ∷ block_v4 3758096384 4
    ∷ block_v4 4026531840 4
    ∷ block_v6 (0xfc00 * 2 ^ 112) 7
    ∷ block_v6 (0xfe80 * 2 ^ 112) 10
    ∷ block_v6 1 128
    ∷ block_v6 (0xff00 * 2 ^ 112) 8
    ∷ block_v6 (0x20010db8 * 2 ^ 96) 32
    ∷ []

reserved_parsed : parse_networks reserved_ranges ≡ some reserved_networks
unfolding merge_runs
reserved_parsed = refl

all_apart : Network → List Network → Bool
all_apart r [] = true
all_apart r (s ∷ rs) = not (share_address r s) && all_apart r rs

pairwise_apart : List Network → Bool
pairwise_apart [] = true
pairwise_apart (r ∷ rs) = all_apart r rs && pairwise_apart rs

all_apart-All :
    (r : Network) (rs : List Network)
    → all_apart r rs ≡ true
    → All (λ s. share_address r s ≡ false) rs
unfolding all_apart
all_apart-All r [] h = tt
all_apart-All r (s ∷ rs) h = (ground arith, all_apart-All r rs (ground arith))

pairwise_apart-Disjoint : (rs : List Network) → pairwise_apart rs ≡ true → Disjoint rs
unfolding pairwise_apart
pairwise_apart-Disjoint [] h = tt
pairwise_apart-Disjoint (r ∷ rs) h =
    (all_apart-All r rs (ground arith), pairwise_apart-Disjoint rs (ground arith))

reserved_apart : pairwise_apart reserved_networks ≡ true
unfolding cidr_runs pairwise_apart all_apart
reserved_apart = refl

validate_network_bounds_of :
    (cidr : Text) (n : Network)
    → parse_network cidr ≡ some n
    → validate_network_bounds cidr
      ≡ (if reaches_mapped n then some overlaps_mapped else check_reserved cidr n reserved_ranges)
unfolding validate_network_bounds
validate_network_bounds_of cidr n h = rw h (refl)

IsClear-iff : (n : Network) → IsNetwork n → (reaches_mapped n ≡ false) ↔ IsClear n
IsClear-iff n h = let f = h.families in ground arith

-- `validateNetworkBounds` accepts a network exactly when it is IPv4 or apart from the IPv4-mapped
-- range ::ffff:0:0/96, and lies within each reserved range with which it shares an address.
pub validate_network_bounds_iff :
    (cidr : Text) (n : Network)
    → parse_network cidr ≡ some n
    → (validate_network_bounds cidr ≡ some in_bounds) ↔ (IsClear n × All (Fits n) reserved_networks)
validate_network_bounds_iff cidr n h =
    let (to_clear, from_clear) = IsClear-iff n (parse_network-IsNetwork cidr n h) in
    let (to, from) =
      check_reserved_iff cidr n reserved_ranges reserved_networks h reserved_parsed
        (pairwise_apart-Disjoint reserved_networks reserved_apart) in
    let value = validate_network_bounds_of cidr n h in
    elim (Bool-cases (reaches_mapped n)) [
      | inl mapped ↦ (
        λ e. absurd (let v = sym value ∙ e in let w = rw mapped at v in cc),
        λ c. absurd (let f = from_clear c.0 in cc),
      )
      | inr clear ↦ (
        λ e. let v = sym value ∙ e in let w = rw clear at v in (to_clear clear, to w),
        λ c. value ∙ rw clear (from c.1),
      )
    ]
