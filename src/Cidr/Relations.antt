-- ===== src/Cidr/Relations.antt =====
-- Containment and overlap of parsed networks.
use cidrella.Base.{
  ℕ, suc, ◌+◌, ◌-◌, ◌*◌, ◌^◌, max, ◌≤◌, ◌<◌, ◌≡◌, ◌⊎◌, ◌↔◌, ap, ap₂, sym, trichotomy, ◌∙◌, arith,
  inl, inr, true, some, some-inj,
}
use native.Mathlib.Decide.{dec_le}
use native.Mathlib.Nat.{mul-le-mul_right}
use cidrella.Base.Bits.{pow_pos, pow_add}
use cidrella.Base.Text.{Text}
use cidrella.Cidr.{
  Network, parse_network, share_address, networks_overlap, sits_within, is_network_within,
}
use cidrella.Cidr.Wellformed.{IsNetwork, parse_network-IsNetwork}

-- The addresses of a network.
abbrev pub Holds : Network → ℕ → ℕ → Type 0
Holds n family x = (family ≡ n.family) × (n.network_big ≤ x) × (x ≤ n.last_big)

pub first-le-last : (n : Network) → IsNetwork n → n.network_big ≤ n.last_big
first-le-last n h = omega (arith, h.last, pow_pos (n.bits - n.prefix))

share_address_iff :
    (a b : Network)
    → IsNetwork a
    → IsNetwork b
    → (share_address a b ≡ true) ↔ ((family : ℕ) × (x : ℕ) × Holds a family x × Holds b family x)
unfolding share_address
share_address_iff a b ha hb = (to, from)
  where
    to : share_address a b ≡ true → (family : ℕ) × (x : ℕ) × Holds a family x × Holds b family x
    to h = (
      a.family,
      max a.network_big b.network_big,
      ground (arith, first-le-last a ha),
      ground (arith, first-le-last b hb),
    )

    from : (family : ℕ) × (x : ℕ) × Holds a family x × Holds b family x → share_address a b ≡ true
    from (family, x, in_a, in_b) = ground arith

pub networks_overlap_of :
    (s t : Text) (a b : Network)
    → parse_network s ≡ some a
    → parse_network t ≡ some b
    → networks_overlap s t ≡ some (share_address a b)
unfolding networks_overlap
networks_overlap_of s t a b ha hb = rw (ha, hb)

-- Two texts that parse as networks overlap exactly when some address of one family lies in both.
pub networks_overlap_iff :
    (s t : Text) (a b : Network)
    → parse_network s ≡ some a
    → parse_network t ≡ some b
    → (networks_overlap s t ≡ some true)
      ↔ ((family : ℕ) × (x : ℕ) × Holds a family x × Holds b family x)
networks_overlap_iff s t a b ha hb =
    let (to, from) =
      share_address_iff a b (parse_network-IsNetwork s a ha) (parse_network-IsNetwork t b hb) in
    let value = networks_overlap_of s t a b ha hb in
    (λ e. to (some-inj (sym value ∙ e)), λ w. value ∙ ap some (from w))

-- Two aligned blocks that meet: the smaller one is inside the larger.
aligned_nested :
    (i j p m : ℕ)
    → 1 ≤ p
    → i * p < j * (m * p) + m * p
    → j * (m * p) < i * p + p
    → (j * (m * p) ≤ i * p) × (i * p + p ≤ j * (m * p) + m * p)
aligned_nested i j p m hp below above = (lower, upper)
  where
    lower : j * (m * p) ≤ i * p
    lower = elim (dec_le (j * m) i) [
      | yes le ↦ omega (arith, mul-le-mul_right p le)
      | no gt ↦
          let past : suc i ≤ j * m = omega arith in absurd (omega (arith, mul-le-mul_right p past))
    ]

    upper : i * p + p ≤ j * (m * p) + m * p
    upper = elim (dec_le (suc i) (j * m + m)) [
      | yes le ↦ omega (arith, mul-le-mul_right p le)
      | no gt ↦
          let past : j * m + m ≤ i = omega arith in absurd (omega (arith, mul-le-mul_right p past))
    ]

-- The addresses of one network are addresses of the other.
abbrev pub Inside : Network → Network → Type 0
Inside a b = (b.network_big ≤ a.network_big) × (a.last_big ≤ b.last_big)

nested_of_longer :
    (a b : Network)
    → IsNetwork a
    → IsNetwork b
    → a.bits ≡ b.bits
    → b.prefix ≤ a.prefix
    → a.network_big ≤ b.last_big
    → b.network_big ≤ a.last_big
    → Inside a b
nested_of_longer a b ha hb bits le below above =
    let (lower, upper) =
      aligned_nested ha.index hb.index small ratio (pow_pos (a.bits - a.prefix))
        (omega (arith, ha.aligned, aligned_b, last_b))
        (omega (arith, ha.aligned, ha.last, aligned_b)) in
    (
      omega (arith, lower, ha.aligned, aligned_b),
      omega (arith, upper, ha.aligned, ha.last, aligned_b, last_b),
    )
  where
    small : ℕ
    small = 2 ^ (a.bits - a.prefix)

    ratio : ℕ
    ratio = 2 ^ (a.prefix - b.prefix)

    host_bits : b.bits - b.prefix ≡ (a.prefix - b.prefix) + (a.bits - a.prefix)
    host_bits = omega (arith, ha.fits)

    large : 2 ^ (b.bits - b.prefix) ≡ ratio * small
    large = ap (λ t. 2 ^ t) host_bits ∙ pow_add (a.prefix - b.prefix) (a.bits - a.prefix)

    aligned_b : b.network_big ≡ hb.index * (ratio * small)
    aligned_b = hb.aligned ∙ ap (λ t. hb.index * t) large

    last_b : b.last_big + 1 ≡ b.network_big + ratio * small
    last_b = hb.last ∙ ap (λ t. b.network_big + t) large

-- The same block of the same family.
abbrev pub SameBlock : Network → Network → Type 0
SameBlock a b = (a.family ≡ b.family) × (a.network_big ≡ b.network_big) × (a.prefix ≡ b.prefix)

module _ (a b : Network) (ha : IsNetwork a) (hb : IsNetwork b) where
  bits_of_family : a.family ≡ b.family → a.bits ≡ b.bits
  bits_of_family e = ground arith

  same_size :
      a.family ≡ b.family → a.prefix ≡ b.prefix → 2 ^ (a.bits - a.prefix) ≡ 2 ^ (b.bits - b.prefix)
  same_size e f = ap₂ (λ x y. 2 ^ (x - y)) (bits_of_family e) f

  share_same : SameBlock a b → share_address a b ≡ true
  unfolding share_address
  share_same (f, n, p) = ground (arith, first-le-last a ha, first-le-last b hb, same_size f p)

  share_within : sits_within a b ≡ true → share_address a b ≡ true
  unfolding share_address sits_within
  share_within h = ground (arith, first-le-last a ha, first-le-last b hb)

  family_of_share : share_address a b ≡ true → a.family ≡ b.family
  unfolding share_address
  family_of_share h = ground arith

  Inside-of_share : share_address a b ≡ true → b.prefix ≤ a.prefix → Inside a b
  unfolding share_address
  Inside-of_share h le =
      nested_of_longer a b ha hb (bits_of_family (family_of_share h)) le (ground arith)
        (ground arith)

  within_of_share : share_address a b ≡ true → b.prefix < a.prefix → sits_within a b ≡ true
  unfolding sits_within
  within_of_share h lt = ground (arith, Inside-of_share h (omega arith), family_of_share h)

  same_of_share : share_address a b ≡ true → a.prefix ≡ b.prefix → SameBlock a b
  same_of_share h e =
      let (low, high) = Inside-of_share h (omega arith) in
      let f = family_of_share h in (f, omega (arith, low, high, ha.last, hb.last, same_size f e), e)

share_address_comm : (a b : Network) → share_address a b ≡ true → share_address b a ≡ true
unfolding share_address
share_address_comm a b h = ground arith

share_cases :
    (a b : Network)
    → IsNetwork a
    → IsNetwork b
    → (share_address a b ≡ true)
      ↔ ((sits_within a b ≡ true) ⊎ ((sits_within b a ≡ true) ⊎ SameBlock a b))
share_cases a b ha hb = (to, from)
  where
    to :
        share_address a b ≡ true
        → (sits_within a b ≡ true) ⊎ ((sits_within b a ≡ true) ⊎ SameBlock a b)
    to h = elim (trichotomy a.prefix b.prefix) [
      | inl shorter ↦ inr (inl (within_of_share b a hb ha (share_address_comm a b h) shorter))
      | inr (inl same) ↦ inr (inr (same_of_share a b ha hb h same))
      | inr (inr longer) ↦ inl (within_of_share a b ha hb h longer)
    ]

    from :
        (sits_within a b ≡ true) ⊎ ((sits_within b a ≡ true) ⊎ SameBlock a b)
        → share_address a b ≡ true
    from (inl w) = share_within a b ha hb w
    from (inr (inl w)) = share_address_comm b a (share_within b a hb ha w)
    from (inr (inr e)) = share_same a b ha hb e

is_network_within_of :
    (s t : Text) (a b : Network)
    → parse_network s ≡ some a
    → parse_network t ≡ some b
    → is_network_within s t ≡ some (sits_within a b)
unfolding is_network_within
is_network_within_of s t a b ha hb = rw (ha, hb)

-- Texts that parse as networks overlap exactly when one is within the other, in either order, or they
-- are the same block: CIDR networks never overlap in part.
pub networks_overlap_cases :
    (s t : Text) (a b : Network)
    → parse_network s ≡ some a
    → parse_network t ≡ some b
    → (networks_overlap s t ≡ some true) ↔ (
        (is_network_within s t ≡ some true) ⊎ ((is_network_within t s ≡ some true) ⊎ SameBlock a b))
networks_overlap_cases s t a b ha hb =
    rw
      (
        networks_overlap_of s t a b ha hb,
        is_network_within_of s t a b ha hb,
        is_network_within_of t s b a hb ha,
      )
      (grind
        (arith, share_cases a b (parse_network-IsNetwork s a ha) (parse_network-IsNetwork t b hb)))
