-- ===== src/Cidr/Divide/Split.antt =====
-- `splitNetwork` cuts the parent into equal children, one after the other.
use cidrella.Base.{
  ℕ, zero, suc, ◌+◌, ◌-◌, ◌*◌, ◌/◌, ◌^◌, ◌≤◌, ◌<◌, ◌≡◌, ◌⊎◌, refl, ap, ap₂, sym, ◌∙◌, arith, some,
  none, List, [], ◌∷◌, length, All,
}
use native.Mathlib.Nat.{mul-le-mul_right, mul-div_cancel}
use cidrella.Base.Bits.{pow_pos, pow_add}
use cidrella.Base.Text.{Text}
use cidrella.Address.{v4_mapped_prefix, v4_mapped_last}
use cidrella.Cidr.{BigAddress, Network, parse_network, build_network, network_text}
use cidrella.Cidr.Numbers.{network_of_le}
use cidrella.Cidr.Wellformed.{IsBig, IsNetwork, parse_network-IsNetwork}
use cidrella.Cidr.RoundTrip.{parse_network-network_text}
use cidrella.Cidr.Divide.{children_from, split_network}
use cidrella.Cidr.Divide.Subtract.{inside, inside_append, inside-zero, inside_eq, in_network}

-- IPv4, or apart from the IPv4-mapped range, as `validateNetworkBounds` requires.
abbrev pub IsClear : Network → Type 0
IsClear n = (n.family ≡ 4) ⊎ ((n.last_big < v4_mapped_prefix) ⊎ (v4_mapped_last < n.network_big))

-- In how many of the networks the number lies.
unfoldable pub in_networks : List Network → ℕ → ℕ
in_networks [] x = 0
in_networks (n ∷ ns) x = in_network n x + in_networks ns x

-- A child of the parent, by its index.
abbrev pub IsChild : Network → ℕ → Network → Type 0
IsChild parent new_prefix c =
    (c.family ≡ parent.family) × (c.bits ≡ parent.bits) × (c.prefix ≡ new_prefix)

module _ (n : Network) (np : ℕ) (h : IsNetwork n) (clear : IsClear n) (lt : n.prefix < np)
    (le : np ≤ n.bits) where
  size_lem : 2 ^ (n.bits - n.prefix) ≡ 2 ^ (np - n.prefix) * 2 ^ (n.bits - np)
  size_lem =
      ap (λ t. 2 ^ t) {x = n.bits - n.prefix} {y = (np - n.prefix) + (n.bits - np)} (omega arith)
      ∙ pow_add (np - n.prefix) (n.bits - np)

  child_start : ℕ → BigAddress
  child_start i = record {
    value = n.network_big + i * 2 ^ (n.bits - np);
    bits = n.bits;
    family = n.family;
  }

  child_aligned :
      (i : ℕ)
      → n.network_big + i * 2 ^ (n.bits - np)
        ≡ (h.index * 2 ^ (np - n.prefix) + i) * 2 ^ (n.bits - np)
  child_aligned i = omega (arith, h.aligned, ap (λ t. h.index * t) size_lem)

  child_end :
      (i : ℕ)
      → i < 2 ^ (np - n.prefix)
      → n.network_big + i * 2 ^ (n.bits - np) + 2 ^ (n.bits - np) ≤ n.last_big + 1
  child_end i k = omega (arith, h.last, size_lem, mul-le-mul_right (2 ^ (n.bits - np)) k)

  child-IsBig : (i : ℕ) → i < 2 ^ (np - n.prefix) → IsBig (child_start i)
  unfolding child_start
  child-IsBig i k = record {
    in_range = omega (arith, child_end i k, pow_pos (n.bits - np), h.in_range);
    families = ground (arith, child_end i k, pow_pos (n.bits - np));
  }

  -- The text of a child is parsed to a network of the new prefix that begins there.
  IsChild-parsed :
      (i : ℕ)
      → i < 2 ^ (np - n.prefix)
      → (c : Network) × (parse_network
            (network_text (n.network_big + i * 2 ^ (n.bits - np)) n.family np)
          ≡ some c)
        × IsChild n np c
        × (c.network_big ≡ n.network_big + i * 2 ^ (n.bits - np))
  unfolding child_start
  IsChild-parsed i k = (
    build_network (child_start i) np,
    parse_network-network_text (child_start i) np (child-IsBig i k) le,
    fields,
    start,
  )
    where
      fields : IsChild n np (build_network (child_start i) np)
      fields = unfold build_network in (refl, refl, refl)

      start : (build_network (child_start i) np).network_big ≡ n.network_big + i * 2 ^ (n.bits - np)
      start =
          let big = child-IsBig i k in
          let aligned = child_aligned i in
          unfold build_network in
          network_of_le n.bits np (n.network_big + i * 2 ^ (n.bits - np)) le big.in_range
          ∙ ap (λ t. t / 2 ^ (n.bits - np) * 2 ^ (n.bits - np)) aligned
          ∙ ap (λ t. t * 2 ^ (n.bits - np))
              (mul-div_cancel (h.index * 2 ^ (np - n.prefix) + i) (pow_pos (n.bits - np)))
          ∙ sym aligned

  child_inside :
      (i x : ℕ) (c : Network)
      → IsChild n np c
      → c.network_big ≡ n.network_big + i * 2 ^ (n.bits - np)
      → in_network c x ≡ inside (n.network_big + i * 2 ^ (n.bits - np)) (2 ^ (n.bits - np)) x
  child_inside i x c (family, bits, prefix) start =
      inside_eq c.network_big _ _ _ x start (rw (bits, prefix))

  -- The children from the `i`-th on lie one after the other.
  children_lem :
      (left i : ℕ)
      → i + left ≤ 2 ^ (np - n.prefix)
      → (cs : List Network) × (children_from n np left i ≡ some cs)
        × (length cs ≡ left)
        × All (IsChild n np) cs
        × ((x : ℕ)
            → in_networks cs x
              ≡ inside (n.network_big + i * 2 ^ (n.bits - np)) (left * 2 ^ (n.bits - np)) x)
  unfolding children_from in_networks
  children_lem zero i h = (
    [],
    refl,
    refl,
    tt,
    λ x. sym (
        inside_eq _ _ (0 * 2 ^ (n.bits - np)) 0 x refl (omega arith)
        ∙ inside-zero (n.network_big + i * 2 ^ (n.bits - np)) x),
  )
  children_lem (suc left) i h =
      let (c, parsed, child, start) = IsChild-parsed i (omega arith) in
      let (cs, made, count, every, covers) = children_lem left (i + 1) (omega arith) in
      (
        c ∷ cs,
        rw (parsed, made),
        ap suc count,
        (child, every),
        λ x. cover c cs child start covers x,
      )
    where
      cover :
          (c : Network) (cs : List Network)
          → IsChild n np c
          → c.network_big ≡ n.network_big + i * 2 ^ (n.bits - np)
          → ((x : ℕ)
              → in_networks cs x
                ≡ inside (n.network_big + (i + 1) * 2 ^ (n.bits - np)) (left * 2 ^ (n.bits - np)) x)
          → (x : ℕ)
          → in_network c x + in_networks cs x
            ≡ inside (n.network_big + i * 2 ^ (n.bits - np)) (suc left * 2 ^ (n.bits - np)) x
      cover c cs child start covers x =
          ap₂ (λ a b. a + b) (child_inside i x c child start)
            (covers x
              ∙ inside_eq _ (n.network_big + i * 2 ^ (n.bits - np) + 2 ^ (n.bits - np)) _ _ x
                  (omega arith) refl)
          ∙ inside_append (n.network_big + i * 2 ^ (n.bits - np)) (2 ^ (n.bits - np))
              (left * 2 ^ (n.bits - np)) x
          ∙ inside_eq _ _ _ _ x refl (omega arith)

module _ (s : Text) (n : Network) (np max_count : ℕ) (parsed : parse_network s ≡ some n) where
  -- A parent that is IPv4 or apart from the IPv4-mapped range, split at a longer prefix that its
  -- addresses have, into at most `max_count` children, gives `2 ^ (new_prefix - prefix)` networks of
  -- the parent's family and of that prefix, and every number lies in them as often (once or not at
  -- all) as in the parent.
  pub split_network_partition :
      IsClear n
      → n.prefix < np
      → np ≤ n.bits
      → 2 ^ (np - n.prefix) ≤ max_count
      → (cs : List Network) × (split_network s np max_count ≡ some cs)
        × (length cs ≡ 2 ^ (np - n.prefix))
        × All (IsChild n np) cs
        × ((x : ℕ) → in_networks cs x ≡ in_network n x)
  unfolding split_network
  split_network_partition clear lt le few =
      let h = parse_network-IsNetwork s n parsed in
      let (cs, made, count, every, covers) =
        children_lem n np h clear lt le (2 ^ (np - n.prefix)) 0 (omega arith) in
      (cs, value cs made, count, every, λ x. covers x ∙ whole h x)
    where
      value :
          (cs : List Network)
          → children_from n np (2 ^ (np - n.prefix)) 0 ≡ some cs
          → split_network s np max_count ≡ some cs
      value cs made = rw parsed (ground arith)

      whole :
          IsNetwork n
          → (x : ℕ)
          → inside
              (n.network_big + 0 * 2 ^ (n.bits - np))
              (2 ^ (np - n.prefix) * 2 ^ (n.bits - np))
              x
            ≡ in_network n x
      whole h x = inside_eq _ _ _ _ x (omega arith) (sym (size_lem n np h clear lt le))

  -- A prefix that is not longer than the parent's or that its addresses do not have, or more than
  -- `max_count` children, make it throw.
  pub split_network_refused :
      (np ≤ n.prefix) ⊎ ((n.bits < np) ⊎ (max_count < 2 ^ (np - n.prefix)))
      → split_network s np max_count ≡ none
  unfolding split_network
  split_network_refused h = rw parsed (ground arith)
