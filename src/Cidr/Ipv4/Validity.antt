-- ===== src/Cidr/Ipv4/Validity.antt =====
-- What the IPv4 layer accepts, against the generic one, and the modes of a DHCPv6 scope.
use cidrella.Base.{
  ℕ, ◌+◌, ◌*◌, ◌^◌, ◌<◌, ◌≡◌, ◌↔◌, ◌⊎◌, refl, ap, sym, ◌∙◌, arith, inl, inr, true, false, not, ◌&&◌,
  none, some, Option-cases, ◌>>=◌, List, [], ◌∷◌, length, all, ◌==◌, if◌then◌else◌, Bool-cases,
  ==_iff, is_some,
}
use cidrella.Base.Text.{Text, split}
use cidrella.Address.{dot, octet, read_octets, parse_v4}
use cidrella.Cidr.{Network, parse_network}
use cidrella.Cidr.Ipv4.{
  require_ipv4, parse_cidr, short_number, ipv4_shape, in_octet, is_valid_ipv4, is_valid_cidr,
  DhcpV6Mode, stateless, slaac, stateful, dhcp_v6_modes_for, includes_mode, dhcp_v6_mode_error,
}

octet-is_some : (o : Text) → is_some (octet o) ≡ (short_number o && in_octet o)
unfolding octet
octet-is_some o = ground arith

read_octets-cons :
    (v : ℕ) (o : Text) (os : List Text)
    → read_octets v (o ∷ os) ≡ (octet o >>= λ n. read_octets (v * 2 ^ 8 + n) os)
unfolding read_octets
read_octets-cons v o os = refl

read_octets-is_some :
    (v : ℕ) (os : List Text) → is_some (read_octets v os) ≡ (all short_number os && all in_octet os)
unfolding read_octets
read_octets-is_some v [] = refl
read_octets-is_some v (o ∷ os) = elim (Option-cases (octet o)) [
  | inl bad ↦
      let e : false ≡ (short_number o && in_octet o) = sym (ap is_some bad) ∙ octet-is_some o in
      rw bad (ground (arith, e))
  | inr (n, good) ↦
      let e : true ≡ (short_number o && in_octet o) = sym (ap is_some good) ∙ octet-is_some o in
      rw good (ground (arith, e, read_octets-is_some (v * 2 ^ 8 + n) os))
]

-- The regular expression and the test of the four numbers accept exactly what the address parser
-- accepts as IPv4.
pub is_valid_ipv4_lem : (ip : Text) → is_valid_ipv4 ip ≡ is_some (parse_v4 ip)
unfolding is_valid_ipv4 ipv4_shape parse_v4
is_valid_ipv4_lem ip = elim (Bool-cases (length (split dot ip) == 4)) [
  | inl four ↦ rw four (ground (arith, read_octets-is_some 0 (split dot ip)))
  | inr other ↦ rw other (refl)
]

-- A text is a valid CIDR exactly when it is parsed to a network of the IPv4 family.
pub is_valid_cidr_iff :
    (s : Text)
    → (is_valid_cidr s ≡ true) ↔ ((n : Network) × ((parse_network s ≡ some n) × (n.family ≡ 4)))
unfolding is_valid_cidr parse_cidr require_ipv4
is_valid_cidr_iff s = (to, from)
  where
    to :
        is_some
            (parse_network s >>= λ parsed. if not (parsed.family == 4) then none else some parsed)
          ≡ true
        → (n : Network) × ((parse_network s ≡ some n) × (n.family ≡ 4))
    to h = elim (Option-cases (parse_network s)) [
      | inl bad ↦ absurd (let e = rw bad at h in cc)
      | inr (n, good) ↦ elim (Bool-cases (n.family == 4)) [
        | inl four ↦ (n, (good, (==_iff n.family 4).0 four))
        | inr other ↦ absurd (let e = rw (good, other) at h in cc)
      ]
    ]

    from :
        (n : Network) × ((parse_network s ≡ some n) × (n.family ≡ 4))
        → is_some
            (parse_network s >>= λ parsed. if not (parsed.family == 4) then none else some parsed)
          ≡ true
    from (n, (good, four)) = rw (good, (==_iff n.family 4).1 four) (refl)

-- There is no error in a mode exactly when it is one of the modes of the prefix length; a prefix
-- shorter than 64 has none, and one longer than 64 the stateful mode only.
pub dhcp_v6_mode_error_iff :
    (length : ℕ) (mode : DhcpV6Mode)
    → ((dhcp_v6_mode_error length mode ≡ none)
        ↔ (includes_mode mode (dhcp_v6_modes_for length) ≡ true))
      × ((dhcp_v6_mode_error length mode ≡ none)
          ↔ ((length ≡ 64) ⊎ ((64 < length) × (mode ≡ stateful))))
unfolding dhcp_v6_mode_error dhcp_v6_modes_for includes_mode
dhcp_v6_mode_error_iff length stateless = ground arith
dhcp_v6_mode_error_iff length slaac = ground arith
dhcp_v6_mode_error_iff length stateful = ground arith
