-- ===== src/DhcpPool/V6.antt =====
-- The default stateful DHCPv6 pool lies among the usable addresses, and the gateway is not in it.
use cidrella.Base.{
  ℕ, ◌+◌, ◌-◌, ◌^◌, ◌≤◌, ◌<◌, ◌≡◌, ◌⊎◌, refl, ap, subst, arith, inl, inr, true, false, ◌||◌, Option,
  none, some, ltb, leb, if◌then◌else◌, Bool-cases, ==_iff,
}
use native.Mathlib.Nat.{pow-le-pow_right}
use cidrella.Base.Text.{Text}
use cidrella.Cidr.{
  BigAddress, Network, parse_network, build_network, address_to_big, big_to_address,
  address_at_offset,
}
use cidrella.Cidr.Wellformed.{
  IsBig, IsNetwork, IsParsed, parse_network-IsParsed, parse_network-IsNetwork,
}
use cidrella.Cidr.RoundTrip.{address_to_big-big_to_address}
use cidrella.Cidr.Divide.Split.{IsClear}
use cidrella.DhcpPool.{
  Pool, shape_around, gateway_value, big_pool, text_pool, v6_pool, default_dhcp_v6_pool_for_subnet,
}

-- The gateway is outside the pool.
abbrev pub Outside : Option ℕ → Pool → Type 0
Outside none p = Unit
Outside (some gateway) p = (gateway < p.start) ⊎ (p.end < gateway)

-- A part of `whole` that holds an address, and not the gateway.
abbrev pub IsPart : Option ℕ → Pool → Pool → Type 0
IsPart gateway whole p =
    (whole.start ≤ p.start) × (p.start ≤ p.end) × (p.end ≤ whole.end) × Outside gateway p

shape_around-IsPart :
    (gateway : Option ℕ) (pool : Pool)
    → pool.start + 2 ≤ pool.end
    → IsPart gateway pool (shape_around gateway pool)
unfolding shape_around
shape_around-IsPart none pool h = (omega arith, omega arith, omega arith, tt)
shape_around-IsPart (some gw) pool h = ground arith

-- An address of a network that is IPv6 and apart from the IPv4-mapped range is read from its text.
module _ (n : Network) (h : IsNetwork n) (clear : IsClear n) (six : n.family ≡ 6) where
  bits : n.bits ≡ 128
  bits = let f = h.families in ground arith

  address : ℕ → BigAddress
  address v = record { value = v; bits = 128; family = 6 }

  address-IsBig : (v : ℕ) → n.network_big ≤ v → v ≤ n.last_big → IsBig (address v)
  unfolding address
  address-IsBig v low high = record {
    in_range = omega (arith, h.in_range, ap (λ b. 2 ^ b) bits);
    families = inr (refl, refl, ground arith);
  }

  read_address :
      (v : ℕ)
      → n.network_big ≤ v
      → v ≤ n.last_big
      → address_to_big (big_to_address v 6) ≡ some (address v)
  unfolding address
  read_address v low high = address_to_big-big_to_address (address v) (address-IsBig v low high)

  read_pool :
      (s e : ℕ)
      → n.network_big ≤ s
      → s ≤ e
      → e ≤ n.last_big
      → big_pool (big_to_address s 6) (big_to_address e 6) ≡ some (record { start = s; end = e })
  unfolding address
  read_pool s e low order high =
      rw (read_address s low (omega arith), read_address e (omega arith) high) (refl)

  offset_pool :
      (a b : ℕ)
      → a ≤ b
      → n.network_big + b ≤ n.last_big
      → big_pool (address_at_offset n a) (address_at_offset n b)
        ≡ some (record { start = n.network_big + a; end = n.network_big + b })
  unfolding address_at_offset
  offset_pool a b le high =
      rw six (read_pool (n.network_big + a) (n.network_big + b) (omega arith) (omega arith) high)

-- The pool before the gateway is taken out.
abbrev pub whole_pool : Network → Pool
whole_pool n =
    if ltb 0x2000 n.size_big
    then record { start = n.network_big + 0x1000; end = n.network_big + 0x1fff }
    else record { start = n.network_big + 1; end = n.last_big }

usable_texts :
    (a : BigAddress) (p : ℕ)
    → a.family ≡ 6
    → a.bits ≡ 128
    → p < 127
    → ((build_network a p).first_usable ≡ big_to_address ((build_network a p).network_big + 1) 6)
      × ((build_network a p).last_usable ≡ big_to_address (build_network a p).last_big 6)
unfolding build_network
usable_texts a p six bits lt = rw (reserves, six) (refl, refl)
  where
    reserves : ltb p (a.bits - 1) ≡ true
    reserves = ground arith

v6_pool_lem :
    (n : Network)
    → IsNetwork n
    → IsClear n
    → n.family ≡ 6
    → 64 ≤ n.prefix
    → n.prefix < 127
    → n.first_usable ≡ big_to_address (n.network_big + 1) 6
    → n.last_usable ≡ big_to_address n.last_big 6
    → (v6_pool n ≡ some (whole_pool n))
      × ((whole_pool n).start + 2 ≤ (whole_pool n).end)
      × (n.network_big < (whole_pool n).start)
      × ((whole_pool n).end ≤ n.last_big)
unfolding v6_pool
v6_pool_lem n h clear six low high first last = elim (Bool-cases (ltb 0x2000 n.size_big)) [
  | inl large ↦ rw large (
    offset_pool n h clear six 0x1000 0x1fff (omega arith) (ground (arith, large, h.last, h.size)),
    omega arith,
    omega arith,
    ground (arith, large, h.last, h.size),
  )
  | inr small ↦
      rw (small, first, last)
        (
          read_pool n h clear six (n.network_big + 1) n.last_big (omega arith)
              (omega (arith, h.last, four)) (omega arith),
          omega (arith, h.last, four),
          omega arith,
          omega arith,
        )
]
  where
    four : 2 ^ 2 ≤ 2 ^ (n.bits - n.prefix)
    four =
        let e = bits n h clear six in
        pow-le-pow_right {n = 2} (omega arith) {i = 2} {j = n.bits - n.prefix} (omega arith)

text_pool_of :
    (p : Pool)
    → p.start ≤ p.end
    → text_pool p
      ≡ some (record { start_ip = big_to_address p.start 6; end_ip = big_to_address p.end 6 })
text_pool_of p h = ground arith

tests_pass :
    (n : Network)
    → n.bits ≡ 128
    → 64 ≤ n.prefix
    → n.prefix < 127
    → (ltb n.prefix 64 || leb (n.bits - 1) n.prefix) ≡ false
tests_pass n e low high = ground arith

built_texts :
    (a : BigAddress) (q : ℕ)
    → IsBig a
    → (build_network a q).family ≡ 6
    → (build_network a q).prefix < 127
    → ((build_network a q).first_usable ≡ big_to_address ((build_network a q).network_big + 1) 6)
      × ((build_network a q).last_usable ≡ big_to_address (build_network a q).last_big 6)
unfolding build_network
built_texts a q big six lt =
    let f = big.families in let wide : a.bits ≡ 128 = ground arith in usable_texts a q six wide lt

parsed_texts :
    (n : Network)
    → IsParsed n
    → n.family ≡ 6
    → n.prefix < 127
    → (n.first_usable ≡ big_to_address (n.network_big + 1) 6)
      × (n.last_usable ≡ big_to_address n.last_big 6)
parsed_texts n p =
    subst
      (λ (m : Network).
        m.family ≡ 6
        → m.prefix < 127
        → (m.first_usable ≡ big_to_address (m.network_big + 1) 6)
          × (m.last_usable ≡ big_to_address m.last_big 6))
      p.built (built_texts p.address p.prefix p.big)

-- Every IPv6 network apart from the IPv4-mapped range, with a prefix length from 64 to 126, gets a
-- stateful pool, if the gateway's text can be read or there is none: a part of the 4096 addresses
-- from offset 0x1000 on, or of the usable addresses where the network is too small for these. It
-- holds one address at least, and not the gateway, and is given by the texts of its ends.
pub default_dhcp_v6_pool_for_subnet-IsPart :
    (s : Text) (n : Network) (gateway : Option Text) (gw : Option ℕ)
    → parse_network s ≡ some n
    → n.family ≡ 6
    → IsClear n
    → 64 ≤ n.prefix
    → n.prefix < 127
    → gateway_value gateway ≡ some gw
    → (p : Pool) × ((default_dhcp_v6_pool_for_subnet n gateway
          ≡ some (
              some
                (record { start_ip = big_to_address p.start 6; end_ip = big_to_address p.end 6 })))
        × IsPart gw (whole_pool n) p
        × (n.network_big < p.start)
        × (p.end ≤ n.last_big))
unfolding default_dhcp_v6_pool_for_subnet
default_dhcp_v6_pool_for_subnet-IsPart s n gateway gw parsed six clear low high read =
    let h = parse_network-IsNetwork s n parsed in
    let (first, last) = parsed_texts n (parse_network-IsParsed s n parsed) six high in
    let (value, wide, after, before) = v6_pool_lem n h clear six low high first last in
    let part = shape_around-IsPart gw (whole_pool n) wide in
    (
      shape_around gw (whole_pool n),
      (
        rw ((==_iff n.family 6).1 six, tests_pass n (bits n h clear six) low high, value, read)
            (ap (λ t. some t) (text_pool_of (shape_around gw (whole_pool n)) part.1)),
        part,
        omega (arith, part.0, after),
        omega (arith, part.2, before),
      ),
    )
