-- ===== src/Cidr/Wellformed.antt =====
-- What `parseNetwork` returns: an aligned block of 2 ^ (bits - prefix) addresses of its family.
use cidrella.Base.{
  ℕ, suc, ◌+◌, ◌-◌, ◌*◌, ◌/◌, ◌^◌, ◌≤◌, ◌<◌, ◌≡◌, ◌⊎◌, refl, subst, arith, inl, inr, Bool, true,
  false, not, ◌&&◌, ◌||◌, ◌==◌, ltb, Option, some, some-inj, >>=-eq-some, ◌>>◌, check, none-ne-some,
  length, drop, take, ◌∷◌, [], all,
}
use cidrella.Base.Bits.{pow_pos}
use cidrella.Base.Text.{Text, last_index_of, includes, parse_int, is_digit}
use cidrella.Address.{ParsedIp, colon, family_of, parse_ip}
use cidrella.Address.Bounds.{IsAddress, parse_ip-IsAddress}
use cidrella.Address.RoundTrip.{NotMapped}
use cidrella.Cidr.{
  no_zone, BigAddress, address_to_big, Network, slash, build_network, fold_prefix, parse_at,
  parse_network, network_of, last_of,
}
use cidrella.Cidr.Numbers.{network_of_le, last_of_le, block_below}

-- An address of a family, in range; an IPv6 one is not IPv4-mapped.
pub record IsBig (a : BigAddress) : Type 0 where
  pub in_range : a.value < 2 ^ a.bits
  pub families :
      ((a.family ≡ 4) × (a.bits ≡ 32)) ⊎ ((a.family ≡ 6) × (a.bits ≡ 128) × NotMapped a.value)

pub address_to_big-IsBig : (ip : Text) (a : BigAddress) → address_to_big ip ≡ some a → IsBig a
unfolding address_to_big
address_to_big-IsBig ip a h =
    let (p, parsed, done) = >>=-eq-some (parse_ip no_zone ip) _ h in
    subst IsBig (some-inj done) (from_parsed p (parse_ip-IsAddress no_zone ip p parsed))
  where
    from_parsed :
        (p : ParsedIp)
        → IsAddress no_zone p
        → IsBig (record { value = p.value; bits = p.bits; family = family_of p.bits })
    from_parsed p (inl (four, low)) = record {
      in_range = rw four low;
      families = inl (rw four (refl, refl));
    }
    from_parsed p (inr (six, low, inl never)) = absurd (cc)
    from_parsed p (inr (six, low, inr apart)) = record {
      in_range = rw six low;
      families = inr (rw six (refl, refl, apart));
    }

-- A block of addresses, aligned to its size.
pub record IsNetwork (n : Network) : Type 0 where
  pub fits : n.prefix ≤ n.bits
  pub families : ((n.family ≡ 4) × (n.bits ≡ 32)) ⊎ ((n.family ≡ 6) × (n.bits ≡ 128))
  pub index : ℕ
  pub aligned : n.network_big ≡ index * 2 ^ (n.bits - n.prefix)
  pub last : n.last_big + 1 ≡ n.network_big + 2 ^ (n.bits - n.prefix)
  pub size : n.size_big ≡ 2 ^ (n.bits - n.prefix)
  pub in_range : n.last_big < 2 ^ n.bits

pub build_network-IsNetwork :
    (a : BigAddress) (p : ℕ) → IsBig a → p ≤ a.bits → IsNetwork (build_network a p)
unfolding build_network
build_network-IsNetwork a p h le = record {
  fits = le;
  families = ground arith;
  index = a.value / size;
  aligned = network;
  last = omega (arith, network, last, pow_pos (a.bits - p));
  size = omega (arith, network, last, pow_pos (a.bits - p));
  in_range = omega (arith, last, pow_pos (a.bits - p), block_below a.bits p a.value le h.in_range);
}
  where
    size : ℕ
    size = 2 ^ (a.bits - p)

    network : network_of a.bits p a.value ≡ a.value / 2 ^ (a.bits - p) * 2 ^ (a.bits - p)
    network = network_of_le a.bits p a.value le h.in_range

    last :
        last_of a.bits p a.value
        ≡ a.value / 2 ^ (a.bits - p) * 2 ^ (a.bits - p) + (2 ^ (a.bits - p) - 1)
    last = last_of_le a.bits p a.value le h.in_range

-- Where a parsed network comes from.
pub record IsParsed (n : Network) : Type 0 where
  pub address : BigAddress
  pub prefix : ℕ
  pub big : IsBig address
  pub le : prefix ≤ address.bits
  pub built : build_network address prefix ≡ n

>>-inv {ℓ} :
    {A : Type ℓ} (b : Bool) (k : Option A) {r : A}
    → (check b >> k) ≡ some r
    → (b ≡ true) × (k ≡ some r)
>>-inv true k h = (refl, h)
>>-inv false k h = none-ne-some h

parse_at-IsParsed : (cidr : Text) (at : ℕ) (n : Network) → parse_at cidr at ≡ some n → IsParsed n
unfolding parse_at
parse_at-IsParsed cidr at n h =
    let (_, h1) = >>-inv (not (ltb at 1 || at == length cidr - 1)) _ h in
    let (_, h2) = >>-inv (all is_digit (drop (suc at) cidr)) _ h1 in
    let (a, parsed, h3) = >>=-eq-some (address_to_big (take at cidr)) _ h2 in
    let (p, _, h4) =
      >>=-eq-some
        (fold_prefix (a.family == 4 && includes colon cidr) (parse_int 10 (drop (suc at) cidr))) _
        h3 in
    let (small, built) = >>-inv (not (ltb a.bits p)) _ h4 in
    record {
      address = a;
      prefix = p;
      big = address_to_big-IsBig _ a parsed;
      le = ground arith;
      built = some-inj built;
    }

pub parse_network-IsParsed : (cidr : Text) (n : Network) → parse_network cidr ≡ some n → IsParsed n
unfolding parse_network
parse_network-IsParsed cidr n h =
    let (at, _, k) = >>=-eq-some (last_index_of (slash ∷ []) cidr) _ h in
    parse_at-IsParsed cidr at n k

-- Every text that parses as a network gives an aligned block of 2 ^ (bits - prefix) addresses of its
-- family, below 2 ^ bits.
pub parse_network-IsNetwork :
    (cidr : Text) (n : Network) → parse_network cidr ≡ some n → IsNetwork n
parse_network-IsNetwork cidr n h =
    let p = parse_network-IsParsed cidr n h in
    subst IsNetwork p.built (build_network-IsNetwork p.address p.prefix p.big p.le)
