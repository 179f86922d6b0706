-- ===== src/UrlGuard/Connected.antt =====
-- The address that an accepted URL is connected to, when `net.isIP` and the lookup of names do what their
-- documentation says.
use cidrella.Base.{
  ℕ, ◌^◌, ◌<◌, ◌≡◌, ◌⊎◌, ◌↔◌, inl, inr, refl, sym, ◌∙◌, subst, arith, Bool, Option, none, some,
  List, [], ◌∷◌, ◌==◌, All, Bool-cases, some-inj,
}
use cidrella.Base.Text.{Text, index_of, trim}
use cidrella.Address.{ParsedIp, parse_ip, percent, ipv4_bits}
use cidrella.Address.Format.{format_ip}
use cidrella.UrlGuard.{
  blocked_ipv4_ranges, unmapped, Url, Answer, find_family, or_else, chosen_address, accepted,
  validate_outbound_url,
}
use cidrella.UrlGuard.Outside.{
  Outside, IsOutside, IsAllowed, check_address-IsAllowed, Comes, validate_outbound_url-Checked,
}
use cidrella.UrlGuard.Scoped.{IsPublic, four_at, read_four, is_blocked_ipv6-IsPublic}

-- The text has no `%`, with which a zone id begins.
abbrev pub HasNoZone : Text → Type 0
HasNoZone s = index_of (percent ∷ []) (trim s) ≡ none

-- Every IPv4 text of `net.isIP` is the dotted quad of a number, without leading zeros, and every dotted
-- quad is one.
abbrev pub KnowsQuads : (Text → ℕ) → Type 0
KnowsQuads is_ip =
    (s : Text) → (is_ip s ≡ 4) ↔ ((v : ℕ) × ((v < 2 ^ 32) × (s ≡ format_ip v ipv4_bits)))

-- `parseIp` reads every IPv6 text of `net.isIP` without a zone id.
abbrev pub KnowsIpv6 : (Text → ℕ) → Type 0
KnowsIpv6 is_ip =
    (s : Text)
    → is_ip s ≡ 6
    → HasNoZone s
    → (p : ParsedIp) × ((parse_ip unmapped s ≡ some p) × (p.bits ≡ 128))

-- The lookup of a name gives addresses, with their families.
abbrev pub GivesAddresses : (Text → ℕ) → (Text → ℕ → Option (List Answer)) → Type 0
GivesAddresses is_ip lookup =
    (host : Text) (family : ℕ) (answers : List Answer)
    → lookup host family ≡ some answers
    → All (λ a. is_ip a.address ≡ a.family) answers

-- The dotted quad of a number outside of all blocked IPv4 ranges, or a text that is read as an IPv6 address
-- outside of all that is blocked, or one with a zone id.
abbrev pub IsConnectable : (Text → ℕ) → Text → Type 0
IsConnectable is_ip to =
    ((v : ℕ) × ((v < 2 ^ 32)
        × (to ≡ format_ip v ipv4_bits)
        × All (Outside (four_at v)) blocked_ipv4_ranges))
    ⊎ ((p : ParsedIp) × ((parse_ip unmapped to ≡ some p) × (p.bits ≡ 128) × IsPublic p.value))
    ⊎ ((is_ip to ≡ 6) × ((i : ℕ) × (index_of (percent ∷ []) (trim to) ≡ some i)))

module _ (is_ip : Text → ℕ) where
  find_family-is_ip :
      (family : ℕ) (answers : List Answer) (ip : Text)
      → All (λ a. is_ip a.address ≡ a.family) answers
      → find_family family answers ≡ some ip
      → is_ip ip ≡ family
  find_family-is_ip family [] ip h e = absurd (cc)
  find_family-is_ip family (a ∷ answers) ip (p, h) e = elim (Bool-cases (a.family == family)) [
    | inl hit ↦ subst (λ s. is_ip s ≡ family) (some-inj (rw hit at e)) (ground (arith, p, hit))
    | inr miss ↦ find_family-is_ip family answers ip h (rw miss at e)
  ]

  chosen_address-is_ip :
      (answers : List Answer) (ip : Text)
      → All (λ a. is_ip a.address ≡ a.family) answers
      → chosen_address answers ≡ some ip
      → (is_ip ip ≡ 4) ⊎ (is_ip ip ≡ 6)
  unfolding chosen_address
  chosen_address-is_ip answers ip h e = at (find_family 4 answers) refl e
    where
      at :
          (o : Option Text)
          → find_family 4 answers ≡ o
          → or_else o (find_family 6 answers) ≡ some ip
          → (is_ip ip ≡ 4) ⊎ (is_ip ip ≡ 6)
      at none f e = inr (find_family-is_ip 6 answers ip h e)
      at (some four) f e = inl (find_family-is_ip 4 answers ip h (f ∙ e))

  Comes-is_ip :
      (lookup : Text → ℕ → Option (List Answer)) (ipv6 : Bool) (ip : Text)
      → GivesAddresses is_ip lookup
      → Comes is_ip lookup ipv6 ip
      → (is_ip ip ≡ 4) ⊎ (is_ip ip ≡ 6)
  Comes-is_ip lookup ipv6 ip gives (inl c) = c
  Comes-is_ip lookup ipv6 ip gives (inr (host, family, answers, (found, chosen))) =
      chosen_address-is_ip answers ip (gives host family answers found) chosen

  IsOutside-four :
      (v : ℕ)
      → v < 2 ^ 32
      → IsOutside blocked_ipv4_ranges (format_ip v ipv4_bits)
      → All (Outside (four_at v)) blocked_ipv4_ranges
  IsOutside-four v h (a, (read, outside)) =
      subst (λ b. All (Outside b) blocked_ipv4_ranges) (some-inj (sym read ∙ read_four v h)) outside

  IsAllowed-IsConnectable :
      (ip : Text)
      → KnowsQuads is_ip
      → KnowsIpv6 is_ip
      → (is_ip ip ≡ 4) ⊎ (is_ip ip ≡ 6)
      → IsAllowed is_ip ip
      → IsConnectable is_ip ip
  IsAllowed-IsConnectable ip quads sixes c (inr (n, outside)) = elim c [
    | inl four ↦
        let (v, (h, same)) = (quads ip).0 four in
        inl (v, (h, same, IsOutside-four v h (subst (IsOutside blocked_ipv4_ranges) same outside)))
    | inr six ↦ absurd (n six)
  ]
  IsAllowed-IsConnectable ip quads sixes c (inl (six, passed)) =
      by_zone (index_of (percent ∷ []) (trim ip)) refl
    where
      by_zone : (o : Option ℕ) → index_of (percent ∷ []) (trim ip) ≡ o → IsConnectable is_ip ip
      by_zone (some i) e = inr (inr (six, (i, e)))
      by_zone none e =
          let (p, (read, bits)) = sixes ip six e in
          inr (
            inl (
              p,
              (
                read,
                bits,
                is_blocked_ipv6-IsPublic is_ip
                    (λ v h. (quads (format_ip v ipv4_bits)).1 (v, (h, refl))) ip p read bits passed,
              ),
            ))

  -- When every IPv4 text of `net.isIP` is a dotted quad without leading zeros and every such quad is one,
  -- `parseIp` reads its IPv6 texts that have no zone id, and the lookup of a name gives addresses with
  -- their families: an accepted URL is connected to the dotted quad of a number in none of the blocked
  -- IPv4 ranges, or to an IPv6 address that is public, or to an IPv6 address with a zone id, of which
  -- nothing is said. A public IPv6 address lies in none of the blocked IPv6 ranges; or it is an
  -- IPv4-mapped one, and the IPv4 address in it lies in none of the blocked IPv4 ranges.
  pub validate_outbound_url-IsConnectable :
      (lookup : Text → ℕ → Option (List Answer)) (ipv6 : Bool) (parse_url : Text → Option Url)
      (raw_url href hostname to : Text)
      → KnowsQuads is_ip
      → KnowsIpv6 is_ip
      → GivesAddresses is_ip lookup
      → validate_outbound_url is_ip lookup ipv6 parse_url raw_url ≡ some (accepted href hostname to)
      → IsConnectable is_ip to
  validate_outbound_url-IsConnectable lookup ipv6 parse_url raw_url href hostname to quads sixes
        gives h =
      let (url, ip, (checked, comes)) =
        validate_outbound_url-Checked is_ip lookup ipv6 parse_url raw_url href hostname to h in
      let (same, allowed) = check_address-IsAllowed is_ip url ip href hostname to checked in
      subst (IsConnectable is_ip) same
        (IsAllowed-IsConnectable ip quads sixes (Comes-is_ip lookup ipv6 ip gives comes) allowed)
