-- ===== src/UrlGuard/Scoped.antt =====
-- What `isBlockedIpv6` lets pass.
use cidrella.Base.{
  ℕ, ◌-◌, ◌^◌, ◌≤◌, ◌<◌, ◌≡◌, ◌⊎◌, inl, inr, refl, sym, ap, ◌∙◌, arith, true, false, not, Option,
  none, some, ◌==◌, if◌then◌else◌, ◌>>=◌, All, Bool-cases,
}
use cidrella.Base.Text.{Text, is_empty, includes, trim}
use cidrella.Address.{
  ParsedIp, parse_ip, parse_zoned, parse_address, parse_v6, parse_v4, fold_mapped, colon, ipv4_bits,
  ipv6_bits, v4_mapped_prefix, v4_mapped_last,
}
use cidrella.Address.Format.{format_ip}
use cidrella.Address.RoundTrip.{NotMapped, fold_mapped_not, fold_mapped_in, parse_ip-format_v6}
use cidrella.Address.V4.{parse_ip-format_v4}
use cidrella.Address.Bounds.{IsAddress, parse_ip-IsAddress}
use cidrella.Cidr.{BigAddress, address_to_big}
use cidrella.UrlGuard.{
  blocked_ipv4_ranges, blocked_ipv6_ranges, unmapped, mapped, is_blocked_ipv4, check_mapped,
  check_parsed, is_blocked_ipv6,
}
use cidrella.UrlGuard.Outside.{Outside, some_contains-Misses, Misses-Outside}

-- Reading with mapped addresses folded is reading without, and folding then.
abbrev pub refold : ParsedIp → ParsedIp
refold p = if p.bits == 128 then fold_mapped mapped p.zone_id p.value else p

refold-some :
    (z : Option Text) (o : Option ℕ)
    → (o >>= λ v. some (fold_mapped mapped z v))
      ≡ ((o >>= λ v. some (fold_mapped unmapped z v)) >>= λ p. some (refold p))
unfolding fold_mapped
refold-some z none = refl
refold-some z (some v) = refl

refold-four :
    (o : Option ℕ)
    → (o >>= λ v. some (record { value = v; bits = ipv4_bits; zone_id = none })) ≡ (
        (o >>= λ v. some (record { value = v; bits = ipv4_bits; zone_id = none })) >>= λ p.
        some (refold p))
refold-four none = refl
refold-four (some v) = refl

parse_address-refold :
    (s : Text)
    → parse_address mapped s none ≡ (parse_address unmapped s none >>= λ p. some (refold p))
unfolding parse_address
parse_address-refold s = elim (Bool-cases (includes colon s)) [
  | inl e ↦ rw e (refold-some none (parse_v6 s true))
  | inr e ↦ rw e (refold-four (parse_v4 s))
]

parse_zoned-refold :
    (s : Text) (o : Option ℕ)
    → parse_zoned mapped s o ≡ (parse_zoned unmapped s o >>= λ p. some (refold p))
unfolding parse_zoned
parse_zoned-refold s none = parse_address-refold s
parse_zoned-refold s (some i) = refl

pub parse_ip-refold :
    (s : Text) → parse_ip mapped s ≡ (parse_ip unmapped s >>= λ p. some (refold p))
unfolding parse_ip
parse_ip-refold s = elim (Bool-cases (is_empty (trim s))) [
  | inl e ↦ rw e refl
  | inr e ↦ rw e (parse_zoned-refold (trim s) _)
]

abbrev pub four_at : ℕ → BigAddress
four_at value = record { value = value; bits = 32; family = 4 }

abbrev pub six_at : ℕ → BigAddress
six_at value = record { value = value; bits = 128; family = 6 }

pub read_four : (v : ℕ) → v < 2 ^ 32 → address_to_big (format_ip v ipv4_bits) ≡ some (four_at v)
unfolding address_to_big
read_four v h = rw (parse_ip-format_v4 mapped v h) refl

pub read_six :
    (v : ℕ) → v < 2 ^ 128 → NotMapped v → address_to_big (format_ip v ipv6_bits) ≡ some (six_at v)
unfolding address_to_big
read_six v h k = rw (parse_ip-format_v6 mapped v h (inr k)) refl

-- In none of the blocked ranges, the IPv4 ones for an address in ::ffff:0:0/96.
abbrev pub IsPublic : ℕ → Type 0
IsPublic v =
    ((v4_mapped_prefix ≤ v)
      × (v ≤ v4_mapped_last)
      × All (Outside (four_at (v - v4_mapped_prefix))) blocked_ipv4_ranges)
    ⊎ (NotMapped v × All (Outside (six_at v)) blocked_ipv6_ranges)

mapped_cases : (v : ℕ) → ((v4_mapped_prefix ≤ v) × (v ≤ v4_mapped_last)) ⊎ NotMapped v
mapped_cases v = ground arith

module _ (is_ip : Text → ℕ)
    (formatted : (v : ℕ) → v < 2 ^ 32 → is_ip (format_ip v ipv4_bits) ≡ 4) where
  is_blocked_ipv4-Outside :
      (v : ℕ)
      → v < 2 ^ 32
      → is_blocked_ipv4 is_ip (format_ip v ipv4_bits) ≡ some false
      → All (Outside (four_at v)) blocked_ipv4_ranges
  unfolding is_blocked_ipv4
  is_blocked_ipv4-Outside v h b =
      Misses-Outside blocked_ipv4_ranges (format_ip v ipv4_bits) (four_at v) (read_four v h)
        (some_contains-Misses blocked_ipv4_ranges (format_ip v ipv4_bits) (rw (formatted v h) at b))

  check_mapped-IsPublic :
      (z : Option Text) (v : ℕ)
      → v < 2 ^ 128
      → check_mapped is_ip v (some (fold_mapped mapped z v)) ≡ some false
      → IsPublic v
  check_mapped-IsPublic z v h b = elim (mapped_cases v) [
    | inl (low, high) ↦ inl (
      low,
      high,
      is_blocked_ipv4-Outside (v - v4_mapped_prefix) (omega (arith, low, high))
          (rw (fold_mapped_in mapped z v refl low high) at b),
    )
    | inr k ↦ inr (
      k,
      Misses-Outside blocked_ipv6_ranges (format_ip v ipv6_bits) (six_at v) (read_six v h k) (
          some_contains-Misses blocked_ipv6_ranges (format_ip v ipv6_bits)
            (rw (fold_mapped_not mapped z v h (inr k)) at b)),
    )
  ]

  pub six_lt :
      (ip : Text) (p : ParsedIp) → parse_ip unmapped ip ≡ some p → p.bits ≡ 128 → p.value < 2 ^ 128
  six_lt ip p e six = bound (parse_ip-IsAddress unmapped ip p e)
    where
      bound : IsAddress unmapped p → p.value < 2 ^ 128
      bound (inl a) = absurd (omega (arith, a.0, six))
      bound (inr a) = a.1

  pub is_blocked_ipv6-IsPublic :
      (ip : Text) (p : ParsedIp)
      → parse_ip unmapped ip ≡ some p
      → p.bits ≡ 128
      → is_blocked_ipv6 is_ip ip ≡ some false
      → IsPublic p.value
  unfolding is_blocked_ipv6
  is_blocked_ipv6-IsPublic ip p e six b =
      let is_six : (p.bits == 128) ≡ true = ground (arith, six) in
      let folded : parse_ip mapped ip ≡ some (fold_mapped mapped p.zone_id p.value) =
        parse_ip-refold ip
        ∙ ap (λ o. o >>= λ q. some (refold q)) e
        ∙ ap (λ c. some (if c then fold_mapped mapped p.zone_id p.value else p)) is_six in
      check_mapped-IsPublic p.zone_id p.value (six_lt ip p e six) (
        sym (
          ap (λ o. check_parsed is_ip o (parse_ip mapped ip)) e
          ∙ ap (λ c. if not c then some false else check_mapped is_ip p.value (parse_ip mapped ip))
              is_six
          ∙ ap (check_mapped is_ip p.value) folded)
        ∙ b)
