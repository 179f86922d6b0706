-- ===== src/UrlGuard/Decided.antt =====
-- What `isBlockedAddress` decides, in both directions.
use cidrella.Base.{
  ℕ, ◌-◌, ◌^◌, ◌<◌, ◌≡◌, ◌↔◌, inl, inr, refl, ap, ◌∙◌, arith, Bool, true, false, not, Option, none,
  some, List, [], ◌∷◌, ◌==◌, All, if◌then◌else◌, ◌>>=◌,
}
use cidrella.Base.Text.{Text}
use cidrella.Address.{ParsedIp, parse_ip, fold_mapped, ipv4_bits, ipv6_bits, v4_mapped_prefix}
use cidrella.Address.Format.{format_ip}
use cidrella.Address.RoundTrip.{fold_mapped_not, fold_mapped_in}
use cidrella.Address.V4.{parse_ip-format_v4}
use cidrella.Cidr.{BigAddress, address_to_big, network_contains}
use cidrella.UrlGuard.{
  blocked_ipv4_ranges, blocked_ipv6_ranges, some_contains, unmapped, mapped, is_blocked_ipv4,
  check_mapped, check_parsed, is_blocked_ipv6, is_blocked_address,
}
use cidrella.UrlGuard.Outside.{Outside, some_contains-Misses, Misses-Outside}
use cidrella.UrlGuard.Scoped.{
  IsPublic, four_at, six_at, read_four, read_six, refold, parse_ip-refold, six_lt,
  is_blocked_ipv6-IsPublic,
}
use cidrella.UrlGuard.Connected.{KnowsQuads}

some_contains-Outside :
    (ranges : List Text) (ip : Text) (a : BigAddress)
    → address_to_big ip ≡ some a
    → All (Outside a) ranges
    → some_contains ranges ip ≡ some false
unfolding some_contains network_contains
some_contains-Outside [] ip a e h = refl
some_contains-Outside (r ∷ ranges) ip a e ((net, (read, misses)), h) =
    rw (read, e, misses) (some_contains-Outside ranges ip a e h)

module _ (is_ip : Text → ℕ) (quads : KnowsQuads is_ip) where
  quad : (v : ℕ) → v < 2 ^ 32 → is_ip (format_ip v ipv4_bits) ≡ 4
  quad v h = (quads (format_ip v ipv4_bits)).1 (v, (h, refl))

  is_blocked_ipv4_iff :
      (v : ℕ)
      → v < 2 ^ 32
      → (is_blocked_ipv4 is_ip (format_ip v ipv4_bits) ≡ some false)
        ↔ All (Outside (four_at v)) blocked_ipv4_ranges
  unfolding is_blocked_ipv4
  is_blocked_ipv4_iff v h = (
    (λ b.
        Misses-Outside blocked_ipv4_ranges (format_ip v ipv4_bits) (four_at v) (read_four v h)
          (some_contains-Misses blocked_ipv4_ranges (format_ip v ipv4_bits) (rw (quad v h) at b))),
    (λ outside. rw (quad v h) (
        some_contains-Outside blocked_ipv4_ranges (format_ip v ipv4_bits) (four_at v)
          (read_four v h) outside)),
  )

  check_mapped-passes :
      (z : Option Text) (v : ℕ)
      → v < 2 ^ 128
      → IsPublic v
      → check_mapped is_ip v (some (fold_mapped mapped z v)) ≡ some false
  check_mapped-passes z v h (inl (low, high, outside)) =
      rw (fold_mapped_in mapped z v refl low high)
        ((is_blocked_ipv4_iff (v - v4_mapped_prefix) (omega (arith, low, high))).1 outside)
  check_mapped-passes z v h (inr (k, outside)) = rw (fold_mapped_not mapped z v h (inr k)) (
      some_contains-Outside blocked_ipv6_ranges (format_ip v ipv6_bits) (six_at v) (read_six v h k)
        outside)

  is_blocked_ipv6-folded :
      (ip : Text) (p : ParsedIp)
      → parse_ip unmapped ip ≡ some p
      → p.bits ≡ 128
      → is_blocked_ipv6 is_ip ip
        ≡ check_mapped is_ip p.value (some (fold_mapped mapped p.zone_id p.value))
  unfolding is_blocked_ipv6
  is_blocked_ipv6-folded ip p e six =
      let is_six : (p.bits == 128) ≡ true = ground (arith, six) in
      let folded : parse_ip mapped ip ≡ some (fold_mapped mapped p.zone_id p.value) =
        parse_ip-refold ip
        ∙ ap (λ o. o >>= λ q. some (refold q)) e
        ∙ ap (λ c. some (if c then fold_mapped mapped p.zone_id p.value else p)) is_six in
      ap (λ o. check_parsed is_ip o (parse_ip mapped ip)) e
      ∙ ap (λ c. if not c then some false else check_mapped is_ip p.value (parse_ip mapped ip))
          is_six
      ∙ ap (check_mapped is_ip p.value) folded

  is_blocked_address-six :
      (ip : Text) → is_ip ip ≡ 6 → is_blocked_address is_ip ip ≡ is_blocked_ipv6 is_ip ip
  unfolding is_blocked_address is_blocked_ipv4
  is_blocked_address-six ip six = rw six refl

  either_iff :
      (o : Option Bool)
      → ((o >>= λ four. if four then some true else some false) ≡ some false) ↔ (o ≡ some false)
  either_iff none = ((λ e. absurd (cc)), (λ e. absurd (cc)))
  either_iff (some true) = ((λ e. absurd (cc)), (λ e. absurd (cc)))
  either_iff (some false) = ((λ e. refl), (λ e. refl))

  quad-is_blocked_ipv6 :
      (v : ℕ) → v < 2 ^ 32 → is_blocked_ipv6 is_ip (format_ip v ipv4_bits) ≡ some false
  unfolding is_blocked_ipv6
  quad-is_blocked_ipv6 v h = rw (parse_ip-format_v4 unmapped v h) refl

  -- A dotted quad passes exactly when its number lies in none of the blocked IPv4 ranges.
  pub is_blocked_address-quad_iff :
      (v : ℕ)
      → v < 2 ^ 32
      → (is_blocked_address is_ip (format_ip v ipv4_bits) ≡ some false)
        ↔ All (Outside (four_at v)) blocked_ipv4_ranges
  unfolding is_blocked_address
  is_blocked_address-quad_iff v h =
      let (there, back) = either_iff (is_blocked_ipv4 is_ip (format_ip v ipv4_bits)) in
      rw (quad-is_blocked_ipv6 v h)
        ((λ e. (is_blocked_ipv4_iff v h).0 (there e)), (λ o. back ((is_blocked_ipv4_iff v h).1 o)))

  -- When the IPv4 texts of `net.isIP` are the dotted quads without leading zeros: `isBlockedAddress` lets an
  -- IPv6 text that is read without a zone id pass exactly when its address lies in none of the blocked
  -- IPv6 ranges, or is IPv4-mapped and the IPv4 address in it lies in none of the blocked IPv4 ranges.
  pub is_blocked_address-IsPublic_iff :
      (ip : Text) (p : ParsedIp)
      → is_ip ip ≡ 6
      → parse_ip unmapped ip ≡ some p
      → p.bits ≡ 128
      → (is_blocked_address is_ip ip ≡ some false) ↔ IsPublic p.value
  is_blocked_address-IsPublic_iff ip p six e bits = rw (is_blocked_address-six ip six) (
    is_blocked_ipv6-IsPublic is_ip quad ip p e bits,
    λ public.
        is_blocked_ipv6-folded ip p e bits
        ∙ check_mapped-passes p.zone_id p.value (six_lt is_ip quad ip p e bits) public,
  )
