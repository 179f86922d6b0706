-- ===== src/Tests/Guard.antt =====
-- The theorems on the guard of outbound requests, at concrete URLs.
use cidrella.Base.{
  ℕ, ◌↔◌, inl, inr, sym, ◌∙◌, subst, arith, Bool-cases, ◌^◌, ◌<◌, ◌≡◌, refl, true, false, Option,
  none, some, List, [], ◌∷◌, ◌==◌, if◌then◌else◌,
}
use cidrella.Base.Text.{Text, codes, text_eq, trim, is_empty}
use cidrella.Address.{
  parse_zoned, parse_address, fold_mapped, ParsedIp, IpOptions, parse_ip, ipv4_bits,
}
use cidrella.Address.Format.{format_ip}
use cidrella.Address.V4.{parse_ip-format_v4}
use cidrella.UrlGuard.{
  unmapped, Url, Answer, accepted, refused, blocked_ipv6, blocked_range, validate_outbound_url,
  is_blocked_address, guard_runs,
}
use cidrella.UrlGuard.Scoped.{IsPublic}
use cidrella.UrlGuard.Connected.{
  HasNoZone, KnowsQuads, KnowsIpv6, GivesAddresses, IsConnectable,
  validate_outbound_url-IsConnectable,
}
use cidrella.UrlGuard.Decided.{is_blocked_address-IsPublic_iff}
use cidrella.Address.Format.Runs.{text_eq_sound}
use cidrella.Address.Bounds.{IsAddress, parse_ip-IsAddress}
use cidrella.Liveness.Pruning.{text_eq_refl}

abbrev with_zone : IpOptions
with_zone = record { zone_id = true; map_v4 = false; embedded_v4 = true }

-- A function that tells the family of a text as `net.isIP` does: no leading zeros in a dotted quad.
abbrev family_number : Text → Option ParsedIp → ℕ
family_number s none = 0
family_number s (some p) =
    if p.bits == 32 then (if text_eq (format_ip p.value ipv4_bits) s then 4 else 0) else 6

abbrev is_ip : Text → ℕ
is_ip s = family_number s (parse_ip with_zone s)

four_small : (p : ParsedIp) → IsAddress with_zone p → p.bits ≡ 32 → p.value < 2 ^ 32
four_small p (inl a) e = a.1
four_small p (inr a) e = absurd (omega (arith, a.0, e))

six_bits : (p : ParsedIp) → IsAddress with_zone p → (p.bits == 32) ≡ false → p.bits ≡ 128
six_bits p (inl a) e = absurd (ground (arith, a.0, e))
six_bits p (inr a) e = a.0

is_ip-KnowsQuads : KnowsQuads is_ip
is_ip-KnowsQuads s = ((λ e. there (parse_ip with_zone s) refl e), (λ q. back q.0 q.1.0 q.1.1))
  where
    there :
        (o : Option ParsedIp)
        → parse_ip with_zone s ≡ o
        → family_number s o ≡ 4
        → (v : ℕ) × ((v < 2 ^ 32) × (s ≡ format_ip v ipv4_bits))
    there none e h = absurd (cc)
    there (some p) e h = elim (Bool-cases (p.bits == 32)) [
      | inl four ↦ elim (Bool-cases (text_eq (format_ip p.value ipv4_bits) s)) [
        | inl same ↦ (
          p.value,
          (
            four_small p (parse_ip-IsAddress with_zone s p e) (ground (arith, four)),
            sym (text_eq_sound (format_ip p.value ipv4_bits) s same),
          ),
        )
        | inr other ↦ absurd (let z = rw (four, other) at h in cc)
      ]
      | inr six ↦ absurd (let z = rw six at h in cc)
    ]

    back : (v : ℕ) → v < 2 ^ 32 → s ≡ format_ip v ipv4_bits → is_ip s ≡ 4
    back v h e =
        subst (λ t. is_ip t ≡ 4) (sym e)
          (rw (parse_ip-format_v4 with_zone v h, text_eq_refl (format_ip v ipv4_bits)) refl)

-- Without a zone id it does not matter whether one is allowed.
same_reading : (s : Text) → HasNoZone s → parse_ip unmapped s ≡ parse_ip with_zone s
unfolding parse_ip parse_zoned parse_address fold_mapped
same_reading s plain = elim (Bool-cases (is_empty (trim s))) [
  | inl e ↦ rw e refl
  | inr e ↦ rw (e, plain) refl
]

is_ip-KnowsIpv6 : KnowsIpv6 is_ip
is_ip-KnowsIpv6 s six plain = at (parse_ip with_zone s) refl six
  where
    at :
        (o : Option ParsedIp)
        → parse_ip with_zone s ≡ o
        → family_number s o ≡ 6
        → (p : ParsedIp) × ((parse_ip unmapped s ≡ some p) × (p.bits ≡ 128))
    at none e h = absurd (cc)
    at (some p) e h = elim (Bool-cases (p.bits == 32)) [
      | inl four ↦ elim (Bool-cases (text_eq (format_ip p.value ipv4_bits) s)) [
        | inl same ↦ absurd (let z = rw (four, same) at h in cc)
        | inr other ↦ absurd (let z = rw (four, other) at h in cc)
      ]
      | inr long ↦
          (p, (same_reading s plain ∙ e, six_bits p (parse_ip-IsAddress with_zone s p e) long))
    ]

abbrev no_answer : Text → ℕ → Option (List Answer)
no_answer host family = none

abbrev server : Text
server = codes "2001:4860::8888"

abbrev bracketed : Text
bracketed = codes "[2001:4860::8888]"

abbrev url_of : Text → Option Url
url_of raw = some (record { protocol = codes "https:"; hostname = bracketed; href = raw })

abbrev raw : Text
raw = codes "https://[2001:4860::8888]/"

server_accepted :
    validate_outbound_url is_ip no_answer true url_of raw ≡ some (accepted raw bracketed server)
unfolding guard_runs
server_accepted = refl

no_answer-GivesAddresses : GivesAddresses is_ip no_answer
no_answer-GivesAddresses host family answers e = absurd (cc)

validate_outbound_url-IsConnectable_example : IsConnectable is_ip server
validate_outbound_url-IsConnectable_example =
    validate_outbound_url-IsConnectable is_ip no_answer true url_of raw raw bracketed server
      is_ip-KnowsQuads is_ip-KnowsIpv6 no_answer-GivesAddresses server_accepted

server_six : is_ip server ≡ 6
unfolding guard_runs
server_six = refl

server_read : (p : ParsedIp) × ((parse_ip unmapped server ≡ some p) × (p.bits ≡ 128))
unfolding guard_runs
server_read = (_, (refl, refl))

is_blocked_address-IsPublic_iff_example :
    (is_blocked_address is_ip server ≡ some false) ↔ IsPublic server_read.0.value
is_blocked_address-IsPublic_iff_example =
    is_blocked_address-IsPublic_iff is_ip is_ip-KnowsQuads server server_read.0 server_six
      server_read.1.0 server_read.1.1

-- A mapped loopback address, and a name that resolves to the metadata service.
abbrev mapped_url : Text → Option Url
mapped_url raw =
    some (record { protocol = codes "http:"; hostname = codes "[::ffff:7f00:1]"; href = raw })

abbrev name_url : Text → Option Url
name_url raw =
    some (record { protocol = codes "http:"; hostname = codes "metadata.example"; href = raw })

abbrev metadata : Text → ℕ → Option (List Answer)
metadata host family = some (record { family = 4; address = codes "169.254.169.254" } ∷ [])

refusals :
    (validate_outbound_url is_ip no_answer true mapped_url raw ≡ some (refused blocked_ipv6))
    × (validate_outbound_url is_ip metadata true name_url raw
        ≡ some (refused (blocked_range (codes "169.254.0.0/16"))))
unfolding guard_runs
refusals = (refl, refl)

-- An address with a zone id passes, whatever it is; and the parser of addresses takes leading zeros for
-- decimal.
abbrev scoped_answer : Text → ℕ → Option (List Answer)
scoped_answer host family = some (record { family = 6; address = codes "fe80::1%eth0" } ∷ [])

abbrev zeros_answer : Text → ℕ → Option (List Answer)
zeros_answer host family = some (record { family = 4; address = codes "012.0.0.1" } ∷ [])

passed :
    (is_ip (codes "fe80::1%eth0") ≡ 6)
    × (validate_outbound_url is_ip scoped_answer true name_url raw
        ≡ some (accepted raw (codes "metadata.example") (codes "fe80::1%eth0")))
    × (is_blocked_address is_ip (codes "fe80::1") ≡ some true)
    × (validate_outbound_url is_ip zeros_answer true name_url raw
        ≡ some (accepted raw (codes "metadata.example") (codes "012.0.0.1")))
unfolding guard_runs
passed = (refl, refl, refl, refl)
