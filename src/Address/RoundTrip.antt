-- ===== src/Address/RoundTrip.antt =====
-- A formatted address is read back, in both families; the IPv4-mapped range is read as IPv4.
use cidrella.Base.{
  ℕ, ◌+◌, ◌-◌, ◌*◌, ◌/◌, ◌%◌, ◌^◌, ◌≤◌, ◌<◌, ◌≡◌, ◌≢◌, ◌⊎◌, inl, inr, refl, ap, ◌∙◌, true, false,
  ◌||◌, Option, none, some, List, [], ◌∷◌, map, all, All, All-map, All-append, All-take, All-drop,
  leb, Bool-cases, arith, take,
}
use cidrella.Base.Bits.{bit_and_low, bit_and_high}
use cidrella.Base.Text.{Text, to_string, is_hex_digit, includes, join}
use cidrella.Base.Text.Splitting.{All-join, includes_at}
use cidrella.Base.Text.Radix.{
  parse_int-to_string, All-to_string, hex_digit, length-to_string-le, to_string-ne-nil,
}
use cidrella.Address.{
  colon, hex_group, read_groups, parse_address, parse_ip, fold_mapped, IpOptions, ipv4_bits,
  ipv6_bits, v4_mapped_prefix, v4_mapped_last,
}
use cidrella.Address.Plain.{
  IsPlain, parse_ip-plain, hex-All-IsPlain, colon-IsPlain, hex-Lacks-dot, hex-Lacks-colon,
  all_of_All, one-le-length,
}
use cidrella.Address.Format.{groups, compress, format_ip, best_run, no_run}
use cidrella.Address.V6.{IsHextet, parse_v6-compress}

hex_group-to_string : (n : ℕ) → n < 65536 → hex_group (to_string 16 n) ≡ some n
unfolding hex_group
hex_group-to_string n h =
    rw (parse_int-to_string 16 n (omega arith), digits)
      (ground (
        arith,
        one-le-length (to_string 16 n) (to_string-ne-nil 16 n),
        length-to_string-le 3 16 n (omega arith),
      ))
  where
    digits : all is_hex_digit (to_string 16 n) ≡ true
    digits = all_of_All is_hex_digit _ (All-to_string (λ c. is_hex_digit c ≡ true) 16 n hex_digit)

abbrev horner : ℕ → List ℕ → ℕ
horner v [] = v
horner v (n ∷ ns) = horner (v * 2 ^ 16 + n) ns

read_groups-map :
    (v : ℕ) (ns : List ℕ)
    → All (λ n. n < 65536) ns
    → read_groups v (map (to_string 16) ns) ≡ some (horner v ns)
unfolding read_groups
read_groups-map v [] h = refl
read_groups-map v (n ∷ ns) (k, h) =
    rw (hex_group-to_string n k) (read_groups-map (v * 2 ^ 16 + n) ns h)

abbrev group_numbers : ℕ → List ℕ
group_numbers v =
    v / 2 ^ 112 % 65536
    ∷ v / 2 ^ 96 % 65536
    ∷ v / 2 ^ 80 % 65536
    ∷ v / 2 ^ 64 % 65536
    ∷ v / 2 ^ 48 % 65536
    ∷ v / 2 ^ 32 % 65536
    ∷ v / 2 ^ 16 % 65536
    ∷ v % 65536
    ∷ []

horner-group_numbers : (v : ℕ) → v < 2 ^ 128 → horner 0 (group_numbers v) ≡ v
horner-group_numbers v h = omega arith

group_numbers-lt : (v : ℕ) → All (λ n. n < 65536) (group_numbers v)
group_numbers-lt v = omega arith

groups-map : (v : ℕ) → groups v ≡ map (to_string 16) (group_numbers v)
groups-map v = rw (
  bit_and_low 16 (v / 2 ^ 112),
  bit_and_low 16 (v / 2 ^ 96),
  bit_and_low 16 (v / 2 ^ 80),
  bit_and_low 16 (v / 2 ^ 64),
  bit_and_low 16 (v / 2 ^ 48),
  bit_and_low 16 (v / 2 ^ 32),
  bit_and_low 16 (v / 2 ^ 16),
  bit_and_low 16 (v / 2 ^ 0),
  e,
)
  where
    e : v / 2 ^ 0 ≡ v
    e = omega arith

to_string-IsHextet : (n : ℕ) → IsHextet (to_string 16 n)
to_string-IsHextet n = ((to_string-ne-nil 16 n, hex-Lacks-colon n), hex-Lacks-dot n)

-- The text of an IPv6 address: plain, with a colon.
join-colon : (g k : Text) (gs : List Text) → includes colon (join colon (g ∷ (k ∷ gs))) ≡ true
unfolding join
join-colon g k gs = includes_at colon g _

compress-colon : (g k : Text) (gs : List Text) → includes colon (compress (g ∷ (k ∷ gs))) ≡ true
unfolding compress
compress-colon g k gs = elim (Bool-cases (leb 2 (best_run 8 (g ∷ (k ∷ gs)) 0 no_run).len)) [
  | inl long ↦ rw long (
      includes_at colon
        (join colon (take (best_run 8 (g ∷ (k ∷ gs)) 0 no_run).start (g ∷ (k ∷ gs)))) _)
  | inr short ↦ rw short (join-colon g k gs)
]

compress-IsPlain : (gs : List Text) → All (All IsPlain) gs → All IsPlain (compress gs)
unfolding compress
compress-IsPlain gs h = elim (Bool-cases (leb 2 best_len)) [
  | inl long ↦ rw long (
      All-append IsPlain _ _
        (All-join IsPlain colon _ colon-IsPlain (All-take (All IsPlain) _ gs h))
        (
          colon-IsPlain,
          (colon-IsPlain, All-join IsPlain colon _ colon-IsPlain (All-drop (All IsPlain) _ gs h)),
        ))
  | inr short ↦ rw short (All-join IsPlain colon gs colon-IsPlain h)
]
  where
    best_len : ℕ
    best_len = (best_run 8 gs 0 no_run).len

ne-nil_of_includes : (c : ℕ) (s : Text) → includes c s ≡ true → s ≢ []
ne-nil_of_includes c [] h = cc
ne-nil_of_includes c (x ∷ s) h = cc

-- Outside ::ffff:0:0/96.
abbrev pub NotMapped : ℕ → Type 0
NotMapped v = (v < v4_mapped_prefix) ⊎ (v4_mapped_last < v)

pub fold_mapped_not :
    (o : IpOptions) (z : Option Text) (v : ℕ)
    → v < 2 ^ 128
    → (o.map_v4 ≡ false) ⊎ NotMapped v
    → fold_mapped o z v ≡ record { value = v; bits = ipv6_bits; zone_id = z }
unfolding fold_mapped
fold_mapped_not o z v h k = ground (arith, bit_and_high 96 32 v h)

pub fold_mapped_in :
    (o : IpOptions) (z : Option Text) (v : ℕ)
    → o.map_v4 ≡ true
    → v4_mapped_prefix ≤ v
    → v ≤ v4_mapped_last
    → fold_mapped o z v ≡ record { value = v - v4_mapped_prefix; bits = ipv4_bits; zone_id = z }
unfolding fold_mapped
fold_mapped_in o z v m low high =
    ground (arith, bit_and_high 96 32 v (omega arith), bit_and_low 32 v)

format_v6 : (v : ℕ) → format_ip v ipv6_bits ≡ compress (map (to_string 16) (group_numbers v))
unfolding format_ip
format_v6 v = ap compress (groups-map v)

parse_ip-format_fold :
    (o : IpOptions) (v : ℕ)
    → v < 2 ^ 128
    → parse_ip o (format_ip v ipv6_bits) ≡ some (fold_mapped o none v)
unfolding parse_address
parse_ip-format_fold o v h = rw (
  format_v6 v,
  parse_ip-plain o text (ne-nil_of_includes colon text has_colon)
      (compress-IsPlain _ (All-map (All IsPlain) (to_string 16) (group_numbers v) hex-All-IsPlain)),
  has_colon,
  parse_v6-compress (map (to_string 16) (group_numbers v)) (o.embedded_v4 || o.map_v4) refl
      (All-map IsHextet (to_string 16) (group_numbers v) to_string-IsHextet),
  read_groups-map 0 (group_numbers v) (group_numbers-lt v),
  horner-group_numbers v h,
)
  where
    text : Text
    text = compress (map (to_string 16) (group_numbers v))

    has_colon : includes colon text ≡ true
    has_colon = compress-colon _ _ _

-- The canonical text of a 128-bit number is parsed to that number, as IPv6 and with no zone id, if
-- IPv4-mapped addresses are not folded or the number is outside ::ffff:0:0/96.
pub parse_ip-format_v6 :
    (o : IpOptions) (v : ℕ)
    → v < 2 ^ 128
    → (o.map_v4 ≡ false) ⊎ NotMapped v
    → parse_ip o (format_ip v ipv6_bits)
      ≡ some (record { value = v; bits = ipv6_bits; zone_id = none })
parse_ip-format_v6 o v h k = parse_ip-format_fold o v h ∙ ap some (fold_mapped_not o none v h k)

-- Inside ::ffff:0:0/96 the IPv6 text of a number is parsed, when mapped addresses are folded, to the
-- IPv4 address that is its offset in that block.
pub parse_ip-format_mapped :
    (o : IpOptions) (v : ℕ)
    → o.map_v4 ≡ true
    → v4_mapped_prefix ≤ v
    → v ≤ v4_mapped_last
    → parse_ip o (format_ip v ipv6_bits)
      ≡ some (record { value = v - v4_mapped_prefix; bits = ipv4_bits; zone_id = none })
parse_ip-format_mapped o v m low high =
    parse_ip-format_fold o v (omega arith) ∙ ap some (fold_mapped_in o none v m low high)

pub format_v6-ne-nil : (v : ℕ) → format_ip v ipv6_bits ≢ []
format_v6-ne-nil v = rw (format_v6 v) (ne-nil_of_includes colon _ (compress-colon _ _ _))
