-- ===== src/Address/V4.antt =====
-- IPv4: every 32-bit number is read back from its dotted quad.
use cidrella.Base.{
  ℕ, ◌+◌, ◌*◌, ◌/◌, ◌%◌, ◌^◌, ◌<◌, ◌≡◌, ◌≢◌, ap, ◌∙◌, none, some, List, [], ◌∷◌, arith, All,
  All-map, append-ne-nil, map, all, true,
}
use cidrella.Base.Bits.{bit_and_low}
use cidrella.Base.Text.{Text, join, to_string, is_digit}
use cidrella.Base.Text.Radix.{
  parse_int-to_string, All-to_string, decimal_digit, length-to_string-le, to_string-ne-nil,
}
use cidrella.Base.Text.Splitting.{Lacks, split-join, All-join, includes-Lacks}
use cidrella.Address.{
  dot, colon, octet, read_octets, parse_v4, parse_address, parse_ip, IpOptions, ipv4_bits,
}
use cidrella.Address.Format.{octets, format_ip}
use cidrella.Address.Plain.{
  IsPlain, parse_ip-plain, decimal-All-IsPlain, dot-IsPlain, decimal-Lacks-dot, decimal-Lacks-colon,
  all_of_All, one-le-length,
}

octet-to_string : (n : ℕ) → n < 256 → octet (to_string 10 n) ≡ some n
unfolding octet
octet-to_string n h =
    rw (parse_int-to_string 10 n (omega arith), digits)
      (ground (
        arith,
        one-le-length (to_string 10 n) (to_string-ne-nil 10 n),
        length-to_string-le 2 10 n (omega arith),
      ))
  where
    digits : all is_digit (to_string 10 n) ≡ true
    digits = all_of_All is_digit _ (All-to_string (λ c. is_digit c ≡ true) 10 n decimal_digit)

quad_value :
    (v : ℕ)
    → v < 2 ^ 32
    → (((v / 2 ^ 24 % 256) * 2 ^ 8 + v / 2 ^ 16 % 256) * 2 ^ 8 + v / 2 ^ 8 % 256) * 2 ^ 8 + v % 256
      ≡ v
quad_value v h = omega arith

quad_text :
    (a b c d : ℕ)
    → a < 256
    → b < 256
    → c < 256
    → d < 256
    → read_octets 0 (to_string 10 a ∷ to_string 10 b ∷ to_string 10 c ∷ to_string 10 d ∷ [])
      ≡ some (((a * 2 ^ 8 + b) * 2 ^ 8 + c) * 2 ^ 8 + d)
unfolding read_octets
quad_text a b c d ha hb hc hd =
    rw (octet-to_string a ha, octet-to_string b hb, octet-to_string c hc, octet-to_string d hd)
      (ap some (omega arith))

abbrev quad_numbers : ℕ → List ℕ
quad_numbers v = v / 2 ^ 24 % 256 ∷ v / 2 ^ 16 % 256 ∷ v / 2 ^ 8 % 256 ∷ v % 256 ∷ []

quad : (v : ℕ) → List Text
quad v = map (to_string 10) (quad_numbers v)

octets-quad : (v : ℕ) → octets v ≡ quad v
unfolding quad
octets-quad v = rw (
  bit_and_low 8 (v / 2 ^ 24),
  bit_and_low 8 (v / 2 ^ 16),
  bit_and_low 8 (v / 2 ^ 8),
  bit_and_low 8 (v / 2 ^ 0),
  e,
)
  where
    e : v / 2 ^ 0 ≡ v
    e = omega arith

format_v4 : (v : ℕ) → format_ip v ipv4_bits ≡ join dot (quad v)
unfolding format_ip
format_v4 v = ap (join dot) (octets-quad v)

parse_v4-quad : (v : ℕ) → v < 2 ^ 32 → parse_v4 (join dot (quad v)) ≡ some v
unfolding parse_v4 quad
parse_v4-quad v h = rw (split-join dot (quad v) (cc) lacks) (
    quad_text _ _ _ _ (omega arith) (omega arith) (omega arith) (omega arith)
    ∙ ap some (quad_value v h))
  where
    lacks : All (Lacks dot) (quad v)
    lacks = All-map (Lacks dot) (to_string 10) (quad_numbers v) decimal-Lacks-dot

-- The text of an IPv4 address has no colon, no white space and no zone id.
quad-IsPlain : (v : ℕ) → All IsPlain (join dot (quad v))
unfolding quad
quad-IsPlain v =
    All-join IsPlain dot (quad v) dot-IsPlain
      (All-map (All IsPlain) (to_string 10) (quad_numbers v) decimal-All-IsPlain)

quad-Lacks-colon : (v : ℕ) → Lacks colon (join dot (quad v))
unfolding quad
quad-Lacks-colon v =
    All-join (λ c. c ≢ colon) dot (quad v) (omega arith)
      (All-map (Lacks colon) (to_string 10) (quad_numbers v) decimal-Lacks-colon)

quad-ne-nil : (v : ℕ) → join dot (quad v) ≢ []
unfolding quad join
quad-ne-nil v = append-ne-nil _ _ (to_string-ne-nil 10 (v / 2 ^ 24 % 256))

-- Whatever the options, the dotted quad of a 32-bit number is parsed to that number, as IPv4 and
-- with no zone id.
pub parse_ip-format_v4 :
    (o : IpOptions) (v : ℕ)
    → v < 2 ^ 32
    → parse_ip o (format_ip v ipv4_bits)
      ≡ some (record { value = v; bits = ipv4_bits; zone_id = none })
unfolding parse_address
parse_ip-format_v4 o v h = rw (
  format_v4 v,
  parse_ip-plain o _ (quad-ne-nil v) (quad-IsPlain v),
  includes-Lacks colon _ (quad-Lacks-colon v),
  parse_v4-quad v h,
)

pub format_v4-Lacks-colon : (v : ℕ) → Lacks colon (format_ip v ipv4_bits)
format_v4-Lacks-colon v = rw (format_v4 v) (quad-Lacks-colon v)

pub format_v4-ne-nil : (v : ℕ) → format_ip v ipv4_bits ≢ []
format_v4-ne-nil v = rw (format_v4 v) (quad-ne-nil v)
