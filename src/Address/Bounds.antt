-- ===== src/Address/Bounds.antt =====
-- What `parseIp` returns is in range, and folded.
use cidrella.Base.{
  ℕ, suc, ◌+◌, ◌*◌, ◌^◌, ◌≤◌, ◌<◌, ◌≡◌, ◌⊎◌, inl, inr, refl, ap, subst, is_some, ◌||◌, Bool, true,
  false, Option, none, some, List, [], ◌∷◌, length, all, last_or, ◌++◌, if◌then◌else◌, ◌==◌, ==_iff,
  Bool-cases, ◌>>◌, check, >>=-eq-some, some-inj, none-ne-some, drop, take, arith,
}
use native.Mathlib.Nat.{pow-suc, pow-zero, mul-one, pow-le-pow_right}
use cidrella.Base.Bits.{bit_and_high, bit_and_low}
use cidrella.Base.Text.{
  Text, split, parse_from, parse_int, includes, index_of, last_index_of, is_empty, trim,
  digit_value, is_hex_digit,
}
use cidrella.Address.{
  dot, colon, percent, pair, same_position, fill_zeros, octet, read_octets, parse_v4, hex_group,
  read_groups, take_trailing, with_trailing, group_count, parse_parts, parse_v6, ParsedIp,
  IpOptions, ipv4_bits, ipv6_bits, fold_mapped, parse_address, parse_zoned, parse_ip,
}
use cidrella.Address.RoundTrip.{NotMapped}

octet-lt : (s : Text) (n : ℕ) → octet s ≡ some n → n < 256
unfolding octet
octet-lt s n h = ground arith

-- One round of a loop that reads digits of base `b`.
horner_step : (b v n p r : ℕ) → n < b → r < suc (v * b + n) * p → r < suc v * (p * b)
horner_step b v n p r h k =
    let wide : suc (v * b + n) * p ≤ (suc v * b) * p = grind arith in grind arith

read_octets-lt :
    (v r : ℕ) (os : List Text) → read_octets v os ≡ some r → r < suc v * 256 ^ length os
unfolding read_octets
read_octets-lt v r [] h = ground (arith, pow-zero 256, mul-one (suc v))
read_octets-lt v r (o ∷ os) h =
    let (n, e, rest) = >>=-eq-some (octet o) _ h in
    rw (pow-suc 256 (length os))
      (horner_step 256 v n _ r (octet-lt o n e) (read_octets-lt (v * 256 + n) r os rest))

-- A reading of `k` digits at most.
below_power : (b k m r : ℕ) → 1 ≤ b → m ≤ k → r < 1 * b ^ m → r < b ^ k
below_power b k m r p h lt = let le : b ^ m ≤ b ^ k = pow-le-pow_right p h in omega arith

parse_v4-lt : (s : Text) (v : ℕ) → parse_v4 s ≡ some v → v < 2 ^ 32
unfolding parse_v4
parse_v4-lt s v h =
    let four : length (split dot s) ≤ 4 = ground arith in
    let read : read_octets 0 (split dot s) ≡ some v = ground arith in
    below_power 256 4 (length (split dot s)) v (omega arith) four
      (read_octets-lt 0 v (split dot s) read)

parse_from-lt :
    (v : ℕ) (s : Text) → all is_hex_digit s ≡ true → parse_from 16 v s < suc v * 16 ^ length s
unfolding parse_from
parse_from-lt v [] h = omega (arith, pow-zero 16, ap (λ (t : ℕ). suc v * t) (pow-zero 16))
parse_from-lt v (c ∷ s) h = rw (pow-suc 16 (length s)) (
    horner_step 16 v (digit_value c) _ _ (ground arith)
      (parse_from-lt (v * 16 + digit_value c) s (ground arith)))

hex_group-lt : (s : Text) (n : ℕ) → hex_group s ≡ some n → n < 65536
unfolding hex_group parse_int
hex_group-lt s n h =
    let short : length s ≤ 4 = ground arith in
    let digits : all is_hex_digit s ≡ true = ground arith in
    let read : parse_from 16 0 s ≡ n = ground arith in
    rw (← read) (below_power 16 4 (length s) _ (omega arith) short (parse_from-lt 0 s digits))

read_groups-lt :
    (v r : ℕ) (gs : List Text) → read_groups v gs ≡ some r → r < suc v * 65536 ^ length gs
unfolding read_groups
read_groups-lt v r [] h = ground (arith, pow-zero 65536, mul-one (suc v))
read_groups-lt v r (g ∷ gs) h =
    let (n, e, rest) = >>=-eq-some (hex_group g) _ h in
    rw (pow-suc 65536 (length gs))
      (horner_step 65536 v n _ r (hex_group-lt g n e) (read_groups-lt (v * 65536 + n) r gs rest))

-- A quad that is taken off the end is an IPv4 address.
abbrev QuadFits : Option ℕ → Type 0
QuadFits none = Unit
QuadFits (some quad) = quad < 2 ^ 32

take_trailing-QuadFits :
    (b : Bool) (tail parts rest : List Text) (e : Bool) (q : Option ℕ)
    → take_trailing b tail parts e ≡ some (q, rest)
    → QuadFits q
unfolding take_trailing
take_trailing-QuadFits b tail parts rest e none h = tt
take_trailing-QuadFits b tail parts rest e (some quad) h =
    parse_v4-lt (last_or [] parts) quad (ground arith)

with_trailing-lt :
    (q : Option ℕ) (v : ℕ) (parts : List Text)
    → QuadFits q
    → length parts ≡ group_count q
    → read_groups 0 parts ≡ some v
    → with_trailing v q < 2 ^ 128
with_trailing-lt none v parts fits len read =
    below_power 65536 8 (length parts) v (omega arith) (omega arith) (read_groups-lt 0 v parts read)
with_trailing-lt (some quad) v parts fits len read =
    let high : v < 65536 ^ 6 =
      below_power 65536 6 (length parts) v (omega arith) (omega arith)
        (read_groups-lt 0 v parts read) in
    omega arith

check-eq-some : (b : Bool) → check b ≡ some tt → b ≡ true
check-eq-some true h = refl
check-eq-some false h = cc

>>-eq-some : (b : Bool) (k : Option ℕ) (r : ℕ) → (check b >> k) ≡ some r → (b ≡ true) × (k ≡ some r)
>>-eq-some true k r h = (refl, h)
>>-eq-some false k r h = cc

parse_parts-lt :
    (b : Bool) (heads tails : List Text) (e : Bool) (r : ℕ)
    → parse_parts b heads tails e ≡ some r
    → r < 2 ^ 128
unfolding parse_parts
parse_parts-lt b heads tails e r h =
    let ((q, rest), off, h1) =
      >>=-eq-some (take_trailing b tails (if b then heads ++ tails else heads) e) _ h in
    let (parts, filled, h2) = >>=-eq-some (fill_zeros b (length heads) (group_count q) rest) _ h1 in
    let (counted, h3) = >>-eq-some (length parts == group_count q) _ r h2 in
    let (v, read, done) = >>=-eq-some (read_groups 0 parts) _ h3 in
    subst (λ t. t < 2 ^ 128) (some-inj done)
      (with_trailing-lt q v parts (take_trailing-QuadFits b tails _ rest e q off)
        ((==_iff _ _).0 counted) read)

parse_v6-lt : (s : Text) (e : Bool) (v : ℕ) → parse_v6 s e ≡ some v → v < 2 ^ 128
unfolding parse_v6
parse_v6-lt s e v h = elim (Bool-cases (same_position (index_of pair s) (last_index_of pair s))) [
  | inl same ↦ parse_parts-lt _ _ _ e v (rw same at h)
  | inr other ↦ none-ne-some (rw other at h)
]

-- What a parsed address is: IPv4 below 2 ^ 32, or IPv6 below 2 ^ 128 and, where mapped addresses are
-- folded, outside ::ffff:0:0/96.
abbrev pub IsAddress : IpOptions → ParsedIp → Type 0
IsAddress o p =
    ((p.bits ≡ ipv4_bits) × (p.value < 2 ^ 32))
    ⊎ ((p.bits ≡ ipv6_bits) × (p.value < 2 ^ 128) × ((o.map_v4 ≡ false) ⊎ NotMapped p.value))

fold_mapped-IsAddress :
    (o : IpOptions) (z : Option Text) (v : ℕ) → v < 2 ^ 128 → IsAddress o (fold_mapped o z v)
unfolding fold_mapped
fold_mapped-IsAddress o z v h = ground (arith, bit_and_high 96 32 v h, bit_and_low 32 v)

parse_address-IsAddress :
    (o : IpOptions) (s : Text) (z : Option Text) (p : ParsedIp)
    → parse_address o s z ≡ some p
    → IsAddress o p
unfolding parse_address
parse_address-IsAddress o s z p h = elim (Bool-cases (includes colon s)) [
  | inl six ↦
      let (v, read, done) = >>=-eq-some (parse_v6 s (o.embedded_v4 || o.map_v4)) _ (rw six at h) in
      subst (IsAddress o) (some-inj done) (fold_mapped-IsAddress o z v (parse_v6-lt s _ v read))
  | inr four ↦ elim (Bool-cases (is_some z)) [
    | inl zoned ↦ none-ne-some (rw (four, zoned) at h)
    | inr plain ↦
        let (v, read, done) = >>=-eq-some (parse_v4 s) _ (rw (four, plain) at h) in
        subst (IsAddress o) (some-inj done) (inl (refl, parse_v4-lt s v read))
  ]
]

parse_zoned-IsAddress :
    (o : IpOptions) (s : Text) (i : Option ℕ) (p : ParsedIp)
    → parse_zoned o s i ≡ some p
    → IsAddress o p
unfolding parse_zoned
parse_zoned-IsAddress o s none p h = parse_address-IsAddress o s none p h
parse_zoned-IsAddress o s (some i) p h =
    parse_address-IsAddress o (take i s) (some (drop (suc i) s)) p (ground arith)

-- Whatever text is parsed, the result is an address in range, of a family's 32 or 128 bits, and no
-- IPv6 result is an IPv4-mapped one where these are folded.
pub parse_ip-IsAddress :
    (o : IpOptions) (s : Text) (p : ParsedIp) → parse_ip o s ≡ some p → IsAddress o p
unfolding parse_ip
parse_ip-IsAddress o s p h = elim (Bool-cases (is_empty (trim s))) [
  | inl empty ↦ none-ne-some (rw empty at h)
  | inr text ↦ parse_zoned-IsAddress o (trim s) (index_of (percent ∷ []) (trim s)) p (rw text at h)
]
