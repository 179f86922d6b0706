-- ===== src/Address/SortKey.antt =====
-- `sortKey`: byte order of the keys is the order of the addresses, IPv4 first.
use cidrella.Base.{
  ℕ, zero, suc, ◌+◌, ◌-◌, ◌*◌, ◌%◌, ◌^◌, ◌≤◌, ◌<◌, ◌≡◌, ◌↔◌, ◌⊎◌, refl, ap, ap₂, ◌∙◌, sym, inl, inr,
  trichotomy, Bool, true, false, [], ◌∷◌, ◌++◌, length, length-append, length-replicate, replicate,
  All, All-append, ltb, ◌==◌, if◌then◌else◌, some, some-inj, ◌>>=◌, arith,
}
use cidrella.Base.Text.{Text, digit_char, digit_value, to_string, parse_from, parse_int}
use cidrella.Base.Text.Radix.{parse_int-to_string, All-to_string, length-to_string-le}
use cidrella.Address.{ParsedIp, IpOptions, default_options, parse_ip, ipv4_bits}
use cidrella.Address.Format.{pad_start, key_of, sort_key}
use cidrella.Address.Bounds.{IsAddress, parse_ip-IsAddress}

-- The order of `ORDER BY` on a text column: by code unit, a prefix first.
pub text_ltb : Text → Text → Bool
text_ltb [] [] = false
text_ltb [] (d ∷ t) = true
text_ltb (c ∷ s) [] = false
text_ltb (c ∷ s) (d ∷ t) = if c == d then text_ltb s t else ltb c d

-- A digit as `toString(16)` writes it.
abbrev IsLowerHex : ℕ → Type 0
IsLowerHex c = ((48 ≤ c) × (c ≤ 57)) ⊎ ((97 ≤ c) × (c ≤ 102))

digit-IsLowerHex : (m : ℕ) → IsLowerHex (digit_char (m % 16))
digit-IsLowerHex m = ground arith

digit_value-lt : (c d : ℕ) → IsLowerHex c → IsLowerHex d → c < d → digit_value c < digit_value d
digit_value-lt c d h k lt = ground arith

digit_value_small : (c : ℕ) → IsLowerHex c → digit_value c < 16
digit_value_small c h = ground arith

-- A number that is ahead stays ahead, whatever digits follow.
parse_from_ahead :
    (a b : ℕ) (s t : Text)
    → All IsLowerHex s
    → length s ≡ length t
    → a < b
    → parse_from 16 a s < parse_from 16 b t
unfolding parse_from
parse_from_ahead a b [] [] h len lt = lt
parse_from_ahead a b [] (d ∷ t) h len lt = absurd (omega arith)
parse_from_ahead a b (c ∷ s) [] h len lt = absurd (omega arith)
parse_from_ahead a b (c ∷ s) (d ∷ t) (k, h) len lt =
    parse_from_ahead (a * 16 + digit_value c) (b * 16 + digit_value d) s t h (omega arith)
      (omega (arith, digit_value_small c k))

text_ltb-parse :
    (a : ℕ) (s t : Text)
    → All IsLowerHex s
    → All IsLowerHex t
    → length s ≡ length t
    → text_ltb s t ≡ ltb (parse_from 16 a s) (parse_from 16 a t)
unfolding text_ltb parse_from
text_ltb-parse a [] [] h k len = ground arith
text_ltb-parse a [] (d ∷ t) h k len = absurd (omega arith)
text_ltb-parse a (c ∷ s) [] h k len = absurd (omega arith)
text_ltb-parse a (c ∷ s) (d ∷ t) (p, h) (q, k) len = elim (trichotomy c d) [
  | inl below ↦ ground (
    arith,
    parse_from_ahead (a * 16 + digit_value c) (a * 16 + digit_value d) s t h (omega arith)
        (omega (arith, digit_value-lt c d p q below)),
  )
  | inr (inl same) ↦
      ground
        (arith, ap digit_value same, text_ltb-parse (a * 16 + digit_value c) s t h k (omega arith))
  | inr (inr above) ↦ ground (
    arith,
    parse_from_ahead (a * 16 + digit_value d) (a * 16 + digit_value c) t s k (omega arith)
        (omega (arith, digit_value-lt d c q p above)),
  )
]

parse_from-zeros : (n : ℕ) (s : Text) → parse_from 16 0 (replicate n b'0' ++ s) ≡ parse_from 16 0 s
unfolding parse_from
parse_from-zeros zero s = refl
parse_from-zeros (suc n) s = parse_from-zeros n s

zeros-IsLowerHex : (n : ℕ) → All IsLowerHex (replicate n b'0')
zeros-IsLowerHex zero = tt
zeros-IsLowerHex (suc n) = (omega arith, zeros-IsLowerHex n)

-- The digits of a key.
digits : ℕ → Text
digits v = pad_start 32 (to_string 16 v)

digits-IsLowerHex : (v : ℕ) → All IsLowerHex (digits v)
unfolding digits
digits-IsLowerHex v =
    All-append IsLowerHex _ _ (zeros-IsLowerHex _) (All-to_string IsLowerHex 16 v digit-IsLowerHex)

parse-digits : (v : ℕ) → parse_from 16 0 (digits v) ≡ v
unfolding digits parse_int
parse-digits v = parse_from-zeros _ _ ∙ parse_int-to_string 16 v (omega arith)

length-digits : (v : ℕ) → v < 2 ^ 128 → length (digits v) ≡ 32
unfolding digits
length-digits v h = omega (
  arith,
  length-append (replicate (32 - length (to_string 16 v)) b'0') (to_string 16 v),
  length-replicate {A = ℕ} (32 - length (to_string 16 v)) b'0',
  length-to_string-le 31 16 v (omega arith) h,
)

text_ltb-digits : (v w : ℕ) → v < 2 ^ 128 → w < 2 ^ 128 → text_ltb (digits v) (digits w) ≡ ltb v w
text_ltb-digits v w h k =
    text_ltb-parse 0 (digits v) (digits w) (digits-IsLowerHex v) (digits-IsLowerHex w)
      (length-digits v h ∙ sym (length-digits w k))
    ∙ ap₂ ltb (parse-digits v) (parse-digits w)

below_128 : (o : IpOptions) (p : ParsedIp) → IsAddress o p → p.value < 2 ^ 128
below_128 o p h = ground arith

key_of_lem :
    (p : ParsedIp) → key_of p ≡ (if p.bits == ipv4_bits then b'4' else b'6') ∷ digits p.value
unfolding key_of digits
key_of_lem p = refl

text_ltb-cons :
    (c d : ℕ) (s t : Text) → text_ltb (c ∷ s) (d ∷ t) ≡ (if c == d then text_ltb s t else ltb c d)
unfolding text_ltb
text_ltb-cons c d s t = refl

-- IPv4 before IPv6, and within a family by number.
abbrev pub Precedes : ParsedIp → ParsedIp → Type 0
Precedes p q = (p.bits < q.bits) ⊎ ((p.bits ≡ q.bits) × (p.value < q.value))

key_of-order :
    (o : IpOptions) (p q : ParsedIp)
    → IsAddress o p
    → IsAddress o q
    → (text_ltb (key_of p) (key_of q) ≡ true) ↔ Precedes p q
key_of-order o p q h k =
    rw
      (
        key_of_lem p,
        key_of_lem q,
        text_ltb-cons,
        text_ltb-digits p.value q.value (below_128 o p h) (below_128 o q k),
      )
      (ground arith)

-- The sort keys of two address texts are in byte order exactly when the first address precedes the
-- second: IPv4 before IPv6, and within a family by number.
pub sort_key-order :
    (s t k l : Text) (p q : ParsedIp)
    → sort_key s ≡ some k
    → sort_key t ≡ some l
    → parse_ip default_options s ≡ some p
    → parse_ip default_options t ≡ some q
    → (text_ltb k l ≡ true) ↔ Precedes p q
unfolding sort_key
sort_key-order s t k l p q hk hl hp hq =
    rw (← key s k p hk hp, ← key t l q hl hq)
      (key_of-order default_options p q (parse_ip-IsAddress default_options s p hp)
        (parse_ip-IsAddress default_options t q hq))
  where
    key :
        (u m : Text) (r : ParsedIp)
        → sort_key u ≡ some m
        → parse_ip default_options u ≡ some r
        → key_of r ≡ m
    key u m r e f = some-inj (sym (ap (λ x. x >>= λ parsed. some (key_of parsed)) f) ∙ e)
