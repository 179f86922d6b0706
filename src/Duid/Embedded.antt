-- ===== src/Duid/Embedded.antt =====
-- The MAC address in a DUID, as the bytes of the DUID have it.
use cidrella.Base.{
  ℕ, zero, suc, ◌+◌, ◌*◌, ◌/◌, ◌%◌, ◌≤◌, ◌<◌, ◌≡◌, refl, arith, false, ◌&&◌, Option, none, some,
  inl, inr, List, [], ◌∷◌, ◌++◌, ◌==◌, if◌then◌else◌, map, length, drop, Bool-cases,
}
use cidrella.Base.Text.{Text, digit_char, digit_value, parse_int, parse_from}
use cidrella.Duid.{
  two_bytes, mac_offset, mac_at, mac_from_duid, byte_text, normalize_duid, duid_from_bytes,
}
use cidrella.Duid.RoundTrip.{
  AreBytes, byte_text_lem, high_lt, low_lt, spelling, split-spelling, length-byte_texts,
  normalize_duid-spelling,
}

-- RFC 8415: two bytes of the type, two of the hardware type, in DUID-LLT (1) four of the time, and the
-- address. An Ethernet address (hardware type 1) has six bytes.
abbrev pub ethernet_mac : List ℕ → Option Text
ethernet_mac (t ∷ (t' ∷ (h ∷ (h' ∷ rest)))) =
    if t * 256 + t' == 1
    then if h * 256 + h' == 1 && length rest == 10 then some (spelling (drop 4 rest)) else none
    else if t * 256 + t' == 3
    then if h * 256 + h' == 1 && length rest == 6 then some (spelling rest) else none
    else none
ethernet_mac _ = none

digit_value-digit_char : (d : ℕ) → d < 16 → digit_value (digit_char d) ≡ d
digit_value-digit_char d h = ground arith

-- Two bytes are read as one number.
parse_int-bytes :
    (a b : ℕ) → a < 256 → b < 256 → parse_int 16 (byte_text a ++ byte_text b) ≡ a * 256 + b
unfolding parse_int parse_from
parse_int-bytes a b h k =
    rw
      (
        byte_text_lem a h,
        byte_text_lem b k,
        digit_value-digit_char (a / 16) (high_lt a h),
        digit_value-digit_char (a % 16) (low_lt a),
        digit_value-digit_char (b / 16) (high_lt b k),
        digit_value-digit_char (b % 16) (low_lt b),
      )
      (omega arith)

drop-map : (n : ℕ) (bs : List ℕ) → drop n (map byte_text bs) ≡ map byte_text (drop n bs)
drop-map zero bs = refl
drop-map (suc n) [] = refl
drop-map (suc n) (b ∷ bs) = drop-map n bs

-- No DUID shorter than four bytes has an address.
mac_at-short : (o : Option ℕ) (ts : List Text) → length ts < 4 → mac_at o ts ≡ none
unfolding mac_at
mac_at-short none ts h = refl
mac_at-short (some offset) ts h =
    let long : (length ts == offset + 6) ≡ false = ground (arith, h) in rw long (ground arith)

mac_at-some :
    (offset a b c d : ℕ) (rest : List ℕ)
    → c < 256
    → d < 256
    → mac_at (some offset) (map byte_text (a ∷ b ∷ c ∷ d ∷ rest)) ≡ (
        if c * 256 + d == 1 && suc (suc (suc (suc (length rest)))) == offset + 6
        then some (spelling (drop offset (a ∷ b ∷ c ∷ d ∷ rest)))
        else none)
unfolding mac_at two_bytes
mac_at-some offset a b c d rest r s =
    rw (parse_int-bytes c d r s, length-byte_texts rest, drop-map offset (a ∷ b ∷ c ∷ d ∷ rest))
      refl

mac_at-none : (ts : List Text) → mac_at none ts ≡ none
unfolding mac_at
mac_at-none ts = refl

mac_at-bytes :
    (bs : List ℕ)
    → 2 ≤ length bs
    → AreBytes bs
    → mac_at (mac_offset (two_bytes (map byte_text bs))) (map byte_text bs) ≡ ethernet_mac bs
unfolding mac_offset two_bytes
mac_at-bytes [] l k = ground arith
mac_at-bytes (a ∷ []) l k = ground arith
mac_at-bytes (a ∷ (b ∷ [])) l k = mac_at-short _ _ (omega arith)
mac_at-bytes (a ∷ (b ∷ (c ∷ []))) l k = mac_at-short _ _ (omega arith)
mac_at-bytes (a ∷ (b ∷ (c ∷ (d ∷ rest)))) l (p, (q, (r, (s, k)))) =
    elim (Bool-cases (a * 256 + b == 1)) [
      | inl e ↦
          let fits : (suc (suc (suc (suc (length rest)))) == 14) ≡ (length rest == 10) =
            ground arith in
          rw (parse_int-bytes a b p q, e, mac_at-some 8 a b c d rest r s, fits) refl
      | inr e ↦ elim (Bool-cases (a * 256 + b == 3)) [
        | inl f ↦
            let fits : (suc (suc (suc (suc (length rest)))) == 10) ≡ (length rest == 6) =
              ground arith in
            rw (parse_int-bytes a b p q, e, f, mac_at-some 4 a b c d rest r s, fits) refl
        | inr f ↦
            rw (parse_int-bytes a b p q, e, f) (mac_at-none (map byte_text (a ∷ b ∷ c ∷ d ∷ rest)))
      ]
    ]

mac_from_duid-spelling :
    (bs : List ℕ)
    → 2 ≤ length bs
    → length bs ≤ 130
    → AreBytes bs
    → mac_from_duid (spelling bs) ≡ ethernet_mac bs
unfolding mac_from_duid
mac_from_duid-spelling bs low high k =
    rw (normalize_duid-spelling bs low high k, split-spelling bs low k) (mac_at-bytes bs low k)

duid_from_bytes-spelling : (bs : List ℕ) → 2 ≤ length bs → duid_from_bytes bs ≡ some (spelling bs)
unfolding duid_from_bytes
duid_from_bytes-spelling [] h = ground arith
duid_from_bytes-spelling (b ∷ bs) h = refl

-- Two to 130 bytes are spelt as a text that is canonical already, and from which `macFromDuid` takes the six
-- bytes behind the fixed part of an Ethernet DUID-LLT or DUID-LL, in the canonical spelling, and nothing
-- from any other DUID.
pub duid_from_bytes-mac :
    (bs : List ℕ)
    → 2 ≤ length bs
    → length bs ≤ 130
    → AreBytes bs
    → (duid_from_bytes bs ≡ some (spelling bs))
      × (normalize_duid (spelling bs) ≡ some (spelling bs))
      × (mac_from_duid (spelling bs) ≡ ethernet_mac bs)
duid_from_bytes-mac bs low high k = (
  duid_from_bytes-spelling bs low,
  normalize_duid-spelling bs low high k,
  mac_from_duid-spelling bs low high k,
)
