-- ===== src/Address/Characters.antt =====
-- The characters of a formatted address.
use cidrella.Base.{
  ℕ, ◌+◌, ◌/◌, ◌%◌, ◌^◌, bit_and, List, [], ◌∷◌, ◌++◌, take, drop, All, All-append, All-take,
  All-drop, All-map, Bool-cases, inl, inr, ◌==◌, leb, if◌then◌else◌,
}
use cidrella.Base.Text.{Text, join, to_string, digit_char}
use cidrella.Base.Text.Radix.{All-to_string}
use cidrella.Base.Text.Splitting.{All-join}
use cidrella.Address.{dot, colon, ipv4_bits}
use cidrella.Address.Format.{format_ip, compress, octets, groups, best_run, no_run, Run}

-- A property of the dot, the colon and the digits.
module _ {ℓ} (P : ℕ → Type ℓ) (of_dot : P dot) (of_colon : P colon)
    (of_decimal : (n : ℕ) → P (digit_char (n % 10)))
    (of_hex : (n : ℕ) → P (digit_char (n % 16))) where
  All-octets : (v : ℕ) → All (All P) (octets v)
  All-octets v =
      All-map (All P) (λ shift. to_string 10 (bit_and (v / 2 ^ shift) 0xff)) (24 ∷ 16 ∷ 8 ∷ 0 ∷ [])
        (λ shift. All-to_string P 10 _ of_decimal)

  All-groups : (v : ℕ) → All (All P) (groups v)
  All-groups v =
      All-map (All P) (λ shift. to_string 16 (bit_and (v / 2 ^ shift) 0xffff))
        (112 ∷ 96 ∷ 80 ∷ 64 ∷ 48 ∷ 32 ∷ 16 ∷ 0 ∷ []) (λ shift. All-to_string P 16 _ of_hex)

  All-around :
      (r : Run) (gs : List Text)
      → All (All P) gs
      → All P (
          if leb 2 r.len
          then join colon (take r.start gs)
            ++ colon ∷ colon ∷ join colon (drop (r.start + r.len) gs)
          else join colon gs)
  All-around r gs h = elim (Bool-cases (leb 2 r.len)) [
    | inl long ↦ rw long (
        All-append P (join colon (take r.start gs)) _
          (All-join P colon (take r.start gs) of_colon (All-take (All P) r.start gs h))
          (
            of_colon,
            (
              of_colon,
              All-join P colon (drop (r.start + r.len) gs) of_colon
                  (All-drop (All P) (r.start + r.len) gs h),
            ),
          ))
    | inr short ↦ rw short (All-join P colon gs of_colon h)
  ]

  All-compress : (gs : List Text) → All (All P) gs → All P (compress gs)
  unfolding compress
  All-compress gs h = All-around (best_run 8 gs 0 no_run) gs h

  pub All-format_ip : (v bits : ℕ) → All P (format_ip v bits)
  unfolding format_ip
  All-format_ip v bits = elim (Bool-cases (bits == ipv4_bits)) [
    | inl four ↦ rw four (All-join P dot (octets v) of_dot (All-octets v))
    | inr six ↦ rw six (All-compress (groups v) (All-groups v))
  ]
