-- ===== src/Cidr/RoundTrip.antt =====
-- The text of a network is parsed to that network.
use cidrella.Base.{
  ℕ, suc, ◌-◌, ◌^◌, ◌≤◌, ◌<◌, ◌≡◌, ◌≢◌, ◌⊎◌, ap, ap₂, sym, ◌∙◌, arith, inl, inr, true, false, not,
  ◌&&◌, ◌||◌, ltb, ◌==◌, some, [], ◌∷◌, ◌++◌, length, length-append, take, drop, take-append,
  drop-append_add, all, All-append,
}
use cidrella.Base.Text.{Text, includes, last_index_of, to_string, is_digit}
use cidrella.Base.Text.Splitting.{Lacks, last_index_of_at, includes-Lacks}
use cidrella.Base.Text.Radix.{parse_int-to_string, All-to_string, decimal_digit, to_string-ne-nil}
use cidrella.Address.{colon}
use cidrella.Address.Plain.{decimal-Lacks-colon, all_of_All, one-le-length}
use cidrella.Address.V4.{parse_ip-format_v4, format_v4-Lacks-colon, format_v4-ne-nil}
use cidrella.Address.RoundTrip.{parse_ip-format_v6, format_v6-ne-nil, NotMapped}
use cidrella.Cidr.{
  no_zone, BigAddress, address_to_big, big_to_address, network_text, slash, Network, build_network,
  fold_prefix, parse_at, parse_network,
}
use cidrella.Cidr.Wellformed.{IsBig}

decimal-Lacks-slash : (n : ℕ) → Lacks slash (to_string 10 n)
decimal-Lacks-slash n = All-to_string (λ c. c ≢ slash) 10 n (λ m. ground arith)

all_digits : (n : ℕ) → all is_digit (to_string 10 n) ≡ true
all_digits n = all_of_All is_digit _ (All-to_string (λ c. is_digit c ≡ true) 10 n decimal_digit)

abbrev as_big : ℕ → ℕ → ℕ → BigAddress
as_big value bits family = record { value = value; bits = bits; family = family }

read_v4 : (v : ℕ) → v < 2 ^ 32 → address_to_big (big_to_address v 4) ≡ some (as_big v 32 4)
unfolding address_to_big big_to_address
read_v4 v h = rw (parse_ip-format_v4 no_zone v h)

read_v6 :
    (v : ℕ)
    → v < 2 ^ 128
    → NotMapped v
    → address_to_big (big_to_address v 6) ≡ some (as_big v 128 6)
unfolding address_to_big big_to_address
read_v6 v h apart = rw (parse_ip-format_v6 no_zone v h (inr apart))

-- An address that is in range is read back from its text, as CIDR arithmetic reads it.
pub address_to_big-big_to_address :
    (a : BigAddress) → IsBig a → address_to_big (big_to_address a.value a.family) ≡ some a
address_to_big-big_to_address a h = elim h.families [
  | inl (four, bits) ↦
      ap (λ f. address_to_big (big_to_address a.value f)) four
      ∙ read_v4 a.value (rw bits at h.in_range)
      ∙ ap₂ (λ b f. some (as_big a.value b f)) (sym bits) (sym four)
  | inr (six, bits, apart) ↦
      ap (λ f. address_to_big (big_to_address a.value f)) six
      ∙ read_v6 a.value (rw bits at h.in_range) apart
      ∙ ap₂ (λ b f. some (as_big a.value b f)) (sym bits) (sym six)
]

address-ne-nil : (v family : ℕ) → (family ≡ 4) ⊎ (family ≡ 6) → big_to_address v family ≢ []
unfolding big_to_address
address-ne-nil v family (inl four) = rw four (format_v4-ne-nil v)
address-ne-nil v family (inr six) = rw six (format_v6-ne-nil v)

-- No IPv4 text is folded.
not_folded :
    (v family p : ℕ)
    → (family ≡ 4) ⊎ (family ≡ 6)
    → (family == 4 && includes colon (big_to_address v family ++ slash ∷ to_string 10 p)) ≡ false
unfolding big_to_address
not_folded v family p (inl four) = rw (
  four,
  includes-Lacks colon _ (
      All-append (λ c. c ≢ colon) _ (slash ∷ to_string 10 p) (format_v4-Lacks-colon v)
        (omega arith, decimal-Lacks-colon p)),
)
not_folded v family p (inr six) = rw six

module _ (address : Text) (p : ℕ) where
  abbrev text : Text
  text = address ++ slash ∷ to_string 10 p

  slash_at : last_index_of (slash ∷ []) text ≡ some (length address)
  slash_at = last_index_of_at slash address _ (decimal-Lacks-slash p)

  prefix_text : drop (suc (length address)) text ≡ to_string 10 p
  prefix_text =
      drop-append_add address (slash ∷ to_string 10 p) 1 (suc (length address)) (omega arith)

  address_text : take (length address) text ≡ address
  address_text = take-append address _

  inner : address ≢ [] → not (ltb (length address) 1 || length address == length text - 1) ≡ true
  inner ne = ground (
    arith,
    one-le-length address ne,
    one-le-length (to_string 10 p) (to_string-ne-nil 10 p),
    length-append address (slash ∷ to_string 10 p),
  )

  parse_at-text :
      (a : BigAddress)
      → address ≢ []
      → address_to_big address ≡ some a
      → (a.family == 4 && includes colon text) ≡ false
      → ltb a.bits p ≡ false
      → parse_at text (length address) ≡ some (build_network a p)
  unfolding parse_at fold_prefix
  parse_at-text a ne read plain small = rw (
    inner ne,
    prefix_text,
    all_digits p,
    address_text,
    read,
    plain,
    parse_int-to_string 10 p (omega arith),
    small,
  )

  parse_network-text : parse_network text ≡ parse_at text (length address)
  unfolding parse_network
  parse_network-text = rw slash_at

-- The text of an address in range with a prefix of at most its bits is parsed to the network of that
-- address and prefix.
pub parse_network-network_text :
    (a : BigAddress) (p : ℕ)
    → IsBig a
    → p ≤ a.bits
    → parse_network (network_text a.value a.family p) ≡ some (build_network a p)
unfolding network_text
parse_network-network_text a p h le =
    parse_network-text (big_to_address a.value a.family) p
    ∙ parse_at-text (big_to_address a.value a.family) p a (address-ne-nil a.value a.family families)
        (address_to_big-big_to_address a h) (not_folded a.value a.family p families) (ground arith)
  where
    families : (a.family ≡ 4) ⊎ (a.family ≡ 6)
    families = ground arith

-- The network that a parsed network's canonical text names.
abbrev pub base_of : Network → BigAddress
base_of n = record { value = n.network_big; bits = n.bits; family = n.family }
