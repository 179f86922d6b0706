-- ===== src/Allowlist/Canonical.antt =====
-- The canonical text of an allowlist entry: one text for each network.
use cidrella.Base.{
  ℕ, ◌-◌, ◌*◌, ◌/◌, ◌^◌, ◌≤◌, ◌<◌, ◌≡◌, ◌≢◌, ◌↔◌, ◌⊎◌, bit_and, refl, ap, sym, ◌∙◌, subst, arith,
  inl, inr, true, false, none, some, [], ◌∷◌, ◌++◌, some-inj, All, All-append,
}
use native.Mathlib.Nat.{mul-div_cancel, div-mul-le_self}
use cidrella.Base.Bits.{pow_pos}
use cidrella.Base.Text.{Text, split, trim, join, is_space, to_string, is_digit}
use cidrella.Base.Text.Splitting.{Lacks, split-join}
use cidrella.Base.Text.Trimming.{NoSpace, trim-NoSpace}
use cidrella.Base.Text.Radix.{
  parse_int-to_string, All-to_string, decimal_digit, length-to_string-le, to_string-ne-nil,
}
use cidrella.Address.{ParsedIp, parse_ip, ipv4_bits, ipv6_bits}
use cidrella.Address.Plain.{all_of_All, one-le-length}
use cidrella.Address.Format.{format_ip}
use cidrella.Address.Characters.{All-format_ip}
use cidrella.Address.V4.{parse_ip-format_v4}
use cidrella.Address.RoundTrip.{parse_ip-format_v6}
use cidrella.Cidr.{slash}
use cidrella.Allowlist.{
  strict, CidrEntry, entry_mask, build_entry, read_prefix, parse_segments, parse_cidr_entry,
  format_cidr_entry, canonicalize_ip_or_cidr,
}
use cidrella.Allowlist.Matching.{parse_cidr_entry-IsEntry, masked}

-- Neither space nor slash.
abbrev IsPart : ℕ → Type 0
IsPart c = (is_space c ≡ false) × (c ≢ slash)

address-IsPart : (v bits : ℕ) → All IsPart (format_ip v bits)
unfolding is_space
address-IsPart v bits =
    All-format_ip IsPart (refl, omega arith) (refl, omega arith) (λ n. ground arith)
      (λ n. ground arith) v bits

prefix-IsPart : (n : ℕ) → All IsPart (to_string 10 n)
unfolding is_space
prefix-IsPart n = All-to_string IsPart 10 n (λ m. ground arith)

part-NoSpace : (s : Text) → All IsPart s → NoSpace s
part-NoSpace [] h = tt
part-NoSpace (c ∷ s) (p, h) = (p.0, part-NoSpace s h)

part-Lacks : (s : Text) → All IsPart s → Lacks slash s
part-Lacks [] h = tt
part-Lacks (c ∷ s) (p, h) = (p.1, part-Lacks s h)

-- Two parts at a slash are the segments of the text.
segments_of :
    (a b : Text) → All IsPart a → All IsPart b → split slash (trim (a ++ slash ∷ b)) ≡ a ∷ b ∷ []
unfolding is_space join
segments_of a b ha hb =
    ap (split slash) (
      trim-NoSpace (a ++ slash ∷ b) (
        All-append (λ c. is_space c ≡ false) a (slash ∷ b) (part-NoSpace a ha)
          (refl, part-NoSpace b hb)))
    ∙ split-join slash (a ∷ b ∷ []) (λ e. cc) (part-Lacks a ha, (part-Lacks b hb, tt))

read_prefix-to_string :
    (bits prefix : ℕ)
    → prefix ≤ bits
    → bits ≤ 128
    → read_prefix (to_string 10 prefix) bits ≡ some prefix
unfolding read_prefix
read_prefix-to_string bits prefix le small =
    rw
      (
        parse_int-to_string 10 prefix (omega arith, omega arith),
        all_of_All is_digit (to_string 10 prefix)
            (All-to_string (λ c. is_digit c ≡ true) 10 prefix decimal_digit),
      )
      (ground (
        arith,
        one-le-length (to_string 10 prefix) (to_string-ne-nil 10 prefix),
        length-to_string-le 2 10 prefix (omega arith, omega arith) (omega arith),
      ))

abbrev plain_ip : ℕ → ℕ → ParsedIp
plain_ip v bits = record { value = v; bits = bits; zone_id = none }

strict-format_ip :
    (v bits : ℕ)
    → (bits ≡ ipv4_bits) ⊎ (bits ≡ ipv6_bits)
    → v < 2 ^ bits
    → parse_ip strict (format_ip v bits) ≡ some (plain_ip v bits)
strict-format_ip v bits (inl four) h =
    rw four (parse_ip-format_v4 strict v (subst (λ b. v < 2 ^ b) four h))
strict-format_ip v bits (inr six) h =
    rw six (parse_ip-format_v6 strict v (subst (λ b. v < 2 ^ b) six h) (inl refl))

module _ (p : ParsedIp) (prefix : ℕ) (le : prefix ≤ p.bits) (h : p.value < 2 ^ p.bits)
    (families : (p.bits ≡ ipv4_bits) ⊎ (p.bits ≡ ipv6_bits)) where
  network-lt : bit_and p.value (entry_mask p.bits prefix) < 2 ^ p.bits
  network-lt =
      omega
        (arith, masked p.bits prefix p.value le h, div-mul-le_self p.value (2 ^ (p.bits - prefix)))

  masked_idem :
      bit_and (bit_and p.value (entry_mask p.bits prefix)) (entry_mask p.bits prefix)
      ≡ bit_and p.value (entry_mask p.bits prefix)
  masked_idem =
      masked p.bits prefix _ le network-lt
      ∙ ap (λ t. t / 2 ^ (p.bits - prefix) * 2 ^ (p.bits - prefix))
          (masked p.bits prefix p.value le h)
      ∙ ap (λ t. t * 2 ^ (p.bits - prefix))
          (mul-div_cancel (p.value / 2 ^ (p.bits - prefix)) (pow_pos (p.bits - prefix)))
      ∙ sym (masked p.bits prefix p.value le h)

  segments-built :
      parse_segments
        (format_ip (bit_and p.value (entry_mask p.bits prefix)) p.bits ∷ to_string 10 prefix ∷ [])
      ≡ some (build_entry p prefix)
  unfolding parse_segments build_entry
  segments-built =
      rw
        (
          strict-format_ip _ p.bits families network-lt,
          read_prefix-to_string p.bits prefix le (ground arith),
          masked_idem,
        )
        (refl)

  parse_cidr_entry-built :
      parse_cidr_entry (format_cidr_entry (build_entry p prefix)) ≡ some (build_entry p prefix)
  unfolding parse_cidr_entry format_cidr_entry build_entry
  parse_cidr_entry-built =
      ap parse_segments (
        segments_of (format_ip (bit_and p.value (entry_mask p.bits prefix)) p.bits)
          (to_string 10 prefix) (address-IsPart _ p.bits) (prefix-IsPart prefix))
      ∙ segments-built

-- The canonical text of an entry that was parsed is parsed to that entry.
pub parse_cidr_entry-format_cidr_entry :
    (s : Text) (e : CidrEntry)
    → parse_cidr_entry s ≡ some e
    → parse_cidr_entry (format_cidr_entry e) ≡ some e
parse_cidr_entry-format_cidr_entry s e h =
    let m = parse_cidr_entry-IsEntry s e h in
    subst (λ x. parse_cidr_entry (format_cidr_entry x) ≡ some x) m.built
      (parse_cidr_entry-built m.address m.prefix m.le m.in_range m.families)

canonicalize_of :
    (s : Text) (e : CidrEntry)
    → parse_cidr_entry s ≡ some e
    → canonicalize_ip_or_cidr s ≡ some (format_cidr_entry e)
unfolding canonicalize_ip_or_cidr
canonicalize_of s e h = rw h

-- Two texts of entries have one canonical text exactly when they are the same entry: the same
-- family, network and prefix length.
pub canonicalize_ip_or_cidr-eq_iff :
    (s t : Text) (d e : CidrEntry)
    → parse_cidr_entry s ≡ some d
    → parse_cidr_entry t ≡ some e
    → (canonicalize_ip_or_cidr s ≡ canonicalize_ip_or_cidr t) ↔ (d ≡ e)
canonicalize_ip_or_cidr-eq_iff s t d e hd he = (to, from)
  where
    to : canonicalize_ip_or_cidr s ≡ canonicalize_ip_or_cidr t → d ≡ e
    to same =
        let texts : format_cidr_entry d ≡ format_cidr_entry e =
          some-inj (sym (canonicalize_of s d hd) ∙ same ∙ canonicalize_of t e he) in
        some-inj (
          sym (parse_cidr_entry-format_cidr_entry s d hd)
          ∙ ap parse_cidr_entry texts
          ∙ parse_cidr_entry-format_cidr_entry t e he)

    from : d ≡ e → canonicalize_ip_or_cidr s ≡ canonicalize_ip_or_cidr t
    from same =
        canonicalize_of s d hd
        ∙ ap (λ x. some (format_cidr_entry x)) same
        ∙ sym (canonicalize_of t e he)
