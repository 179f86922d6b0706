-- ===== src/Allowlist/Matching.antt =====
-- What an allowlist entry matches.
use cidrella.Base.{
  ℕ, ◌+◌, ◌-◌, ◌*◌, ◌/◌, ◌^◌, ◌≤◌, ◌<◌, ◌≡◌, ◌↔◌, ◌⊎◌, bit_and, bit_xor, refl, ap, ◌∙◌, subst,
  arith, inl, inr, true, false, not, some, List, [], ◌∷◌, ◌==◌, if◌then◌else◌, >>=-eq-some,
  some-inj, none-ne-some, Bool-cases, trichotomy, All, All,
}
use native.Mathlib.Nat.{div-mul-le_self, lt-div-mul-add}
use cidrella.Cidr.Numbers.{aligned_before}
use cidrella.Base.Bits.{pow_pos, pow_add, bit_and_high, bit_xor_host}
use cidrella.Base.Text.{Text, split, trim}
use cidrella.Address.{ParsedIp, parse_ip, ipv4_bits, ipv6_bits}
use cidrella.Address.Bounds.{parse_ip-IsAddress}
use cidrella.Cidr.{slash}
use cidrella.Allowlist.{
  strict, CidrEntry, entry_mask, build_entry, read_prefix, parse_segments, parse_cidr_entry,
  ip_matches_entry, ip_in_any,
}

-- Where an entry comes from.
pub record IsEntry (e : CidrEntry) : Type 0 where
  pub address : ParsedIp
  pub prefix : ℕ
  pub in_range : address.value < 2 ^ address.bits
  pub families : (address.bits ≡ ipv4_bits) ⊎ (address.bits ≡ ipv6_bits)
  pub le : prefix ≤ address.bits
  pub built : build_entry address prefix ≡ e

pub strict_range : (s : Text) (p : ParsedIp) → parse_ip strict s ≡ some p → p.value < 2 ^ p.bits
strict_range s p h = let a = parse_ip-IsAddress strict s p h in ground arith

strict_families :
    (s : Text) (p : ParsedIp)
    → parse_ip strict s ≡ some p
    → (p.bits ≡ ipv4_bits) ⊎ (p.bits ≡ ipv6_bits)
strict_families s p h = let a = parse_ip-IsAddress strict s p h in ground arith

read_prefix-le : (s : Text) (bits prefix : ℕ) → read_prefix s bits ≡ some prefix → prefix ≤ bits
unfolding read_prefix
read_prefix-le s bits prefix h = ground arith

IsEntry-build_entry :
    (s : Text) (p : ParsedIp) (prefix : ℕ)
    → parse_ip strict s ≡ some p
    → prefix ≤ p.bits
    → IsEntry (build_entry p prefix)
IsEntry-build_entry s p prefix h le = record {
  address = p;
  prefix = prefix;
  in_range = strict_range s p h;
  families = strict_families s p h;
  le = le;
  built = refl;
}

parse_segments-IsEntry :
    (segs : List Text) (e : CidrEntry) → parse_segments segs ≡ some e → IsEntry e
unfolding parse_segments
parse_segments-IsEntry [] e h = none-ne-some h
parse_segments-IsEntry (a ∷ []) e h =
    let (p, parsed, built) = >>=-eq-some (parse_ip strict a) _ h in
    subst IsEntry (some-inj built) (IsEntry-build_entry a p p.bits parsed (omega arith))
parse_segments-IsEntry (a ∷ (b ∷ [])) e h =
    let (p, parsed, h1) = >>=-eq-some (parse_ip strict a) _ h in
    let (prefix, read, built) = >>=-eq-some (read_prefix b p.bits) _ h1 in
    subst IsEntry (some-inj built)
      (IsEntry-build_entry a p prefix parsed (read_prefix-le b p.bits prefix read))
parse_segments-IsEntry (a ∷ (b ∷ (c ∷ rest))) e h = none-ne-some h

pub parse_cidr_entry-IsEntry : (s : Text) (e : CidrEntry) → parse_cidr_entry s ≡ some e → IsEntry e
unfolding parse_cidr_entry
parse_cidr_entry-IsEntry s e h = parse_segments-IsEntry (split slash (trim s)) e h

-- The mask clears the host bits.
module _ (bits prefix v : ℕ) (le : prefix ≤ bits) (h : v < 2 ^ bits) where
  whole_bits : 2 ^ bits ≡ 2 ^ prefix * 2 ^ (bits - prefix)
  whole_bits =
      ap (λ t. 2 ^ t) {x = bits} {y = prefix + (bits - prefix)} (omega arith)
      ∙ pow_add prefix (bits - prefix)

  pub masked : bit_and v (entry_mask bits prefix) ≡ v / 2 ^ (bits - prefix) * 2 ^ (bits - prefix)
  unfolding entry_mask
  masked =
      ap (bit_and v) (
        ap (λ t. bit_xor (t - 1) (2 ^ (bits - prefix) - 1)) whole_bits
        ∙ bit_xor_host prefix (bits - prefix))
      ∙ bit_and_high prefix (bits - prefix) v (omega (arith, whole_bits))

-- The multiple of `m` below a number tells in which block of `m` it lies.
pub block_iff : (m q v : ℕ) → 1 ≤ m → (v / m * m ≡ q * m) ↔ ((q * m ≤ v) × (v < q * m + m))
block_iff m q v h = (to, from)
  where
    to : v / m * m ≡ q * m → (q * m ≤ v) × (v < q * m + m)
    to e =
        let low = div-mul-le_self v m in
        let high : v < v / m * m + m = lt-div-mul-add h in (omega arith, omega arith)

    from : (q * m ≤ v) × (v < q * m + m) → v / m * m ≡ q * m
    from (low, high) =
        let low' = div-mul-le_self v m in
        let high' : v < v / m * m + m = lt-div-mul-add h in
        elim (trichotomy (v / m * m) (q * m)) [
          | inl before ↦ absurd (omega (arith, aligned_before (v / m) q m before))
          | inr (inl same) ↦ same
          | inr (inr after) ↦ absurd (omega (arith, aligned_before q (v / m) m after))
        ]

same_block :
    (bits prefix v w : ℕ)
    → prefix ≤ bits
    → v < 2 ^ bits
    → w < 2 ^ bits
    → (bit_and w (entry_mask bits prefix) ≡ bit_and v (entry_mask bits prefix)) ↔ (
        (bit_and v (entry_mask bits prefix) ≤ w)
        × (w < bit_and v (entry_mask bits prefix) + 2 ^ (bits - prefix)))
same_block bits prefix v w le hv hw =
    rw (masked bits prefix v le hv, masked bits prefix w le hw)
      (block_iff (2 ^ (bits - prefix)) (v / 2 ^ (bits - prefix)) w (pow_pos (bits - prefix)))

-- The addresses of an entry.
abbrev pub InEntry : CidrEntry → ParsedIp → Type 0
InEntry e p =
    (p.bits ≡ e.bits) × (e.network ≤ p.value) × (p.value < e.network + 2 ^ (e.bits - e.prefix))

match_built :
    (ip : Text) (p q : ParsedIp) (prefix : ℕ)
    → parse_ip strict ip ≡ some p
    → p.value < 2 ^ p.bits
    → q.value < 2 ^ q.bits
    → prefix ≤ q.bits
    → (ip_matches_entry ip (build_entry q prefix) ≡ true) ↔ InEntry (build_entry q prefix) p
unfolding ip_matches_entry build_entry
match_built ip p q prefix h hp hq le = rw h (to, from)
  where
    block :
        p.bits ≡ q.bits
        → (bit_and p.value (entry_mask q.bits prefix) ≡ bit_and q.value (entry_mask q.bits prefix))
          ↔ ((bit_and q.value (entry_mask q.bits prefix) ≤ p.value)
              × (p.value < bit_and q.value (entry_mask q.bits prefix) + 2 ^ (q.bits - prefix)))
    block e = same_block q.bits prefix q.value p.value le hq (subst (λ b. p.value < 2 ^ b) e hp)

    to :
        (if not (p.bits == q.bits)
            then false
            else bit_and p.value (entry_mask q.bits prefix)
              == bit_and q.value (entry_mask q.bits prefix))
          ≡ true
        → InEntry (build_entry q prefix) p
    to t = ground (arith, block)

    from :
        InEntry (build_entry q prefix) p
        → (if not (p.bits == q.bits)
            then false
            else bit_and p.value (entry_mask q.bits prefix)
              == bit_and q.value (entry_mask q.bits prefix))
          ≡ true
    from (same, low, high) = ground (arith, (block same).1 (low, high))

-- An address text matches an entry that was parsed exactly when it is of the entry's family and lies
-- in the block of addresses that starts at the entry's network and has the entry's prefix.
pub ip_matches_entry_iff :
    (ip s : Text) (p : ParsedIp) (e : CidrEntry)
    → parse_ip strict ip ≡ some p
    → parse_cidr_entry s ≡ some e
    → (ip_matches_entry ip e ≡ true) ↔ InEntry e p
ip_matches_entry_iff ip s p e hp he =
    let m = parse_cidr_entry-IsEntry s e he in
    subst (λ x. (ip_matches_entry ip x ≡ true) ↔ InEntry x p) m.built
      (match_built ip p m.address m.prefix hp (strict_range ip p hp) m.in_range m.le)

-- An address text is in none of a list of entries exactly when it matches none of them.
pub ip_in_any-false_iff :
    (ip : Text) (entries : List CidrEntry)
    → (ip_in_any ip entries ≡ false) ↔ All (λ e. ip_matches_entry ip e ≡ false) entries
unfolding ip_in_any
ip_in_any-false_iff ip [] = (λ h. tt, λ h. refl)
ip_in_any-false_iff ip (e ∷ entries) =
    let (to, from) = ip_in_any-false_iff ip entries in
    elim (Bool-cases (ip_matches_entry ip e)) [
      | inl hit ↦ rw hit (λ h. absurd (cc), λ h. absurd (let m = h.0 in cc))
      | inr miss ↦ rw miss (λ h. (refl, to h), λ h. from h.1)
    ]
