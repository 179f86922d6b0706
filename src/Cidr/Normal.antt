-- ===== src/Cidr/Normal.antt =====
-- `normalizeNetwork`: the canonical text of a network names the same network.
use cidrella.Base.{
  ℕ, ◌+◌, ◌-◌, ◌*◌, ◌/◌, ◌^◌, ◌≤◌, ◌<◌, ◌≡◌, ◌⊎◌, refl, ap, sym, ◌∙◌, subst, arith, inl, inr,
  bit_or, bit_xor, some, some-inj, >>=-eq-some,
}
use native.Mathlib.Decide.{dec_le}
use native.Mathlib.Nat.{mul-div_cancel, div-mul-le_self, lt-div-mul-add}
use cidrella.Base.Bits.{pow_pos, pow_add}
use cidrella.Base.Text.{Text}
use cidrella.Address.RoundTrip.{NotMapped}
use cidrella.Cidr.{
  BigAddress, Network, all_ones, mask_of, network_of, last_of, network_text, build_network,
  parse_network, normalize_network,
}
use cidrella.Cidr.Numbers.{network_of_le, aligned_before}
use cidrella.Cidr.Wellformed.{IsBig, parse_network-IsParsed}
use cidrella.Cidr.RoundTrip.{parse_network-network_text}

-- An aligned block of at most 2 ^ 32 addresses that begins in the mapped range stays in it.
mapped_small :
    (k q v : ℕ)
    → k ≤ 32
    → q * 2 ^ k ≤ v
    → v < q * 2 ^ k + 2 ^ k
    → NotMapped v
    → NotMapped (q * 2 ^ k)
mapped_small k q v le low high (inl below) = inl (omega arith)
mapped_small k q v le low high (inr above) = elim (dec_le (2 ^ 48) (q * 2 ^ k)) [
  | yes far ↦ inr (omega arith)
  | no near ↦ absurd (omega (arith, ends (omega arith)))
]
  where
    bound : 65536 * 2 ^ (32 - k) * 2 ^ k ≡ 2 ^ 48
    bound =
        let e : 2 ^ ((32 - k) + k) ≡ 2 ^ 32 =
          ap (λ t. 2 ^ t) {x = (32 - k) + k} {y = 32} (omega arith) in
        omega (arith, e, pow_add (32 - k) k)

    ends : q * 2 ^ k < 2 ^ 48 → q * 2 ^ k + 2 ^ k ≤ 2 ^ 48
    ends lt =
        let before = aligned_before q (65536 * 2 ^ (32 - k)) (2 ^ k) (omega (arith, bound)) in
        omega (arith, before, bound)

-- A larger one does not begin in it.
mapped_large : (k q : ℕ) → 33 ≤ k → NotMapped (q * 2 ^ k)
mapped_large k q h = elim (dec_le (2 ^ 48) (q * 2 ^ k)) [
  | yes far ↦ inr (omega arith)
  | no near ↦ inl (omega (arith, multiple))
]
  where
    multiple : q * 2 ^ k ≡ q * 2 ^ (k - 33) * 2 ^ 33
    multiple =
        let e : 2 ^ k ≡ 2 ^ (k - 33) * 2 ^ 33 =
          ap (λ t. 2 ^ t) {x = k} {y = (k - 33) + 33} (omega arith) ∙ pow_add (k - 33) 33 in
        omega (arith, ap (λ t. q * t) e)

pub block-NotMapped :
    (k q v : ℕ) → q * 2 ^ k ≤ v → v < q * 2 ^ k + 2 ^ k → NotMapped v → NotMapped (q * 2 ^ k)
block-NotMapped k q v low high h = elim (dec_le k 32) [
  | yes small ↦ mapped_small k q v small low high h
  | no large ↦ mapped_large k q (omega arith)
]

module _ (a : BigAddress) (p : ℕ) (h : IsBig a) (le : p ≤ a.bits) where
  -- The network address of an address.
  abbrev pub start_of : BigAddress
  start_of = record a { value = network_of a.bits p a.value }

  aligned_start : network_of a.bits p a.value ≡ a.value / 2 ^ (a.bits - p) * 2 ^ (a.bits - p)
  aligned_start = network_of_le a.bits p a.value le h.in_range

  start_low : a.value / 2 ^ (a.bits - p) * 2 ^ (a.bits - p) ≤ a.value
  start_low = div-mul-le_self a.value (2 ^ (a.bits - p))

  start_high : a.value < a.value / 2 ^ (a.bits - p) * 2 ^ (a.bits - p) + 2 ^ (a.bits - p)
  start_high = lt-div-mul-add (pow_pos (a.bits - p))

  start_in_range : network_of a.bits p a.value < 2 ^ a.bits
  start_in_range = omega (arith, aligned_start, start_low, h.in_range)

  pub start-IsBig : IsBig start_of
  start-IsBig = record { in_range = start_in_range; families = families h.families }
    where
      families :
          ((a.family ≡ 4) × (a.bits ≡ 32)) ⊎ ((a.family ≡ 6) × (a.bits ≡ 128) × NotMapped a.value)
          → ((a.family ≡ 4) × (a.bits ≡ 32))
            ⊎ ((a.family ≡ 6) × (a.bits ≡ 128) × NotMapped (network_of a.bits p a.value))
      families (inl four) = inl four
      families (inr (six, bits, apart)) = inr (
        six,
        bits,
        subst NotMapped (sym aligned_start)
            (block-NotMapped (a.bits - p) _ a.value start_low start_high apart),
      )

  -- Clearing the host bits again changes nothing.
  network_of_idem : network_of a.bits p (network_of a.bits p a.value) ≡ network_of a.bits p a.value
  network_of_idem =
      network_of_le a.bits p _ le start_in_range
      ∙ ap (λ t. t / 2 ^ (a.bits - p) * 2 ^ (a.bits - p)) aligned_start
      ∙ ap (λ t. t * 2 ^ (a.bits - p))
          (mul-div_cancel (a.value / 2 ^ (a.bits - p)) (pow_pos (a.bits - p)))
      ∙ sym aligned_start

  last_of_idem : last_of a.bits p (network_of a.bits p a.value) ≡ last_of a.bits p a.value
  unfolding last_of
  last_of_idem = ap (λ t. bit_or t (bit_xor (all_ones a.bits) (mask_of a.bits p))) network_of_idem

  build_network_idem : build_network start_of p ≡ build_network a p
  unfolding build_network
  build_network_idem = rw (last_of_idem, network_of_idem)

  build_network-cidr :
      (build_network a p).cidr ≡ network_text (network_of a.bits p a.value) a.family p
  unfolding build_network
  build_network-cidr = refl

  parse_network-cidr_of : parse_network (build_network a p).cidr ≡ some (build_network a p)
  parse_network-cidr_of =
      ap parse_network build_network-cidr
      ∙ parse_network-network_text start_of p start-IsBig le
      ∙ ap some build_network_idem

-- The canonical text of a parsed network is parsed to that same network, in every field.
pub parse_network-cidr :
    (s : Text) (n : Network) → parse_network s ≡ some n → parse_network n.cidr ≡ some n
parse_network-cidr s n h =
    let p = parse_network-IsParsed s n h in
    subst (λ (m : Network). parse_network m.cidr ≡ some m) p.built
      (parse_network-cidr_of p.address p.prefix p.big p.le)

normalize_inv :
    (s t : Text)
    → normalize_network s ≡ some t
    → (n : Network) × (parse_network s ≡ some n) × (some n.cidr ≡ some t)
unfolding normalize_network
normalize_inv s t h = >>=-eq-some (parse_network s) _ h

normalize_of :
    (s : Text) (n : Network) → parse_network s ≡ some n → normalize_network s ≡ some n.cidr
unfolding normalize_network
normalize_of s n h = rw h

-- A normalized network is its own normal form.
pub normalize_network_idem :
    (s t : Text) → normalize_network s ≡ some t → normalize_network t ≡ some t
normalize_network_idem s t h =
    let (n, parsed, same) = normalize_inv s t h in
    subst (λ u. normalize_network u ≡ some u) (some-inj same)
      (normalize_of n.cidr n (parse_network-cidr s n parsed))
