-- ===== src/Cidr/Numbers.antt =====
-- The masks of `parseNetwork` as arithmetic: the network address is the address with its host bits
-- cleared, and the last address has them all set.
use cidrella.Base.{
  ℕ, zero, suc, ◌+◌, ◌-◌, ◌*◌, ◌/◌, ◌%◌, ◌^◌, ◌≤◌, ◌<◌, bit_and, bit_or, bit_xor, ◌≡◌, ap, ap₂, ◌∙◌,
  sym, subst, arith, ==_iff, Bool-cases, inl, inr, ◌==◌,
}
use native.Mathlib.Decide.{dec_le}
use native.Mathlib.Nat.{mul-le-mul_right, add-mul-mod_self_right, mod-eq_of_lt}
use cidrella.Base.Bits.{
  quotient_lt, pow_pos, pow_add, bit_and_low, bit_and_high, bit_or_low, bit_xor_mask,
}
use cidrella.Cidr.{all_ones, mask_of, network_of, last_of}

shifted_ones : (a b : ℕ) → 1 ≤ a → 1 ≤ b → (a * b - 1) * b % (a * b) ≡ (a - 1) * b
shifted_ones zero b h k = absurd (omega arith)
shifted_ones (suc a) zero h k = absurd (omega arith)
shifted_ones (suc a) (suc b) h k =
    ap (λ t. t % (suc a * suc b)) split
    ∙ add-mul-mod_self_right (a * suc b) b (suc a * suc b)
    ∙ mod-eq_of_lt (omega arith)
    ∙ ap (λ t. t * suc b) pred_suc
  where
    pred_suc : a ≡ suc a - 1
    pred_suc = omega arith

    ones : suc a * suc b - 1 ≡ a * suc b + b
    ones = omega arith

    split : (suc a * suc b - 1) * suc b ≡ a * suc b + b * (suc a * suc b)
    split = ap (λ t. t * suc b) ones ∙ omega arith

-- `p` prefix bits and `k` host bits.
module _ (p k : ℕ) where
  shifted_mask : bit_and (all_ones (p + k) * 2 ^ k) (all_ones (p + k)) ≡ (2 ^ p - 1) * 2 ^ k
  shifted_mask =
      bit_and_low (p + k) (all_ones (p + k) * 2 ^ k)
      ∙ rw (pow_add p k) (shifted_ones (2 ^ p) (2 ^ k) (pow_pos p) (pow_pos k))

  pub mask_of_lem : mask_of (p + k) p ≡ (2 ^ p - 1) * 2 ^ k
  unfolding mask_of
  mask_of_lem = elim (Bool-cases (p == 0)) [
    | inl none_fixed ↦ rw none_fixed (empty ((==_iff p 0).0 none_fixed))
    | inr some_fixed ↦ rw (some_fixed, host) shifted_mask
  ]
    where
      host : p + k - p ≡ k
      host = omega arith

      empty : p ≡ 0 → 0 ≡ (2 ^ p - 1) * 2 ^ k
      empty e = rw e (omega arith)

  -- The network address has the host bits cleared.
  pub network_of_lem : (v : ℕ) → v < 2 ^ (p + k) → network_of (p + k) p v ≡ v / 2 ^ k * 2 ^ k
  unfolding network_of
  network_of_lem v h =
      ap (bit_and v) mask_of_lem ∙ bit_and_high p k v (let e = pow_add p k in omega arith)

  host_mask : bit_xor (all_ones (p + k)) (mask_of (p + k) p) ≡ 2 ^ k - 1
  host_mask = ap₂ bit_xor (ap (λ t. t - 1) (pow_add p k)) mask_of_lem ∙ bit_xor_mask p k

  -- The last address has them all set.
  pub last_of_lem :
      (v : ℕ) → v < 2 ^ (p + k) → last_of (p + k) p v ≡ v / 2 ^ k * 2 ^ k + (2 ^ k - 1)
  unfolding last_of
  last_of_lem v h =
      ap₂ bit_or (network_of_lem v h) host_mask
      ∙ bit_or_low k (v / 2 ^ k) (2 ^ k - 1) (omega (arith, pow_pos k))

-- The same for a prefix of any length up to the address's.
module _ (b p v : ℕ) (le : p ≤ b) (h : v < 2 ^ b) where
  split_bits : p + (b - p) ≡ b
  split_bits = omega arith

  pub network_of_le : network_of b p v ≡ v / 2 ^ (b - p) * 2 ^ (b - p)
  network_of_le =
      subst (λ t. v < 2 ^ t → network_of t p v ≡ v / 2 ^ (b - p) * 2 ^ (b - p)) split_bits
        (network_of_lem p (b - p) v) h

  pub last_of_le : last_of b p v ≡ v / 2 ^ (b - p) * 2 ^ (b - p) + (2 ^ (b - p) - 1)
  last_of_le =
      subst (λ t. v < 2 ^ t → last_of t p v ≡ v / 2 ^ (b - p) * 2 ^ (b - p) + (2 ^ (b - p) - 1))
        split_bits (last_of_lem p (b - p) v) h

  -- Only whole blocks lie below `2 ^ b`.
  pub block_below : (v / 2 ^ (b - p) + 1) * 2 ^ (b - p) ≤ 2 ^ b
  block_below =
      let e : 2 ^ b ≡ 2 ^ p * 2 ^ (b - p) = ap (λ t. 2 ^ t) (sym split_bits) ∙ pow_add p (b - p) in
      let q : v / 2 ^ (b - p) < 2 ^ p =
        quotient_lt (2 ^ (b - p)) (2 ^ p) v (pow_pos (b - p)) (omega arith) in
      rw e
        (mul-le-mul_right (2 ^ (b - p)) (let q' : v / 2 ^ (b - p) + 1 ≤ 2 ^ p = omega arith in q'))

-- A block of `p` addresses, aligned, that begins before an aligned bound ends before it.
pub aligned_before : (q m p : ℕ) → q * p < m * p → q * p + p ≤ m * p
aligned_before q m p h = elim (dec_le (suc q) m) [
  | yes le ↦ omega (arith, mul-le-mul_right p le)
  | no gt ↦ let past : m ≤ q = omega arith in absurd (omega (arith, mul-le-mul_right p past))
]
