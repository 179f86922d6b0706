-- ===== src/Base/Bits.antt =====
-- `&`, `|` and `^` on BigInts, as arithmetic: a mask keeps the high part of a number, a low mask
-- its remainder, and disjoint fields are joined by a sum.
pub mod Lowest
use Prim.Native.Nat.{ℕ, zero, suc, ◌+◌, ◌-◌, ◌*◌, ◌/◌, ◌%◌, ◌^◌, ◌≤◌, ◌<◌, min, max}
use Prim.Native.Nat.{
  bit_and, bit_or, bit_xor, digits, bitwise, differ, bit_and-bitwise, bit_or-bitwise,
  bit_xor-bitwise,
}
use mathlib.Core.Path.{◌≡◌, refl, ap, ap₂, ◌∙◌}
use native.Mathlib.Nat.{le_refl, pow-suc, one-le-pow}
use native.Mathlib.Omega.{arith}
use cidrella.Base.Bits.Lowest.{halving, bit_and_step, bit_or_step, bit_xor_step}

bit_and-zero : (a : ℕ) → bit_and a 0 ≡ 0
bit_and-zero =
    halving (λ a. bit_and a 0 ≡ 0) refl (λ n half. omega (arith, bit_and_step (suc n) 0, half))

bit_or-zero : (a : ℕ) → bit_or a 0 ≡ a
bit_or-zero =
    halving (λ a. bit_or a 0 ≡ a) refl (λ n half. omega (arith, bit_or_step (suc n) 0, half))

pub pow_pos : (k : ℕ) → 1 ≤ 2 ^ k
pow_pos k = one-le-pow k 2 (omega arith)

pub pow_double : (k : ℕ) → 2 ^ suc k ≡ 2 * 2 ^ k
pow_double k = omega (arith, pow-suc 2 k)

mul-pow-suc : (q k : ℕ) → q * 2 ^ suc k ≡ 2 * (q * 2 ^ k)
mul-pow-suc q k = omega (arith, ap (λ (t : ℕ). q * t) (pow-suc 2 k))

bit_and_low_fields : (k q r : ℕ) → r < 2 ^ k → bit_and (q * 2 ^ k + r) (2 ^ k - 1) ≡ r
bit_and_low_fields zero q r h = omega (arith, bit_and-zero (q * 2 ^ 0 + r))
bit_and_low_fields (suc k) q r h = ground (
  arith,
  pow_double k,
  bit_and_low_fields k q (r / 2) (omega (arith, pow_double k)),
  mul-pow-suc q k,
  bit_and_step (q * 2 ^ suc k + r) (2 ^ suc k - 1),
)

-- A mask of `k` low bits is the remainder by `2 ^ k`.
pub bit_and_low : (k a : ℕ) → bit_and a (2 ^ k - 1) ≡ a % 2 ^ k
bit_and_low k a = ground (arith, pow_pos k, bit_and_low_fields k (a / 2 ^ k) (a % 2 ^ k))

-- Ones above `k` zeros keep the high field.
bit_and_high_fields :
    (p k q r : ℕ)
    → q < 2 ^ p
    → r < 2 ^ k
    → bit_and (q * 2 ^ k + r) ((2 ^ p - 1) * 2 ^ k) ≡ q * 2 ^ k
bit_and_high_fields p zero q r hq hr =
    ap₂ bit_and e (omega arith) ∙ bit_and_low_fields p 0 q hq ∙ omega arith
  where
    e : q * 2 ^ 0 + r ≡ 0 * 2 ^ p + q
    e = omega arith
bit_and_high_fields p (suc k) q r hq hr = ground (
  arith,
  bit_and_step (q * 2 ^ suc k + r) ((2 ^ p - 1) * 2 ^ suc k),
  mul-pow-suc q k,
  mul-pow-suc (2 ^ p - 1) k,
  pow_double k,
  bit_and_high_fields p k q (r / 2) hq (omega (arith, pow_double k)),
)

pub quotient_lt : (m n a : ℕ) → 1 ≤ m → a < n * m → a / m < n
quotient_lt m n a p h = grind arith

-- A mask of `p` ones above `k` zeros clears the `k` low bits of a number of `p + k` bits.
pub bit_and_high :
    (p k a : ℕ) → a < 2 ^ p * 2 ^ k → bit_and a ((2 ^ p - 1) * 2 ^ k) ≡ a / 2 ^ k * 2 ^ k
bit_and_high p k a h = ground (
  arith,
  pow_pos k,
  bit_and_high_fields p k (a / 2 ^ k) (a % 2 ^ k) (quotient_lt (2 ^ k) (2 ^ p) a (pow_pos k) h),
)

pub bit_or_low : (k q r : ℕ) → r < 2 ^ k → bit_or (q * 2 ^ k) r ≡ q * 2 ^ k + r
bit_or_low zero q r h = ground (arith, bit_or-zero q)
bit_or_low (suc k) q r h = ground (
  arith,
  bit_or_low k q (r / 2) (omega (arith, pow_double k)),
  mul-pow-suc q k,
  bit_or_step (q * 2 ^ suc k) r,
)

differ_self : (a : ℕ) → differ a a ≡ 0
differ_self zero = refl
differ_self (suc a) = differ_self a

differ_of_eq : (a b x y : ℕ) → a ≡ x → b ≡ y → differ a b ≡ differ x y
differ_of_eq a b x y p q = ap₂ differ p q

bit_xor_self : (a : ℕ) → bit_xor a a ≡ 0
bit_xor_self =
    halving (λ a. bit_xor a a ≡ 0) refl
      (λ n half. omega (arith, bit_xor_step (suc n) (suc n), differ_self (suc n % 2), half))

digit_of : (n : ℕ) → differ n 0 ≡ n
digit_of zero = refl
digit_of (suc n) = refl

bit_xor-zero : (a : ℕ) → bit_xor a 0 ≡ a
bit_xor-zero =
    halving (λ a. bit_xor a 0 ≡ a) refl
      (λ n half. omega (arith, bit_xor_step (suc n) 0, digit_of (suc n % 2), half))

-- `x = 2m + 1` and `y = 2n` or `2n + 1`, one binary digit of the complement.
bit_xor_odd_even : (x y m n : ℕ) → x ≡ 2 * m + 1 → y ≡ 2 * n → bit_xor x y ≡ bit_xor m n * 2 + 1
bit_xor_odd_even x y m n p q =
    bit_xor_step x y
    ∙ ap₂ (λ u v. u * 2 + v) (ap₂ bit_xor (omega arith) (omega arith))
        (differ_of_eq (x % 2) (y % 2) 1 0 (omega arith) (omega arith))

bit_xor_odd_odd : (x y m n : ℕ) → x ≡ 2 * m + 1 → y ≡ 2 * n + 1 → bit_xor x y ≡ bit_xor m n * 2
bit_xor_odd_odd x y m n p q = omega (
  arith,
  bit_xor_step x y,
  ap₂ bit_xor {x = x / 2} {y = m} {u = y / 2} {v = n} (omega arith) (omega arith),
  differ_of_eq (x % 2) (y % 2) 1 1 (omega arith) (omega arith),
)

module _ (p : ℕ) where
  full_pos : (k : ℕ) → 1 ≤ 2 ^ p * 2 ^ k
  full_pos k = let a = pow_pos p in let b = pow_pos k in grind arith

  -- The complement of a network mask is the host mask.
  pub bit_xor_mask : (k : ℕ) → bit_xor (2 ^ p * 2 ^ k - 1) ((2 ^ p - 1) * 2 ^ k) ≡ 2 ^ k - 1
  bit_xor_mask zero = ap₂ bit_xor e (omega arith) ∙ bit_xor_self (2 ^ p - 1) ∙ omega arith
    where
      e : 2 ^ p * 2 ^ 0 - 1 ≡ 2 ^ p - 1
      e = omega arith
  bit_xor_mask (suc k) =
      bit_xor_odd_even _ _ (2 ^ p * 2 ^ k - 1) ((2 ^ p - 1) * 2 ^ k)
        (omega (arith, full_pos k, mul-pow-suc (2 ^ p) k)) (mul-pow-suc (2 ^ p - 1) k)
      ∙ omega (arith, bit_xor_mask k, pow_pos k, pow_double k)

  -- The complement of a host mask is the network mask.
  pub bit_xor_host : (k : ℕ) → bit_xor (2 ^ p * 2 ^ k - 1) (2 ^ k - 1) ≡ (2 ^ p - 1) * 2 ^ k
  bit_xor_host zero = ap₂ bit_xor e (omega arith) ∙ bit_xor-zero (2 ^ p - 1) ∙ omega arith
    where
      e : 2 ^ p * 2 ^ 0 - 1 ≡ 2 ^ p - 1
      e = omega arith
  bit_xor_host (suc k) =
      bit_xor_odd_odd _ _ (2 ^ p * 2 ^ k - 1) (2 ^ k - 1)
        (omega (arith, full_pos k, mul-pow-suc (2 ^ p) k)) (omega (arith, pow_pos k, pow_double k))
      ∙ omega (arith, bit_xor_host k, mul-pow-suc (2 ^ p - 1) k)

pub pow_add : (p k : ℕ) → 2 ^ (p + k) ≡ 2 ^ p * 2 ^ k
pow_add p zero = ap (λ n. 2 ^ n) {y = p} (omega arith) ∙ omega arith
pow_add p (suc k) =
    ap (λ n. 2 ^ n) {y = suc (p + k)} (omega arith)
    ∙ omega (arith, pow_double (p + k), pow_add p k, mul-pow-suc (2 ^ p) k)
