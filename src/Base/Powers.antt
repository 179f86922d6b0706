-- ===== src/Base/Powers.antt =====
-- The test `x & (x - 1)` for a power of two, and the number of its binary digits.
use Prim.Native.Nat.{ℕ, zero, suc, ◌+◌, ◌-◌, ◌*◌, ◌/◌, ◌%◌, ◌^◌, ◌≤◌, ◌<◌, bit_and}
use mathlib.Core.Path.{◌≡◌, refl, ap, sym, ◌∙◌}
use mathlib.Core.WellFounded
use native.Mathlib.Decide.{dec_le}
use native.Mathlib.Nat.{pow-le-pow_right}
use native.Mathlib.Omega.{arith}
use cidrella.Base.{[], ◌∷◌, length, ◌==◌, false}
use cidrella.Base.Bits.Lowest.{halving, bit_and_step}
use cidrella.Base.Bits.{pow_pos, pow_double}
use cidrella.Base.Order.{lt_wf}
use cidrella.Base.Text.{Text, to_radix, to_string, digit_char}

bit_and_self : (a : ℕ) → bit_and a a ≡ a
bit_and_self =
    halving (λ a. bit_and a a ≡ a) refl
      (λ n half. omega (arith, bit_and_step (suc n) (suc n), half))

even_step : (h : ℕ) → 1 ≤ h → bit_and (2 * h) (2 * h - 1) ≡ 0 → bit_and h (h - 1) ≡ 0
even_step h pos e =
    let low : 2 * h / 2 ≡ h = omega arith in
    let high : (2 * h - 1) / 2 ≡ h - 1 = omega arith in
    let split = bit_and_step (2 * h) (2 * h - 1) in
    omega (arith, split, ap (λ t. bit_and t ((2 * h - 1) / 2)) low, ap (bit_and h) high)

odd_step : (h : ℕ) → bit_and (2 * h + 1) (2 * h) ≡ 0 → h ≡ 0
odd_step h e =
    let low : (2 * h + 1) / 2 ≡ h = omega arith in
    let high : 2 * h / 2 ≡ h = omega arith in
    omega (
      arith,
      bit_and_step (2 * h + 1) (2 * h),
      ap (λ t. bit_and t (2 * h / 2)) low,
      ap (bit_and h) high,
      bit_and_self h,
    )

-- A positive number that shares no bit with the number before it is a power of two.
pub power_of_two : (t : ℕ) → 1 ≤ t → bit_and t (t - 1) ≡ 0 → (k : ℕ) × (t ≡ 2 ^ k)
power_of_two t = WellFounded.induction lt_wf t each
  where
    odd : (n : ℕ) → n % 2 ≡ 1 → bit_and n (n - 1) ≡ 0 → n / 2 ≡ 0
    odd n r e =
        let whole : n ≡ 2 * (n / 2) + 1 = omega arith in
        let before : n - 1 ≡ 2 * (n / 2) = omega arith in
        odd_step (n / 2)
          (sym (ap (λ t. bit_and t (2 * (n / 2))) whole) ∙ sym (ap (bit_and n) before) ∙ e)

    even : (n : ℕ) → n % 2 ≡ 0 → 1 ≤ n → bit_and n (n - 1) ≡ 0 → bit_and (n / 2) (n / 2 - 1) ≡ 0
    even n r pos e =
        let whole : n ≡ 2 * (n / 2) = omega arith in
        even_step (n / 2) (omega arith) (sym (ap (λ t. bit_and t (t - 1)) whole) ∙ e)

    each :
        (n : ℕ)
        → ((m : ℕ) → m < n → 1 ≤ m → bit_and m (m - 1) ≡ 0 → (k : ℕ) × (m ≡ 2 ^ k))
        → 1 ≤ n
        → bit_and n (n - 1) ≡ 0
        → (k : ℕ) × (n ≡ 2 ^ k)
    each n ih pos e = elim (dec_le 1 (n % 2)) [
      | yes one ↦ (0, omega (arith, odd n (omega arith) e))
      | no nought ↦
          let (k, half) = ih (n / 2) (omega arith) (omega arith) (even n (omega arith) pos e) in
          (suc k, omega (arith, half, pow_double k))
    ]

length-to_radix_pow :
    (k f : ℕ) (out : Text) → 2 ^ k < f → length (to_radix f 2 (2 ^ k) out) ≡ suc k + length out
unfolding to_radix
length-to_radix_pow k zero out h = absurd (omega arith)
length-to_radix_pow zero (suc f) out h = omega arith
length-to_radix_pow (suc k) (suc f) out h =
    rw (more, halved)
      (omega (
        arith,
        length-to_radix_pow k f (digit_char (2 ^ suc k % 2) ∷ out)
            (omega (arith, pow_pos k, pow_double k)),
      ))
  where
    halved : 2 ^ suc k / 2 ≡ 2 ^ k
    halved = omega (arith, pow_double k)

    more : (2 ^ suc k / 2 == 0) ≡ false
    more = ap (λ t. t == 0) halved ∙ ground (arith, pow_pos k)

-- `(2n ** BigInt(k)).toString(2)` has `k + 1` digits.
pub length-to_string_pow : (k : ℕ) → length (to_string 2 (2 ^ k)) ≡ suc k
unfolding to_string
length-to_string_pow k = omega (arith, length-to_radix_pow k (suc (2 ^ k)) [] (omega arith))

-- The converse of the test.
pub bit_and_pow : (k : ℕ) → bit_and (2 ^ k) (2 ^ k - 1) ≡ 0
bit_and_pow zero = refl
bit_and_pow (suc k) =
    let low : 2 ^ suc k / 2 ≡ 2 ^ k = omega (arith, pow_double k) in
    let high : (2 ^ suc k - 1) / 2 ≡ 2 ^ k - 1 = omega (arith, pow_double k, pow_pos k) in
    omega (
      arith,
      bit_and_step (2 ^ suc k) (2 ^ suc k - 1),
      ap (λ t. bit_and t ((2 ^ suc k - 1) / 2)) low,
      ap (bit_and (2 ^ k)) high,
      bit_and_pow k,
      pow_double k,
    )

-- The exponents are in the order of the powers.
pub pow-le_inv : (k b : ℕ) → 2 ^ k ≤ 2 ^ b → k ≤ b
pow-le_inv k b h = elim (dec_le k b) [
  | yes le ↦ le
  | no gt ↦
      let larger : 2 ^ suc b ≤ 2 ^ k = pow-le-pow_right (omega arith) (omega arith) in
      absurd (omega (arith, larger, pow_double b, pow_pos b))
]
