-- ===== src/Base/Text/Radix.antt =====
-- Printing a number in a radix and reading it back.
use Prim.Native.Nat.{ℕ, zero, suc, ◌+◌, ◌*◌, ◌/◌, ◌%◌, ◌^◌, ◌≤◌, ◌<◌}
use mathlib.Core.Path.{◌≡◌, ap, ◌∙◌}
use mathlib.Core.Logic.{◌≢◌, inl, inr}
use mathlib.Core.Bool.{true}
use mathlib.Core.List.{[], ◌∷◌}
use native.Mathlib.Nat.{pow-suc, pow-zero}
use native.Mathlib.Omega.{arith}
use cidrella.Base.Tests.{◌==◌, ==_iff, Bool-cases}
use cidrella.Base.Lists.{length, All}
use cidrella.Base.Bits.{quotient_lt}
use cidrella.Base.Text.{
  Text, digit_char, digit_value, is_digit, is_hex_digit, to_radix, to_string, parse_from, parse_int,
}

digit_value-digit_char : (d : ℕ) → d < 16 → digit_value (digit_char d) ≡ d
digit_value-digit_char d h = ground arith

-- The radices in use.
abbrev pub IsRadix : ℕ → Type 0
IsRadix r = (2 ≤ r) × (r ≤ 16)

last_digit : (r n : ℕ) → IsRadix r → (n / r * r + n % r ≡ n) × (n % r < 16)
last_digit r n (h, k) = grind arith

quotient_fuel : (r n f : ℕ) → IsRadix r → n < suc f → n / r ≢ 0 → n / r < f
quotient_fuel r n f (h, k) lt nz = grind arith

quotient_zero : (r n : ℕ) → IsRadix r → n < r → n / r ≡ 0
quotient_zero r n (h, k) lt = grind arith

read_digit : (r n : ℕ) → IsRadix r → n / r * r + digit_value (digit_char (n % r)) ≡ n
read_digit r n h =
    omega (arith, last_digit r n h, digit_value-digit_char (n % r) (last_digit r n h).1)

parse_from-to_radix :
    (f r n : ℕ) (out : Text)
    → IsRadix r
    → n < f
    → parse_from r 0 (to_radix f r n out) ≡ parse_from r n out
unfolding to_radix parse_from
parse_from-to_radix zero r n out h lt = elim lt [ ]
parse_from-to_radix (suc f) r n out h lt = elim (Bool-cases (n / r == 0)) [
  | inl done ↦ rw done (ap (λ t. parse_from r t out) (first_digit done))
  | inr more ↦ rw more (
      parse_from-to_radix f r (n / r) _ h (quotient_fuel r n f h lt (ground arith))
      ∙ ap (λ t. parse_from r t out) (read_digit r n h))
]
  where
    first_digit : (n / r == 0) ≡ true → 0 * r + digit_value (digit_char (n % r)) ≡ n
    first_digit e = let z : n / r ≡ 0 = (==_iff _ _).0 e in rw (← z) (read_digit r n h)

-- Reading a printed number gives it back.
pub parse_int-to_string : (r n : ℕ) → IsRadix r → parse_int r (to_string r n) ≡ n
unfolding parse_int to_string parse_from
parse_int-to_string r n h = parse_from-to_radix (suc n) r n [] h (omega arith)

module _ {ℓ} (P : ℕ → Type ℓ) where
  All-to_radix :
      (f r n : ℕ) (out : Text)
      → ((m : ℕ) → P (digit_char (m % r)))
      → All P out
      → All P (to_radix f r n out)
  unfolding to_radix
  All-to_radix zero r n out each h = h
  All-to_radix (suc f) r n out each h = elim (Bool-cases (n / r == 0)) [
    | inl done ↦ rw done (each n, h)
    | inr more ↦ rw more (All-to_radix f r (n / r) _ each (each n, h))
  ]

  -- What holds of every digit holds of the printed number.
  pub All-to_string : (r n : ℕ) → ((m : ℕ) → P (digit_char (m % r))) → All P (to_string r n)
  unfolding to_string
  All-to_string r n each = All-to_radix (suc n) r n [] each tt

pub hex_digit : (m : ℕ) → is_hex_digit (digit_char (m % 16)) ≡ true
hex_digit m = ground arith

pub decimal_digit : (m : ℕ) → is_digit (digit_char (m % 10)) ≡ true
decimal_digit m = ground arith

length-to_radix-le :
    (k f r n : ℕ) (out : Text)
    → IsRadix r
    → n < r ^ suc k
    → length (to_radix f r n out) ≤ suc k + length out
unfolding to_radix
length-to_radix-le k zero r n out h lt = omega arith
length-to_radix-le zero (suc f) r n out h lt = rw (only_digit) (omega arith)
  where
    small : n / r ≡ 0
    small =
        let e : r ^ 1 ≡ r = omega (arith, pow-suc r 0, ap (λ (t : ℕ). t * r) (pow-zero r)) in
        quotient_zero r n h (omega arith)

    only_digit : (n / r == 0) ≡ true
    only_digit = (==_iff _ _).1 small
length-to_radix-le (suc k) (suc f) r n out h lt = elim (Bool-cases (n / r == 0)) [
  | inl done ↦ rw done (omega arith)
  | inr more ↦
      rw more
        (omega (arith, length-to_radix-le k f r (n / r) (digit_char (n % r) ∷ out) h (smaller)))
]
  where
    smaller : n / r < r ^ suc k
    smaller = quotient_lt r (r ^ suc k) n (omega arith) (omega (arith, pow-suc r (suc k)))

-- A number below `r ^ (k + 1)` takes `k + 1` digits at most.
pub length-to_string-le : (k r n : ℕ) → IsRadix r → n < r ^ suc k → length (to_string r n) ≤ suc k
unfolding to_string
length-to_string-le k r n h lt = omega (arith, length-to_radix-le k (suc n) r n [] h lt)

to_radix-ne-nil : (f r n : ℕ) (out : Text) → out ≢ [] → to_radix f r n out ≢ []
unfolding to_radix
to_radix-ne-nil zero r n out h = h
to_radix-ne-nil (suc f) r n out h = elim (Bool-cases (n / r == 0)) [
  | inl done ↦ rw done (cc)
  | inr more ↦ rw more (to_radix-ne-nil f r (n / r) _ (cc))
]

pub to_string-ne-nil : (r n : ℕ) → to_string r n ≢ []
unfolding to_string to_radix
to_string-ne-nil r n = elim (Bool-cases (n / r == 0)) [
  | inl done ↦ rw done (cc)
  | inr more ↦ rw more (to_radix-ne-nil n r (n / r) _ (cc))
]
