-- ===== src/Base/Bits/Lowest.antt =====
-- The lowest binary digit of `&`, `|` and `^`, and induction from half of a number to the number.
use Prim.Native.Nat.{ℕ, zero, suc, ◌+◌, ◌*◌, ◌/◌, ◌%◌, ◌≤◌, ◌<◌, min, max}
use Prim.Native.Nat.{
  bit_and, bit_or, bit_xor, digits, bitwise, differ, bit_and-bitwise, bit_or-bitwise,
  bit_xor-bitwise,
}
use mathlib.Core.Path.{◌≡◌, refl, sym, ◌∙◌}
use mathlib.Core.WellFounded
use native.Mathlib.Omega.{arith}
use cidrella.Base.Order.{lt_wf}

-- From 0, and from `n / 2` to `n`, for every number.
pub halving {ℓ} : (P : ℕ → Type ℓ) → P 0 → ((n : ℕ) → P (suc n / 2) → P (suc n)) → (n : ℕ) → P n
halving P base up n = WellFounded.induction lt_wf n from_below
  where
    from_below : (n : ℕ) → ((m : ℕ) → m < n → P m) → P n
    from_below zero below = base
    from_below (suc n) below = up n (below (suc n / 2) (omega arith))

module _ (tail : ℕ → ℕ) (digit : ℕ → ℕ → ℕ) where
  digits-zero : (rounds b : ℕ) → digits tail digit rounds 0 b ≡ tail b
  digits-zero zero b = refl
  digits-zero (suc rounds) b = refl

  -- Rounds beyond the first number make no difference.
  digits_spare :
      (rounds spare a b : ℕ)
      → a ≤ rounds
      → rounds ≤ spare
      → digits tail digit spare a b ≡ digits tail digit rounds a b
  digits_spare rounds spare zero b h k = digits-zero spare b ∙ sym (digits-zero rounds b)
  digits_spare zero spare (suc a) b h k = absurd (omega arith)
  digits_spare (suc rounds) zero (suc a) b h k = absurd (omega arith)
  digits_spare (suc rounds) (suc spare) (suc a) b h k =
      let rest = digits_spare rounds spare (suc a / 2) (b / 2) (omega arith) (omega arith) in
      omega (arith, rest)

  -- An operation that `bitwise` describes, whose tail has the lowest digit of `digit 0`.
  pub lowest_digit :
      (op : ℕ → ℕ → ℕ)
      → ((a b : ℕ) → op a b ≡ bitwise tail digit a b)
      → ((b : ℕ) → tail b ≡ tail (b / 2) * 2 + digit 0 (b % 2))
      → (a b : ℕ) → op a b ≡ op (a / 2) (b / 2) * 2 + digit (a % 2) (b % 2)
  lowest_digit op means tail_digit zero b = omega (arith, means 0 b, means 0 (b / 2), tail_digit b)
  lowest_digit op means tail_digit (suc a) b =
      let all_rounds = digits_spare (suc a / 2) a (suc a / 2) (b / 2) (omega arith) (omega arith) in
      omega (arith, means (suc a) b, means (suc a / 2) (b / 2), all_rounds)

pub bit_and_step : (a b : ℕ) → bit_and a b ≡ bit_and (a / 2) (b / 2) * 2 + min (a % 2) (b % 2)
bit_and_step = lowest_digit (λ y. 0) min bit_and bit_and-bitwise (λ b. omega arith)

pub bit_or_step : (a b : ℕ) → bit_or a b ≡ bit_or (a / 2) (b / 2) * 2 + max (a % 2) (b % 2)
bit_or_step = lowest_digit (λ y. y) max bit_or bit_or-bitwise (λ b. omega arith)

differ-zero : (b : ℕ) → differ 0 b ≡ b
differ-zero zero = refl
differ-zero (suc b) = refl

pub bit_xor_step : (a b : ℕ) → bit_xor a b ≡ bit_xor (a / 2) (b / 2) * 2 + differ (a % 2) (b % 2)
bit_xor_step =
    lowest_digit (λ y. y) differ bit_xor bit_xor-bitwise (λ b. omega (arith, differ-zero (b % 2)))
