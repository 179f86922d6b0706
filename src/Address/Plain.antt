-- ===== src/Address/Plain.antt =====
-- What `parseIp` does with a text that needs no trimming and has no zone id.
use cidrella.Base.{
  ℕ, ◌%◌, ◌≡◌, ◌≢◌, refl, Bool, true, false, none, [], ◌∷◌, arith, All, all, length, ◌≤◌,
}
use cidrella.Base.Text.{Text, is_space, is_empty, to_string, digit_char}
use cidrella.Base.Text.Splitting.{Lacks, index_of-Lacks}
use cidrella.Base.Text.Trimming.{NoSpace, trim-NoSpace}
use cidrella.Base.Text.Radix.{All-to_string}
use cidrella.Address.{percent, dot, colon, IpOptions, parse_zoned, parse_address, parse_ip}

-- A code unit that `trim` and the zone id leave alone.
abbrev pub IsPlain : ℕ → Type 0
IsPlain c = (is_space c ≡ false) × (c ≢ percent)

pub All-NoSpace : (s : Text) → All IsPlain s → NoSpace s
All-NoSpace [] h = tt
All-NoSpace (c ∷ s) (p, h) = (p.0, All-NoSpace s h)

pub All-Lacks-percent : (s : Text) → All IsPlain s → Lacks percent s
All-Lacks-percent [] h = tt
All-Lacks-percent (c ∷ s) (p, h) = (p.1, All-Lacks-percent s h)

pub is_empty_of_ne : (s : Text) → s ≢ [] → is_empty s ≡ false
is_empty_of_ne [] h = absurd (h refl)
is_empty_of_ne (c ∷ s) h = refl

pub parse_ip-plain :
    (o : IpOptions) (s : Text) → s ≢ [] → All IsPlain s → parse_ip o s ≡ parse_address o s none
unfolding parse_ip parse_zoned
parse_ip-plain o s ne h = rw (
  trim-NoSpace s (All-NoSpace s h),
  is_empty_of_ne s ne,
  index_of-Lacks percent s (All-Lacks-percent s h),
)

pub colon-IsPlain : IsPlain colon
unfolding is_space
colon-IsPlain = (refl, omega arith)

pub dot-IsPlain : IsPlain dot
unfolding is_space
dot-IsPlain = (refl, omega arith)

decimal-IsPlain : (m : ℕ) → IsPlain (digit_char (m % 10))
unfolding is_space
decimal-IsPlain m = ground arith

hex-IsPlain : (m : ℕ) → IsPlain (digit_char (m % 16))
unfolding is_space
hex-IsPlain m = ground arith

pub decimal-All-IsPlain : (n : ℕ) → All IsPlain (to_string 10 n)
decimal-All-IsPlain n = All-to_string IsPlain 10 n decimal-IsPlain

pub hex-All-IsPlain : (n : ℕ) → All IsPlain (to_string 16 n)
hex-All-IsPlain n = All-to_string IsPlain 16 n hex-IsPlain

pub decimal-Lacks-dot : (n : ℕ) → Lacks dot (to_string 10 n)
decimal-Lacks-dot n = All-to_string (λ c. c ≢ dot) 10 n (λ m. ground arith)

pub decimal-Lacks-colon : (n : ℕ) → Lacks colon (to_string 10 n)
decimal-Lacks-colon n = All-to_string (λ c. c ≢ colon) 10 n (λ m. ground arith)

pub hex-Lacks-dot : (n : ℕ) → Lacks dot (to_string 16 n)
hex-Lacks-dot n = All-to_string (λ c. c ≢ dot) 16 n (λ m. ground arith)

pub hex-Lacks-colon : (n : ℕ) → Lacks colon (to_string 16 n)
hex-Lacks-colon n = All-to_string (λ c. c ≢ colon) 16 n (λ m. ground arith)

pub all_of_All : (p : ℕ → Bool) (s : Text) → All (λ c. p c ≡ true) s → all p s ≡ true
all_of_All p [] h = refl
all_of_All p (c ∷ s) (e, h) = rw (e, all_of_All p s h)

pub one-le-length : (s : Text) → s ≢ [] → 1 ≤ length s
one-le-length [] h = absurd (h refl)
one-le-length (c ∷ s) h = omega arith
