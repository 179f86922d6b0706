-- ===== src/Duid/RoundTrip.antt =====
-- The canonical spelling of the bytes of a DUID, and the MAC address in it.
use cidrella.Base.{
  ℕ, zero, suc, ◌/◌, ◌%◌, ◌≤◌, ◌<◌, ◌≡◌, ◌≢◌, refl, sym, ap, ap₂, ◌∙◌, subst, arith, true, false,
  some, inl, inr, List, [], ◌∷◌, ◌==◌, map, length, all, All, Bool-cases,
}
use cidrella.Base.Text.{
  Text, split, join, trim, is_space, to_string, to_radix, digit_char, lower_char,
}
use cidrella.Base.Text.Splitting.{split-join, All-join}
use cidrella.Base.Text.Trimming.{NoSpace, trim-NoSpace}
use cidrella.Address.{colon}
use cidrella.Duid.{is_duid_digit, is_byte_text, duid_shape, normalize_duid, byte_text}

abbrev pub AreBytes : List ℕ → Type 0
AreBytes = All (λ b. b < 256)

-- The two digits of a byte.
abbrev pub two_digits : ℕ → Text
two_digits b = digit_char (b / 16) ∷ digit_char (b % 16) ∷ []

pub byte_text_lem : (b : ℕ) → b < 256 → byte_text b ≡ two_digits b
unfolding byte_text to_string to_radix
byte_text_lem zero h = refl
byte_text_lem (suc b) h = elim (Bool-cases (suc b / 16 == 0)) [
  | inl e ↦ rw e (ground arith)
  | inr e ↦ let small : (suc b / 16 / 16 == 0) ≡ true = ground arith in rw (e, small) (ground arith)
]

-- A code unit of the canonical spelling.
abbrev IsDuidChar : ℕ → Type 0
IsDuidChar c = (is_space c ≡ false) × (lower_char c ≡ c)

colon-IsDuidChar : IsDuidChar colon
unfolding is_space
colon-IsDuidChar = (refl, refl)

digit-IsDuidChar : (d : ℕ) → d < 16 → IsDuidChar (digit_char d)
unfolding is_space
digit-IsDuidChar d h = ground arith

digit-is_duid_digit : (d : ℕ) → d < 16 → is_duid_digit (digit_char d) ≡ true
digit-is_duid_digit d h = ground arith

digit_ne_colon : (d : ℕ) → d < 16 → digit_char d ≢ colon
digit_ne_colon d h = ground arith

pub high_lt : (b : ℕ) → b < 256 → b / 16 < 16
high_lt b h = omega arith

pub low_lt : (b : ℕ) → b % 16 < 16
low_lt b = omega arith

module _ (P : ℕ → Type 0) (each : (d : ℕ) → d < 16 → P (digit_char d)) where
  byte_text-All : (b : ℕ) → b < 256 → All P (byte_text b)
  byte_text-All b h =
      subst (λ s. All P s) (sym (byte_text_lem b h))
        (each (b / 16) (high_lt b h), (each (b % 16) (low_lt b), tt))

  byte_texts-All : (bs : List ℕ) → AreBytes bs → All (All P) (map byte_text bs)
  byte_texts-All [] h = tt
  byte_texts-All (b ∷ bs) (p, h) = (byte_text-All b p, byte_texts-All bs h)

byte_text-is_byte_text : (b : ℕ) → b < 256 → is_byte_text (byte_text b) ≡ true
byte_text-is_byte_text b h =
    rw (byte_text_lem b h, digit-is_duid_digit (b / 16) (high_lt b h))
      (digit-is_duid_digit (b % 16) (low_lt b))

all-is_byte_text : (bs : List ℕ) → AreBytes bs → all is_byte_text (map byte_text bs) ≡ true
all-is_byte_text [] h = refl
all-is_byte_text (b ∷ bs) (p, h) = rw (byte_text-is_byte_text b p) (all-is_byte_text bs h)

pub length-byte_texts : (bs : List ℕ) → length (map byte_text bs) ≡ length bs
length-byte_texts [] = refl
length-byte_texts (b ∷ bs) = ap suc (length-byte_texts bs)

map-lower_char : (s : Text) → All IsDuidChar s → map lower_char s ≡ s
map-lower_char [] h = refl
map-lower_char (c ∷ s) ((a, e), h) = ap₂ (λ x xs. x ∷ xs) e (map-lower_char s h)

All-NoSpace : (s : Text) → All IsDuidChar s → NoSpace s
All-NoSpace [] h = tt
All-NoSpace (c ∷ s) ((a, e), h) = (a, All-NoSpace s h)

-- The spelling of bytes.
abbrev pub spelling : List ℕ → Text
spelling bs = join colon (map byte_text bs)

pub split-spelling :
    (bs : List ℕ) → 2 ≤ length bs → AreBytes bs → split colon (spelling bs) ≡ map byte_text bs
split-spelling [] h k = ground arith
split-spelling (b ∷ bs) h k =
    split-join colon (map byte_text (b ∷ bs)) (cc)
      (byte_texts-All (λ c. c ≢ colon) digit_ne_colon (b ∷ bs) k)

duid_shape-spelling :
    (bs : List ℕ) → 2 ≤ length bs → length bs ≤ 130 → AreBytes bs → duid_shape (spelling bs) ≡ true
unfolding duid_shape
duid_shape-spelling bs low high k =
    rw (split-spelling bs low k, length-byte_texts bs, all-is_byte_text bs k) (ground arith)

pub normalize_duid-spelling :
    (bs : List ℕ)
    → 2 ≤ length bs
    → length bs ≤ 130
    → AreBytes bs
    → normalize_duid (spelling bs) ≡ some (spelling bs)
unfolding normalize_duid
normalize_duid-spelling bs low high k =
    let chars =
      All-join IsDuidChar colon (map byte_text bs) colon-IsDuidChar
        (byte_texts-All IsDuidChar digit-IsDuidChar bs k) in
    let same : map lower_char (trim (spelling bs)) ≡ spelling bs =
      ap (map lower_char) (trim-NoSpace (spelling bs) (All-NoSpace (spelling bs) chars))
      ∙ map-lower_char (spelling bs) chars in
    rw (same, duid_shape-spelling bs low high k) refl
