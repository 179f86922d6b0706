-- ===== src/ConfigValue/Names.antt =====
-- The names of records, put in a line of the configuration.
use cidrella.Base.{
  ℕ, ◌≤◌, ◌≡◌, ◌≢◌, inl, inr, refl, subst, arith, Bool, true, none, List, [], ◌∷◌, ◌==◌, all,
  length, All, Bool-cases, if◌then◌else◌,
}
use cidrella.Base.Text.{Text, codes, text_eq, split, cons_head}
use cidrella.Address.Format.Runs.{text_eq_sound}
use cidrella.ConfigValue.{
  max_value_length, validate_config_safe_value, is_lower_hex, is_hex_label, is_valid_ptr_name,
  is_name_character, ends_name, is_name, drop_last_dot, is_valid_record_name,
}
use cidrella.ConfigValue.Safe.{IsPrintable, All-imp, validate_config_safe_value_iff}

-- A code unit that no guard refuses.
abbrev IsSafe : ℕ → Type 0
IsSafe c = IsPrintable c × (c ≢ 61) × (c ≢ 44)

All-IsSafe :
    (allow_comma allow_equals : Bool) (s : Text)
    → s ≢ []
    → length s ≤ max_value_length
    → All IsSafe s
    → validate_config_safe_value allow_comma allow_equals s ≡ none
All-IsSafe allow_comma allow_equals s filled short safe =
    (validate_config_safe_value_iff allow_comma allow_equals s).1 (
      filled,
      short,
      All-imp IsSafe IsPrintable s (λ c h. h.0) safe,
      inr (All-imp IsSafe (λ c. c ≢ 61) s (λ c h. h.1) safe),
      inr (All-imp IsSafe (λ c. c ≢ 44) s (λ c h. h.2) safe),
    )

lower_hex-IsSafe : (c : ℕ) → is_lower_hex c ≡ true → IsSafe c
lower_hex-IsSafe c h = ground arith

all-IsSafe : (s : Text) → all is_lower_hex s ≡ true → All IsSafe s
all-IsSafe [] h = tt
all-IsSafe (c ∷ s) h = (lower_hex-IsSafe c (ground arith), all-IsSafe s (ground arith))

all_labels :
    (parts : List Text) → all is_hex_label parts ≡ true → all (all is_lower_hex) parts ≡ true
all_labels [] h = refl
all_labels (p ∷ parts) h = ground (arith, all_labels parts)

cons_head-all :
    (c : ℕ) (parts : List Text)
    → all (all is_lower_hex) (cons_head c parts) ≡ true
    → (is_lower_hex c ≡ true) × (all (all is_lower_hex) parts ≡ true)
cons_head-all c [] h = ground arith
cons_head-all c (p ∷ parts) h = ground arith

split-IsSafe : (s : Text) → all (all is_lower_hex) (split 46 s) ≡ true → All IsSafe s
unfolding split
split-IsSafe [] h = tt
split-IsSafe (c ∷ s) h = elim (Bool-cases (c == 46)) [
  | inl e ↦ (
    ground (arith, e),
    split-IsSafe s (
        subst
          (λ b.
            all (all is_lower_hex) (if b then [] ∷ split 46 s else cons_head c (split 46 s)) ≡ true)
          e h),
  )
  | inr e ↦
      let (here, there) = cons_head-all c (split 46 s) (
        subst
          (λ b.
            all (all is_lower_hex) (if b then [] ∷ split 46 s else cons_head c (split 46 s)) ≡ true)
          e h) in
      (lower_hex-IsSafe c here, split-IsSafe s there)
]

-- A name that a PTR record may have passes the check of configuration values, with or without commas
-- and equals signs allowed.
pub is_valid_ptr_name-safe :
    (allow_comma allow_equals : Bool) (name : Text)
    → is_valid_ptr_name name ≡ true
    → validate_config_safe_value allow_comma allow_equals name ≡ none
unfolding is_valid_ptr_name
is_valid_ptr_name-safe allow_comma allow_equals name h =
    All-IsSafe allow_comma allow_equals name (λ e. ground (arith, e)) (ground arith)
      (split-IsSafe name (all_labels (split 46 name) (ground arith)))

name_character-IsSafe : (c : ℕ) → is_name_character c ≡ true → IsSafe c
name_character-IsSafe c h = ground arith

ends_name-IsSafe : (s : Text) → ends_name s ≡ true → All IsSafe s
ends_name-IsSafe [] h = tt
ends_name-IsSafe (c ∷ []) h = (name_character-IsSafe c (ground arith), tt)
ends_name-IsSafe (c ∷ (d ∷ s)) h =
    (name_character-IsSafe c (ground arith), ends_name-IsSafe (d ∷ s) (ground arith))

is_name-IsSafe : (s : Text) → is_name s ≡ true → All IsSafe s
is_name-IsSafe [] h = tt
is_name-IsSafe (c ∷ []) h = (name_character-IsSafe c (ground arith), tt)
is_name-IsSafe (c ∷ (d ∷ s)) h =
    (name_character-IsSafe c (ground arith), ends_name-IsSafe (d ∷ s) (ground arith))

drop_last_dot-IsSafe : (s : Text) → All IsSafe (drop_last_dot s) → All IsSafe s
unfolding drop_last_dot
drop_last_dot-IsSafe [] h = tt
drop_last_dot-IsSafe (c ∷ []) h = elim (Bool-cases (c == 46)) [
  | inl e ↦ (ground (arith, e), tt)
  | inr e ↦ subst (λ b. All IsSafe (if b then [] else c ∷ [])) e h
]
drop_last_dot-IsSafe (c ∷ (d ∷ s)) (p, h) = (p, drop_last_dot-IsSafe (d ∷ s) h)

-- A name that a record may have passes the check of configuration values, with or without commas and
-- equals signs allowed.
pub is_valid_record_name-safe :
    (allow_comma allow_equals : Bool) (name : Text)
    → is_valid_record_name name ≡ true
    → validate_config_safe_value allow_comma allow_equals name ≡ none
unfolding is_valid_record_name
is_valid_record_name-safe allow_comma allow_equals name h =
    elim (Bool-cases (text_eq name (codes "@"))) [
      | inl e ↦ rw (text_eq_sound name (codes "@") e) (
          All-IsSafe allow_comma allow_equals (codes "@") (λ e. cc) (omega arith)
            (ground arith, tt))
      | inr e ↦
          All-IsSafe allow_comma allow_equals name (λ e. ground (arith, e)) (ground arith)
            (drop_last_dot-IsSafe name (is_name-IsSafe (drop_last_dot name) (ground arith)))
    ]
