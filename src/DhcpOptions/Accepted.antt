-- ===== src/DhcpOptions/Accepted.antt =====
-- What the checks on requests let through: codes, lease times and values.
use cidrella.Base.{
  ℕ, ◌*◌, ◌≤◌, ◌≡◌, ◌≢◌, ◌↔◌, ◌⊎◌, inl, inr, refl, sym, ap, ◌∙◌, subst, arith, Bool, true, false,
  not, ◌&&◌, ◌||◌, Option, none, some, [], ◌∷◌, map, ltb, leb, ◌==◌, All, Bool-cases, some-inj,
  if◌then◌else◌,
}
use cidrella.Base.Text.{lower_char, Text, codes, text_eq, is_empty, is_digit, is_space, parse_int}
use cidrella.Base.Text.Trimming.{NoSpace, trim-NoSpace}
use cidrella.ConfigValue.{ValueError, validate_config_safe_value}
use cidrella.ConfigValue.Safe.{IsField, validate_config_safe_value_iff}
use cidrella.DhcpCatalog.{by_code, option_catalog_for, has_code}
use cidrella.DhcpOptions.{
  is_allowed_in, is_option_code_allowed, is_input_unit, digits_of, after_digits,
  is_valid_lease_time, unit_seconds, seconds, seconds_of, lease_seconds, string, UseDefault, chosen,
  unset, invalid, coerced, ScopeOption, OptionError, option_code_error, is_blank, type_of,
  allows_comma, is_lease_time, unsafe, own_value_error, default_use_error, use_error,
  checked_option, validate_scope_option,
}

-- A digit or a unit.
abbrev is_time_char : ℕ → Bool
is_time_char c = is_digit c || (c == 115 || c == 109 || c == 104 || c == 100)

time_chars : (s : Text) → is_input_unit (after_digits s) ≡ true → All (λ c. is_time_char c ≡ true) s
unfolding after_digits
time_chars [] h = tt
time_chars (c ∷ s) h = elim (Bool-cases (is_digit c)) [
  | inl e ↦ (
    ground (arith, e),
    time_chars s (subst (λ b. is_input_unit (if b then after_digits s else c ∷ s) ≡ true) e h),
  )
  | inr e ↦ last c s (subst (λ b. is_input_unit (if b then after_digits s else c ∷ s) ≡ true) e h)
]
  where
    last :
        (c : ℕ) (s : Text) → is_input_unit (c ∷ s) ≡ true → All (λ c. is_time_char c ≡ true) (c ∷ s)
    last c [] h = (ground arith, tt)
    last c (d ∷ s) h = absurd (cc)

time_lower : (s : Text) → All (λ c. is_time_char c ≡ true) s → map lower_char s ≡ s
time_lower [] h = refl
time_lower (c ∷ s) (p, h) =
    let same : lower_char c ≡ c = ground (arith, p) in
    ap (λ d. d ∷ map lower_char s) same ∙ ap (λ t. c ∷ t) (time_lower s h)

time_space : (s : Text) → All (λ c. is_time_char c ≡ true) s → NoSpace s
unfolding is_space
time_space [] h = tt
time_space (c ∷ s) (p, h) = (ground (arith, p), time_space s h)

time_infinite :
    (s : Text) → All (λ c. is_time_char c ≡ true) s → text_eq s (codes "infinite") ≡ false
time_infinite [] h = refl
time_infinite (c ∷ s) (p, h) = ground (arith, p)

pub input_unit_known :
    (s : Text) → is_input_unit s ≡ true → (n : ℕ) × ((unit_seconds s ≡ some n) × (1 ≤ n))
unfolding unit_seconds
input_unit_known [] h = (1, (refl, omega arith))
input_unit_known (c ∷ []) h = elim (Bool-cases (c == 115)) [
  | inl e ↦ (1, (rw e refl, omega arith))
  | inr e1 ↦ elim (Bool-cases (c == 109)) [
    | inl e ↦ (60, (rw (e1, e) refl, omega arith))
    | inr e2 ↦ elim (Bool-cases (c == 104)) [
      | inl e ↦ (3600, (rw (e1, e2, e) refl, omega arith))
      | inr e3 ↦ (86400, (ground arith, omega arith))
    ]
  ]
]
input_unit_known (c ∷ (d ∷ s)) h = absurd (cc)

-- Every lease time that a request may set is read as a number of seconds: its digits times a unit.
pub lease_seconds_valid :
    (s : Text)
    → is_valid_lease_time s ≡ true
    → (unit : ℕ) × ((1 ≤ unit)
        × (unit_seconds (after_digits s) ≡ some unit)
        × (lease_seconds s ≡ seconds (parse_int 10 (digits_of s) * unit)))
unfolding is_valid_lease_time lease_seconds seconds_of
lease_seconds_valid s h =
    let input : is_input_unit (after_digits s) ≡ true = ground arith in
    let chars = time_chars s input in
    let (n, (known, big)) = input_unit_known (after_digits s) input in
    let filled : is_empty (digits_of s) ≡ false = ground arith in
    (
      n,
      (
        big,
        known,
        ap seconds_of
              (ap (map lower_char) (trim-NoSpace s (time_space s chars)) ∙ time_lower s chars)
            ∙ rw (time_infinite s chars, known, filled) refl,
      ),
    )

refused_codes :
    (b a : Bool) (e f : OptionError)
    → (if b then some e else if a then none else some f) ≡ none
    → a ≡ true
refused_codes b a e f h = ground arith

in_range : (c m : ℕ) (i : Bool) → (leb 1 c && leb c m && i) ≡ true → (ltb c 1 || ltb m c) ≡ false
in_range c m i h = ground arith

-- A code is accepted exactly when it is a number that may be set.
pub option_code_error_iff :
    (given : Option ℕ) (family : ℕ)
    → (option_code_error given family ≡ none)
      ↔ ((code : ℕ) × ((given ≡ some code) × (is_option_code_allowed code family ≡ true)))
unfolding option_code_error is_option_code_allowed is_allowed_in
option_code_error_iff none family = ((λ h. absurd (cc)), (λ (code, (e, h)). absurd (cc)))
option_code_error_iff (some code) family = (
  (λ h. (code, (refl, accepted h))),
  (λ (c, (e, h)). fits (subst (λ n. is_option_code_allowed n family ≡ true) (sym (some-inj e)) h)),
)
  where
    accepted :
        option_code_error (some code) family ≡ none → is_option_code_allowed code family ≡ true
    accepted h = refused_codes _ (is_option_code_allowed code family) _ _ h

    fits : is_option_code_allowed code family ≡ true → option_code_error (some code) family ≡ none
    fits h =
        let catalog = option_catalog_for family in
        let within =
          in_range code catalog.max_code (not (has_code catalog.internal_codes code)) h in
        rw (within, h) refl

second_guard :
    (b : Bool) (e : OptionError) (v : Option ValueError)
    → (if b then some e else unsafe v) ≡ none
    → (b ≡ false) × (v ≡ none)
second_guard b e v h = ground arith

not_or : (l v : Bool) → (l && not v) ≡ false → (l ≡ false) ⊎ (v ≡ true)
not_or l v h = ground arith

own_value_error-IsField :
    (code family : ℕ) (s : Text)
    → s ≢ []
    → own_value_error code family (string s) ≡ none
    → IsField (allows_comma (type_of (by_code (option_catalog_for family).options code))) false s
      × ((is_lease_time code family ≡ false) ⊎ (is_valid_lease_time s ≡ true))
unfolding own_value_error
own_value_error-IsField code family [] ne h = absurd (ne refl)
own_value_error-IsField code family (c ∷ s) ne h =
    let takes = allows_comma (type_of (by_code (option_catalog_for family).options code)) in
    let (lease, safe) =
      second_guard (is_lease_time code family && not (is_valid_lease_time (c ∷ s))) _
        (validate_config_safe_value takes false (c ∷ s)) h in
    ((validate_config_safe_value_iff takes false (c ∷ s)).0 safe, not_or _ _ lease)

use_error-own :
    (code family : ℕ) (s : Text) (how : UseDefault)
    → s ≢ []
    → use_error code family (string s) how ≡ none
    → (how ≢ chosen true) × (own_value_error code family (string s) ≡ none)
unfolding default_use_error is_blank
use_error-own code family [] how ne h = absurd (ne refl)
use_error-own code family (c ∷ s) unset ne h = ((λ e. cc), h)
use_error-own code family (c ∷ s) invalid ne h = absurd (cc)
use_error-own code family (c ∷ s) (chosen true) ne h = absurd (cc)
use_error-own code family (c ∷ s) (chosen false) ne h = ((λ e. cc), h)

-- What is accepted had an accepted code, and its use of the default or its value was accepted.
checked_option-none :
    (e : Option OptionError) (given : Option ℕ) (family : ℕ) (opt : ScopeOption)
    → checked_option e given family opt ≡ none
    → (e ≡ none)
      × ((code : ℕ) → given ≡ some code → use_error code family opt.value opt.use_default ≡ none)
checked_option-none (some e) given family opt h = absurd (cc)
checked_option-none none none family opt h = (refl, λ code e. absurd (cc))
checked_option-none none (some n) family opt h = (
  refl,
  λ code e. subst (λ c. use_error c family opt.value opt.use_default ≡ none) (some-inj e) h,
)

-- A text that is not empty is accepted as the value of an option only for a code that may be set, from
-- an option that does not ask for the default; it is printable, of a length that a line can hold, has
-- no `=`, and no comma unless the option takes a list. For IPv4 code 51 it is a lease time.
pub validate_scope_option-IsField :
    (opt : ScopeOption) (family : ℕ) (s : Text)
    → validate_scope_option (some opt) family ≡ none
    → opt.value ≡ string s
    → s ≢ []
    → (code : ℕ) × ((coerced opt.code ≡ some code)
        × (is_option_code_allowed code family ≡ true)
        × (opt.use_default ≢ chosen true)
        × (IsField
            (allows_comma (type_of (by_code (option_catalog_for family).options code)))
            false
            s)
        × ((is_lease_time code family ≡ false) ⊎ (is_valid_lease_time s ≡ true)))
unfolding validate_scope_option
validate_scope_option-IsField opt family s h is_text filled =
    let (fine, used) =
      checked_option-none (option_code_error (coerced opt.code) family) (coerced opt.code) family
        opt h in
    let (code, (is_code, allowed)) = (option_code_error_iff (coerced opt.code) family).0 fine in
    let (own, accepted) =
      use_error-own code family s opt.use_default filled
        (subst (λ v. use_error code family v opt.use_default ≡ none) is_text (used code is_code)) in
    let (field, lease) = own_value_error-IsField code family s filled accepted in
    (code, (is_code, allowed, own, field, lease))
