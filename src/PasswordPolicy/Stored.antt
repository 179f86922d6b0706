-- ===== src/PasswordPolicy/Stored.antt =====
-- What storing the fields of a patch of the password policy does to its rows.
use cidrella.Base.{
  ℕ, ◌≤◌, ◌≡◌, refl, sym, ap, ◌∙◌, arith, Bool, true, false, inl, inr, some, List, [], ◌∷◌, ◌++◌,
  ltb, ◌==◌, if◌then◌else◌, min, All, Bool-cases, append-nil,
}
use cidrella.Base.Text.{Text, codes, is_digit, is_empty, parse_int, to_string, trim_start, is_space}
use cidrella.Base.Text.Radix.{parse_int-to_string, All-to_string, to_string-ne-nil, decimal_digit}
use cidrella.Address.Plain.{is_empty_of_ne}
use cidrella.PasswordPolicy.{
  password_max_length, Policy, build, SettingKey, min_length_key, same_key, Settings, read_bool,
  leading_digits, unsigned, signed, at_most_max, read_int, Field, missing, whole, boolean, other,
  PolicyBody, PatchError, Setting, Patch, refused, patched, length_step, flag_step, not_empty,
  store, store_all,
}

-- What a request asks for, where it does.
abbrev pub length_or : Field → ℕ → ℕ
length_or (whole n) now = n
length_or _ now = now

abbrev pub flag_or : Field → Bool → Bool
flag_or (boolean b) now = b
flag_or _ now = now

abbrev pub changed : PolicyBody → Policy → Policy
changed b p =
    build (length_or b.min_length p.min_length) (flag_or b.mixed_case p.require_mixed_case)
      (flag_or b.number p.require_number) (flag_or b.symbol p.require_symbol)

leading_digits-All : (s : Text) → All (λ c. is_digit c ≡ true) s → leading_digits s ≡ s
unfolding leading_digits
leading_digits-All [] h = refl
leading_digits-All (c ∷ s) (p, h) = rw (p, leading_digits-All s h) refl

-- A text of digits is read as it stands.
read_int-digits :
    (s : Text) (fallback : ℕ)
    → is_empty s ≡ false
    → All (λ c. is_digit c ≡ true) s
    → read_int (some s) fallback ≡ min (parse_int 10 s) password_max_length
unfolding read_int trim_start is_space signed unsigned at_most_max
read_int-digits [] fallback n h = ground arith
read_int-digits (c ∷ s) fallback n (p, h) =
    let solid : is_space c ≡ false = ground (arith, p) in
    let no_plus : (c == 43) ≡ false = ground (arith, p) in
    let no_minus : (c == 45) ≡ false = ground (arith, p) in
    rw (solid, no_plus, no_minus, leading_digits-All (c ∷ s) (p, h)) refl

read_int-to_string :
    (n fallback : ℕ) → n ≤ password_max_length → read_int (some (to_string 10 n)) fallback ≡ n
read_int-to_string n fallback h =
    read_int-digits (to_string 10 n) fallback
      (is_empty_of_ne (to_string 10 n) (to_string-ne-nil 10 n))
      (All-to_string (λ c. is_digit c ≡ true) 10 n decimal_digit)
    ∙ rw (parse_int-to_string 10 n (omega arith, omega arith)) (omega (arith, h))

-- The settings that a field adds.
abbrev pub length_settings : Field → List Setting
length_settings (whole n) = record { key = min_length_key; value = to_string 10 n } ∷ []
length_settings _ = []

abbrev pub flag_settings : SettingKey → Field → List Setting
flag_settings key (boolean b) =
    record { key = key; value = if b then codes "true" else codes "false" } ∷ []
flag_settings key _ = []

abbrev pub IsShort : Field → Type 0
IsShort (whole n) = n ≤ password_max_length
IsShort _ = Unit

settings_of : Patch → List Setting
settings_of (refused e) = []
settings_of (patched p) = p

is_patched : Patch → Bool
is_patched (refused e) = false
is_patched (patched p) = true

pub patched-inj : (p q : List Setting) → patched p ≡ patched q → p ≡ q
unfolding settings_of
patched-inj p q e = ap settings_of e

refused-ne {ℓ} : {A : Type ℓ} → (e : PatchError) (p : List Setting) → refused e ≡ patched p → A
unfolding is_patched
refused-ne e p h = absurd (let z = ap is_patched h in cc)

pub length_step-patched :
    (f : Field) (p : List Setting) → length_step f ≡ patched p → (p ≡ length_settings f) × IsShort f
unfolding length_step
length_step-patched missing p e = (sym (patched-inj [] p e), tt)
length_step-patched (whole n) p e = elim (Bool-cases (ltb password_max_length n)) [
  | inl l ↦ refused-ne _ p (rw l at e)
  | inr l ↦ (sym (patched-inj _ p (rw l at e)), ground (arith, l))
]
length_step-patched (boolean b) p e = refused-ne _ p e
length_step-patched other p e = refused-ne _ p e

pub flag_step-patched :
    (key : SettingKey) (f : Field) (acc : Patch) (p : List Setting)
    → flag_step key f acc ≡ patched p
    → (q : List Setting) × ((acc ≡ patched q) × (p ≡ q ++ flag_settings key f))
unfolding flag_step
flag_step-patched key f (refused x) p e = refused-ne x p e
flag_step-patched key missing (patched q) p e =
    (q, (refl, sym (patched-inj q p e) ∙ sym (append-nil q)))
flag_step-patched key (whole n) (patched q) p e = refused-ne _ p e
flag_step-patched key (boolean b) (patched q) p e = (q, (refl, sym (patched-inj _ p e)))
flag_step-patched key other (patched q) p e = refused-ne _ p e

pub not_empty-patched :
    (acc : Patch) (p : List Setting) → not_empty acc ≡ patched p → acc ≡ patched p
unfolding not_empty
not_empty-patched (refused x) p e = e
not_empty-patched (patched []) p e = refused-ne _ p e
not_empty-patched (patched (s ∷ q)) p e = e

pub store_all-append :
    (p q : List Setting) (settings : Settings)
    → store_all settings (p ++ q) ≡ store_all (store_all settings p) q
unfolding store_all
store_all-append [] q settings = refl
store_all-append (s ∷ p) q settings = store_all-append p q (store settings s)

-- A field leaves the rows of the other keys alone.
pub store_all-other :
    (settings : Settings) (own key : SettingKey) (f : Field)
    → same_key own key ≡ false
    → store_all settings (flag_settings own f) key ≡ settings key
unfolding store_all store
store_all-other settings own key missing n = refl
store_all-other settings own key (whole k) n = refl
store_all-other settings own key (boolean b) n = rw n refl
store_all-other settings own key other n = refl

pub store_all-length-other :
    (settings : Settings) (key : SettingKey) (f : Field)
    → same_key min_length_key key ≡ false
    → store_all settings (length_settings f) key ≡ settings key
unfolding store_all store
store_all-length-other settings key missing n = refl
store_all-length-other settings key (whole k) n = rw n refl
store_all-length-other settings key (boolean b) n = refl
store_all-length-other settings key other n = refl

pub read_bool-own :
    (settings : Settings) (key : SettingKey) (f : Field) (fallback : Bool)
    → same_key key key ≡ true
    → read_bool (store_all settings (flag_settings key f) key) fallback
      ≡ flag_or f (read_bool (settings key) fallback)
unfolding store_all store read_bool
read_bool-own settings key missing fallback own = refl
read_bool-own settings key (whole n) fallback own = refl
read_bool-own settings key (boolean true) fallback own = rw own refl
read_bool-own settings key (boolean false) fallback own = rw own refl
read_bool-own settings key other fallback own = refl

pub read_int-own :
    (settings : Settings) (f : Field) (fallback : ℕ)
    → IsShort f
    → read_int (store_all settings (length_settings f) min_length_key) fallback
      ≡ length_or f (read_int (settings min_length_key) fallback)
unfolding store_all store
read_int-own settings missing fallback h = refl
read_int-own settings (whole n) fallback h = read_int-to_string n fallback h
read_int-own settings (boolean b) fallback h = refl
read_int-own settings other fallback h = refl
