-- ===== src/PasswordPolicy.antt =====
-- The password policy, server/src/auth/password-policy.js. The rows of `settings` are a function from the
-- keys to their texts. The text of a description is left out.
pub mod Applied
pub mod Stored
use cidrella.Base.{
  ℕ, ◌≤◌, Bool, true, false, not, ◌&&◌, ◌||◌, Option, none, some, List, [], ◌∷◌, ◌++◌, ltb, leb,
  ◌==◌, if◌then◌else◌, any, length, min,
}
use cidrella.Base.Text.{
  Text, codes, text_eq, is_empty, is_digit, parse_int, to_string, trim_start, text_runs,
}

abbrev pub password_max_length : ℕ
password_max_length = 1024

pub record Policy : Type 0 where
  pub min_length : ℕ
  pub max_length : ℕ
  pub require_mixed_case : Bool
  pub require_number : Bool
  pub require_symbol : Bool

-- `build`, which adds the maximum
abbrev pub build : ℕ → Bool → Bool → Bool → Policy
build min_length mixed_case number symbol = record {
  min_length = min_length;
  max_length = password_max_length;
  require_mixed_case = mixed_case;
  require_number = number;
  require_symbol = symbol;
}

abbrev pub password_policy : Policy
password_policy = build 8 true true false

pub data PolicyError : Type 0 where
  is_required too_long too_short needs_both_cases needs_number needs_symbol : PolicyError

abbrev pub is_upper : ℕ → Bool
is_upper c = leb 65 c && leb c 90

abbrev pub is_lower : ℕ → Bool
is_lower c = leb 97 c && leb c 122

-- `[^A-Za-z0-9]`
abbrev pub is_symbol : ℕ → Bool
is_symbol c = not (is_upper c || is_lower c || is_digit c)

-- A password that is no text is `none`.
unfoldable pub password_policy_error : Option Text → Policy → Option PolicyError
password_policy_error none p = some is_required
password_policy_error (some s) p =
    if length s == 0
    then some is_required
    else if ltb p.max_length (length s)
    then some too_long
    else if ltb 0 p.min_length && ltb (length s) p.min_length
    then some too_short
    else if p.require_mixed_case && not (any is_upper s && any is_lower s)
    then some needs_both_cases
    else if p.require_number && not (any is_digit s)
    then some needs_number
    else if p.require_symbol && not (any is_symbol s)
    then some needs_symbol
    else none

-- `PASSWORD_POLICY_SETTINGS`
pub data SettingKey : Type 0 where
  min_length_key mixed_case_key number_key symbol_key : SettingKey

abbrev pub same_key : SettingKey → SettingKey → Bool
same_key min_length_key min_length_key = true
same_key mixed_case_key mixed_case_key = true
same_key number_key number_key = true
same_key symbol_key symbol_key = true
same_key _ _ = false

abbrev pub Settings : Type 0
Settings = SettingKey → Option Text

unfoldable pub read_bool : Option Text → Bool → Bool
read_bool none fallback = fallback
read_bool (some s) fallback =
    if text_eq s (codes "true") then true else if text_eq s (codes "false") then false else fallback

-- The digits that `Number.parseInt` reads.
unfoldable pub leading_digits : Text → Text
leading_digits [] = []
leading_digits (c ∷ s) = let rest = leading_digits s in if is_digit c then c ∷ rest else []

-- `Number.parseInt(s, 10)` of a text that is at least 0; any other is `none`, `NaN` among them. Of the
-- negative ones -0 is not below 0.
unfoldable pub unsigned : Text → Option ℕ
unsigned s =
    let digits = leading_digits s in if is_empty digits then none else some (parse_int 10 digits)

unfoldable pub if_zero : Option ℕ → Option ℕ
if_zero none = none
if_zero (some n) = if n == 0 then some 0 else none

unfoldable pub signed : Text → Option ℕ
signed [] = none
signed (c ∷ s) =
    if c == 43 then unsigned s else if c == 45 then if_zero (unsigned s) else unsigned (c ∷ s)

unfoldable pub at_most_max : Option ℕ → ℕ → ℕ
at_most_max none fallback = fallback
at_most_max (some n) fallback = min n password_max_length

unfoldable pub read_int : Option Text → ℕ → ℕ
read_int none fallback = fallback
read_int (some s) fallback = at_most_max (signed (trim_start s)) fallback

unfoldable pub effective_password_policy : Settings → Policy
effective_password_policy settings =
    build (read_int (settings min_length_key) password_policy.min_length)
      (read_bool (settings mixed_case_key) password_policy.require_mixed_case)
      (read_bool (settings number_key) password_policy.require_number)
      (read_bool (settings symbol_key) password_policy.require_symbol)

-- A field of the request: a number that is an integer of at least 0, a Boolean, or anything else.
pub data Field : Type 0 where
  missing : Field
  whole : ℕ → Field
  boolean : Bool → Field
  other : Field

pub record PolicyBody : Type 0 where
  pub min_length : Field
  pub mixed_case : Field
  pub number : Field
  pub symbol : Field

pub data PatchError : Type 0 where
  no_object bad_length nothing_to_update : PatchError
  no_boolean : SettingKey → PatchError

pub record Setting : Type 0 where
  pub key : SettingKey
  pub value : Text

pub data Patch : Type 0 where
  refused : PatchError → Patch
  patched : List Setting → Patch

unfoldable pub length_step : Field → Patch
length_step missing = patched []
length_step (whole n) =
    if ltb password_max_length n
    then refused bad_length
    else patched (record { key = min_length_key; value = to_string 10 n } ∷ [])
length_step (boolean b) = refused bad_length
length_step other = refused bad_length

-- One round of the loop over the Boolean fields.
unfoldable pub flag_step : SettingKey → Field → Patch → Patch
flag_step key f (refused e) = refused e
flag_step key missing (patched p) = patched p
flag_step key (whole n) (patched p) = refused (no_boolean key)
flag_step key (boolean b) (patched p) =
    patched (p ++ record { key = key; value = if b then codes "true" else codes "false" } ∷ [])
flag_step key other (patched p) = refused (no_boolean key)

unfoldable pub not_empty : Patch → Patch
not_empty (refused e) = refused e
not_empty (patched []) = refused nothing_to_update
not_empty (patched (s ∷ p)) = patched (s ∷ p)

-- A body that is no object is `none`.
unfoldable pub validate_policy_patch : Option PolicyBody → Patch
validate_policy_patch none = refused no_object
validate_policy_patch (some b) = not_empty (
    flag_step symbol_key b.symbol (
      flag_step number_key b.number
        (flag_step mixed_case_key b.mixed_case (length_step b.min_length))))

-- The row of a key is written.
unfoldable pub store : Settings → Setting → Settings
store settings s key = if same_key s.key key then some s.value else settings key

unfoldable pub store_all : Settings → List Setting → Settings
store_all settings [] = settings
store_all settings (s ∷ p) = store_all (store settings s) p

unfoldable pub policy_runs : Unit {0}
unfolding password_policy_error read_bool leading_digits unsigned if_zero signed at_most_max
    read_int effective_password_policy length_step flag_step not_empty validate_policy_patch store
    store_all text_runs
policy_runs = tt
