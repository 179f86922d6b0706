-- ===== src/ConfigValue.antt =====
-- The values that land in a configuration file, server/src/utils/config-value-validation.js.
pub mod Safe
pub mod Names
use cidrella.Base.{
  ℕ, Bool, true, false, not, ◌&&◌, ◌||◌, Option, none, some, List, [], ◌∷◌, ltb, leb, ◌==◌,
  if◌then◌else◌, any, all, length,
}
use cidrella.Base.Text.{Text, codes, text_eq, is_empty, includes, split, is_digit}

-- Why a value is refused.
pub data ValueError : Type 0 where
  empty too_long newline control_character equals_sign comma : ValueError

-- `/[\r\n]/`
abbrev pub is_newline : ℕ → Bool
is_newline c = c == 10 || c == 13

-- `/[\x00-\x08\x0b-\x1f\x7f]/`
abbrev pub is_control : ℕ → Bool
is_control c = leb c 8 || (leb 11 c && leb c 31) || c == 127

abbrev pub max_value_length : ℕ
max_value_length = 4096

unfoldable pub validate_config_safe_value : Bool → Bool → Text → Option ValueError
validate_config_safe_value allow_comma allow_equals value =
    if is_empty value
    then some empty
    else if ltb max_value_length (length value)
    then some too_long
    else if any is_newline value
    then some newline
    else if any is_control value
    then some control_character
    else if not allow_equals && includes 61 value
    then some equals_sign
    else if not allow_comma && includes 44 value
    then some comma
    else none

unfoldable pub validate_txt_value : Text → Option ValueError
validate_txt_value value =
    if is_empty value
    then some empty
    else if ltb max_value_length (length value)
    then some too_long
    else if any is_newline value
    then some newline
    else if any is_control value
    then some control_character
    else none

-- `[0-9a-f]`
abbrev pub is_lower_hex : ℕ → Bool
is_lower_hex c = is_digit c || (leb 97 c && leb c 102)

-- `[0-9a-f]+`
abbrev pub is_hex_label : Text → Bool
is_hex_label s = not (is_empty s) && all is_lower_hex s

-- The expression asks for labels of hex digits with a dot between two of them.
unfoldable pub is_valid_ptr_name : Text → Bool
is_valid_ptr_name name =
    not (is_empty name) && leb (length name) 63 && all is_hex_label (split 46 name)

-- `[a-zA-Z0-9]`
abbrev pub is_alphanumeric : ℕ → Bool
is_alphanumeric c = is_digit c || (leb 97 c && leb c 122) || (leb 65 c && leb c 90)

-- `[a-zA-Z0-9._-]`
abbrev pub is_name_character : ℕ → Bool
is_name_character c = is_alphanumeric c || c == 46 || c == 95 || c == 45

-- `[a-zA-Z0-9._-]*[a-zA-Z0-9]`
abbrev pub ends_name : Text → Bool
ends_name [] = false
ends_name (c ∷ []) = is_alphanumeric c
ends_name (c ∷ (d ∷ s)) = is_name_character c && ends_name (d ∷ s)

-- `/^[a-zA-Z0-9]([a-zA-Z0-9._-]*[a-zA-Z0-9])?$/`
abbrev pub is_name : Text → Bool
is_name [] = false
is_name (c ∷ s) = is_alphanumeric c && (is_empty s || ends_name s)

-- `name.replace(/\.$/, '')`
unfoldable pub drop_last_dot : Text → Text
drop_last_dot [] = []
drop_last_dot (c ∷ []) = if c == 46 then [] else c ∷ []
drop_last_dot (c ∷ (d ∷ s)) = c ∷ drop_last_dot (d ∷ s)

unfoldable pub is_valid_record_name : Text → Bool
is_valid_record_name name =
    text_eq name (codes "@")
    || (not (is_empty name) && leb (length name) 253 && is_name (drop_last_dot name))

unfoldable pub config_runs : Unit {0}
unfolding validate_config_safe_value validate_txt_value is_valid_ptr_name drop_last_dot
    is_valid_record_name split
config_runs = tt
