-- ===== src/Duid.antt =====
-- DHCP unique identifiers, server/src/utils/duid.js.
pub mod Embedded
pub mod RoundTrip
use cidrella.Base.{
  ℕ, ◌+◌, Bool, true, false, ◌&&◌, ◌||◌, Option, none, some, List, [], ◌∷◌, ◌++◌, leb, ◌==◌,
  if◌then◌else◌, map, length, all, drop, ◌>>=◌,
}
use cidrella.Base.Text.{
  Text, codes, split, join, trim, to_string, parse_int, is_digit, lower_char, text_runs,
}
use cidrella.Address.{colon}

-- `[0-9a-f]`
abbrev pub is_duid_digit : ℕ → Bool
is_duid_digit c = is_digit c || (leb 97 c && leb c 102)

abbrev pub is_byte_text : Text → Bool
is_byte_text [] = false
is_byte_text (a ∷ []) = false
is_byte_text (a ∷ (b ∷ [])) = is_duid_digit a && is_duid_digit b
is_byte_text (a ∷ (b ∷ (c ∷ s))) = false

-- `DUID_RE`: two to 130 bytes with a colon between them.
unfoldable pub duid_shape : Text → Bool
duid_shape s =
    let parts = split colon s in
    leb 2 (length parts) && leb (length parts) 130 && all is_byte_text parts

unfoldable pub normalize_duid : Text → Option Text
normalize_duid value =
    let duid = map lower_char (trim value) in if duid_shape duid then some duid else none

-- `parseInt(bytes[i] + bytes[i + 1], 16)`: `NaN` where both are missing, and the first alone where the
-- second is, since "undefined" begins with no digit.
unfoldable pub two_bytes : List Text → Option ℕ
two_bytes [] = none
two_bytes (a ∷ []) = some (parse_int 16 a)
two_bytes (a ∷ (b ∷ rest)) = some (parse_int 16 (a ++ b))

unfoldable pub mac_offset : Option ℕ → Option ℕ
mac_offset none = none
mac_offset (some type) = if type == 1 then some 8 else if type == 3 then some 4 else none

abbrev is_one : Option ℕ → Bool
is_one none = false
is_one (some n) = n == 1

unfoldable pub mac_at : Option ℕ → List Text → Option Text
mac_at none bytes = none
mac_at (some offset) bytes =
    if is_one (two_bytes (drop 2 bytes)) && length bytes == offset + 6
    then some (join colon (drop offset bytes))
    else none

unfoldable pub mac_from_duid : Text → Option Text
mac_from_duid value = do
  duid ← normalize_duid value
  let bytes = split colon duid
  mac_at (mac_offset (two_bytes bytes)) bytes

-- `s.padStart(2, '0')`
abbrev pad_two : Text → Text
pad_two [] = codes "00"
pad_two (c ∷ []) = 48 ∷ c ∷ []
pad_two (c ∷ (d ∷ s)) = c ∷ d ∷ s

unfoldable pub byte_text : ℕ → Text
byte_text b = pad_two (to_string 16 b)

unfoldable pub duid_from_bytes : List ℕ → Option Text
duid_from_bytes [] = none
duid_from_bytes (b ∷ bs) = some (join colon (map byte_text (b ∷ bs)))

unfoldable pub duid_runs : Unit {0}
unfolding duid_shape normalize_duid two_bytes mac_offset mac_at mac_from_duid byte_text
    duid_from_bytes text_runs
duid_runs = tt
