-- ===== src/Allowlist.antt =====
-- The entries of the allowlist, server/src/utils/cidr-match.js: an address or a network of either
-- family, and the test whether an address is in one.
pub mod Matching
pub mod Canonical
use cidrella.Base.{
  ℕ, zero, suc, ◌-◌, ◌^◌, bit_and, bit_xor, Bool, true, false, not, ◌&&◌, ◌||◌, Option, none, some,
  List, [], ◌∷◌, ◌++◌, length, all, any, ltb, leb, ◌==◌, if◌then◌else◌, ◌>>=◌, ◌>>◌, check, is_some,
}
use cidrella.Base.Text.{Text, split, trim, to_string, parse_int, is_digit}
use cidrella.Address.{ParsedIp, IpOptions, parse_ip}
use cidrella.Address.Format.{format_ip, format_runs}
use cidrella.Cidr.{slash}

-- `STRICT`
abbrev pub strict : IpOptions
strict = record { zone_id = false; map_v4 = false; embedded_v4 = false }

pub record CidrEntry : Type 0 where
  pub bits : ℕ
  pub network : ℕ
  pub mask : ℕ
  pub prefix : ℕ

-- `full ^ ((1n << hostBits) - 1n)`
unfoldable pub entry_mask : ℕ → ℕ → ℕ
entry_mask bits prefix = bit_xor (2 ^ bits - 1) (2 ^ (bits - prefix) - 1)

unfoldable pub build_entry : ParsedIp → ℕ → CidrEntry
build_entry parsed prefix = record {
  bits = parsed.bits;
  network = bit_and parsed.value (entry_mask parsed.bits prefix);
  mask = entry_mask parsed.bits prefix;
  prefix = prefix;
}

-- The text of a prefix length: one to three digits, at most `bits`.
unfoldable pub read_prefix : Text → ℕ → Option ℕ
read_prefix s bits =
    if leb 1 (length s) && leb (length s) 3 && all is_digit s
    then (let prefix = parse_int 10 s in if ltb bits prefix then none else some prefix)
    else none

-- The segments of the text at `/`.
unfoldable pub parse_segments : List Text → Option CidrEntry
parse_segments [] = none
parse_segments (a ∷ []) = parse_ip strict a >>= λ parsed. some (build_entry parsed parsed.bits)
parse_segments (a ∷ (b ∷ [])) = parse_ip strict a >>= λ parsed.
    read_prefix b parsed.bits >>= λ prefix. some (build_entry parsed prefix)
parse_segments (a ∷ (b ∷ (c ∷ rest))) = none

unfoldable pub parse_cidr_entry : Text → Option CidrEntry
parse_cidr_entry entry = parse_segments (split slash (trim entry))

unfoldable pub is_valid_ip_or_cidr : Text → Bool
is_valid_ip_or_cidr entry = is_some (parse_cidr_entry entry)

unfoldable pub format_cidr_entry : CidrEntry → Text
format_cidr_entry entry = format_ip entry.network entry.bits ++ slash ∷ to_string 10 entry.prefix

unfoldable pub canonicalize_ip_or_cidr : Text → Option Text
canonicalize_ip_or_cidr value = parse_cidr_entry value >>= λ parsed. some (format_cidr_entry parsed)

abbrev pub matches_parsed : Option ParsedIp → CidrEntry → Bool
matches_parsed none entry = false
matches_parsed (some p) entry =
    if not (p.bits == entry.bits) then false else bit_and p.value entry.mask == entry.network

unfoldable pub ip_matches_entry : Text → CidrEntry → Bool
ip_matches_entry ip entry = matches_parsed (parse_ip strict ip) entry

unfoldable pub ip_in_any : Text → List CidrEntry → Bool
ip_in_any ip [] = false
ip_in_any ip (e ∷ parsed_entries) =
    let rest = ip_in_any ip parsed_entries in if ip_matches_entry ip e then true else rest

unfoldable pub allowlist_runs : Unit {0}
unfolding format_runs entry_mask build_entry read_prefix parse_segments parse_cidr_entry
    is_valid_ip_or_cidr format_cidr_entry canonicalize_ip_or_cidr ip_matches_entry ip_in_any
allowlist_runs = tt
