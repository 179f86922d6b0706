-- ===== src/Address/Format.antt =====
-- Rendering an address, its canonical spelling and its sort key (server/src/utils/address.js).
pub mod Runs
use cidrella.Base.{
  ℕ, zero, suc, ◌+◌, ◌-◌, ◌/◌, ◌^◌, bit_and, ◌≡◌, refl, Bool, true, false, Option, none, some, List,
  [], ◌∷◌, ◌++◌, map, length, take, drop, replicate, ltb, leb, ◌==◌, if◌then◌else◌, ◌>>=◌,
}
use cidrella.Base.Text.{Text, codes, text_eq, join, to_string}
use cidrella.Address.{
  ipv4_bits, ipv6_bits, dot, colon, zero_text, ParsedIp, default_options, parse_ip, address_runs,
}

-- The texts of `(value >> shift) & mask` for each shift of the loop.
abbrev pub fields : ℕ → ℕ → ℕ → List ℕ → List Text
fields radix mask value = map (λ shift. to_string radix (bit_and (value / 2 ^ shift) mask))

abbrev pub octets : ℕ → List Text
octets value = fields 10 0xff value (24 ∷ 16 ∷ 8 ∷ 0 ∷ [])

abbrev pub groups : ℕ → List Text
groups value = fields 16 0xffff value (112 ∷ 96 ∷ 80 ∷ 64 ∷ 48 ∷ 32 ∷ 16 ∷ 0 ∷ [])

-- The inner loop, `while (j < 8 && groups[j] === '0') j++`: how far `j` goes from here.
unfoldable pub zero_run : List Text → ℕ
zero_run [] = 0
zero_run (g ∷ gs) = if text_eq g zero_text then suc (zero_run gs) else 0

pub record Run : Type 0 where
  pub start : ℕ
  pub len : ℕ

-- The loop over `i`, with the groups from `i` on; `best.start` is read only if `best.len` is not 0.
-- A round moves on by a group at least, so that the fuel 8 is enough for 8 groups.
unfoldable pub best_run : ℕ → List Text → ℕ → Run → Run
best_run zero gs i best = best
best_run (suc fuel) [] i best = best
best_run (suc fuel) (g ∷ gs) i best =
    let n = zero_run (g ∷ gs) in
    let better = if ltb best.len n then record { start = i; len = n } else best in
    let after_run = best_run fuel (drop n (g ∷ gs)) (i + n) better in
    let after_group = best_run fuel gs (suc i) best in
    if text_eq g zero_text then after_run else after_group

abbrev pub no_run : Run
no_run = record { start = 0; len = 0 }

unfoldable pub compress : List Text → Text
compress gs =
    let best = best_run 8 gs 0 no_run in
    if leb 2 best.len
    then join colon (take best.start gs)
      ++ colon ∷ colon ∷ join colon (drop (best.start + best.len) gs)
    else join colon gs

unfoldable pub format_ip : ℕ → ℕ → Text
format_ip value bits =
    if bits == ipv4_bits then join dot (octets value) else compress (groups value)

unfoldable pub canonicalize_ip : Text → Option Text
canonicalize_ip str =
    parse_ip default_options str >>= λ parsed. some (format_ip parsed.value parsed.bits)

-- `s.padStart(width, '0')`
abbrev pub pad_start : ℕ → Text → Text
pad_start width s = replicate (width - length s) b'0' ++ s

-- The key of a parsed address: the family digit, then 32 hexadecimal digits.
unfoldable pub key_of : ParsedIp → Text
key_of parsed =
    (if parsed.bits == ipv4_bits then b'4' else b'6') ∷ pad_start 32 (to_string 16 parsed.value)

unfoldable pub sort_key : Text → Option Text
sort_key str = parse_ip default_options str >>= λ parsed. some (key_of parsed)

unfoldable pub format_runs : Unit {0}
unfolding address_runs zero_run best_run compress format_ip canonicalize_ip key_of sort_key
format_runs = tt

format_tests :
    (canonicalize_ip (codes " 010.0.0.1 ") ≡ some (codes "10.0.0.1"))
    × (canonicalize_ip (codes "::ffff:10.0.0.1") ≡ some (codes "10.0.0.1"))
    × (canonicalize_ip (codes "2001:DB8:0:0:1:0:0:0") ≡ some (codes "2001:db8:0:0:1::"))
    × (canonicalize_ip (codes "1.2.3.4::") ≡ none)
    × (canonicalize_ip (codes "1::2:3:4:5:6:7:8") ≡ none)
    × (canonicalize_ip (codes "fe80::1%eth0") ≡ some (codes "fe80::1"))
    × (canonicalize_ip (codes "::") ≡ some (codes "::"))
    × (sort_key (codes "10.0.0.1") ≡ some (codes "40000000000000000000000000a000001"))
unfolding format_runs
format_tests = (refl, refl, refl, refl, refl, refl, refl, refl)
