-- ===== src/Base/Text.antt =====
-- The string operations of the language, over lists of UTF-16 code units: `indexOf`, `split`,
-- `join`, `trim`, `toString(radix)` and `parseInt`.
pub mod Splitting
pub mod Radix
pub mod Pairs
pub mod Trimming
use Prim.Native.Char.{code}
use Prim.Native.String.{String}
use Prim.Native.Nat.{ℕ, zero, suc, ◌+◌, ◌-◌, ◌*◌, ◌/◌, ◌%◌}
use mathlib.Core.Bool.{Bool, true, false, ◌&&◌, ◌||◌}
use mathlib.Core.List.{List, [], ◌∷◌, ◌++◌}
use mathlib.Core.Option.{Option, none, some}
use mathlib.Core.Option
use mathlib.Core.Path.{◌≡◌, refl}
use cidrella.Base.Tests.{ltb, leb, ◌==◌, if◌then◌else◌}
use cidrella.Base.Lists.{any, all}

abbrev pub Text : Type 0
Text = List ℕ

-- The code units of an ASCII literal.
abbrev pub codes : String → Text
codes String.[] = []
codes (String.◌∷◌ c s) = code c ∷ codes s

-- `s === t`
abbrev pub text_eq : Text → Text → Bool
text_eq [] [] = true
text_eq [] (d ∷ t) = false
text_eq (c ∷ s) [] = false
text_eq (c ∷ s) (d ∷ t) = c == d && text_eq s t

abbrev pub is_empty : Text → Bool
is_empty [] = true
is_empty (c ∷ s) = false

-- `s.includes(c)` of one character
abbrev pub includes : ℕ → Text → Bool
includes c = any (λ x. x == c)

-- `s.startsWith(p)`
abbrev pub starts_with : Text → Text → Bool
starts_with [] s = true
starts_with (c ∷ p) [] = false
starts_with (c ∷ p) (d ∷ s) = c == d && starts_with p s

-- `s.indexOf(p)` and `s.lastIndexOf(p)` of a text that is not empty; -1 is `none`.
unfoldable pub index_of : Text → Text → Option ℕ
index_of p [] = none
index_of p (c ∷ s) = if starts_with p (c ∷ s) then some 0 else Option.map suc (index_of p s)

abbrev pub later_or : Option ℕ → Option ℕ → Option ℕ
later_or none o = o
later_or (some i) o = some (suc i)

unfoldable pub last_index_of : Text → Text → Option ℕ
last_index_of p [] = none
last_index_of p (c ∷ s) =
    later_or (last_index_of p s) (if starts_with p (c ∷ s) then some 0 else none)

abbrev pub cons_head : ℕ → List Text → List Text
cons_head c [] = (c ∷ []) ∷ []
cons_head c (p ∷ ps) = (c ∷ p) ∷ ps

-- `s.split(sep)` by one character
unfoldable pub split : ℕ → Text → List Text
split sep [] = [] ∷ []
split sep (c ∷ s) = let rest = split sep s in if c == sep then [] ∷ rest else cons_head c rest

-- `s.split('::')` by two characters, for a separator `cc`
unfoldable pub split_pair : ℕ → Text → List Text
split_pair c [] = [] ∷ []
split_pair c (a ∷ []) = (a ∷ []) ∷ []
split_pair c (a ∷ (b ∷ s)) =
    let cut = [] ∷ split_pair c s in
    let keep = cons_head a (split_pair c (b ∷ s)) in if a == c && b == c then cut else keep

-- `ps.join(sep)`
unfoldable pub join : ℕ → List Text → Text
join sep [] = []
join sep (p ∷ []) = p
join sep (p ∷ (q ∷ ps)) = p ++ sep ∷ join sep (q ∷ ps)

-- What `trim` and `\s` take for white space.
unfoldable pub is_space : ℕ → Bool
is_space c =
    (leb 9 c && leb c 13)
    || c == 32
    || c == 160
    || c == 5760
    || (leb 8192 c && leb c 8202)
    || c == 8232
    || c == 8233
    || c == 8239
    || c == 8287
    || c == 12288
    || c == 65279

unfoldable pub trim_start : Text → Text
trim_start [] = []
trim_start (c ∷ s) = if is_space c then trim_start s else c ∷ s

unfoldable pub trim_end : Text → Text
trim_end [] = []
trim_end (c ∷ s) = let rest = trim_end s in if is_space c && is_empty rest then [] else c ∷ rest

unfoldable pub trim : Text → Text
trim s = trim_end (trim_start s)

-- One digit of `toString(radix)`, a lower-case letter from ten on.
abbrev pub digit_char : ℕ → ℕ
digit_char d = if ltb d 10 then 48 + d else 87 + d

-- The digits of `n` in front of `out`; each round divides `n` by the radix.
unfoldable pub to_radix : ℕ → ℕ → ℕ → Text → Text
to_radix zero r n out = out
to_radix (suc f) r n out =
    let out' = digit_char (n % r) ∷ out in
    let rest = to_radix f r (n / r) out' in if n / r == 0 then out' else rest

-- `n.toString(radix)`; `n + 1` rounds are enough.
unfoldable pub to_string : ℕ → ℕ → Text
to_string r n = to_radix (suc n) r n []

-- `\d` and `[0-9a-fA-F]`
abbrev pub is_digit : ℕ → Bool
is_digit c = leb 48 c && leb c 57

abbrev pub is_hex_digit : ℕ → Bool
is_hex_digit c = is_digit c || (leb 97 c && leb c 102) || (leb 65 c && leb c 70)

abbrev pub digit_value : ℕ → ℕ
digit_value c = if leb c 57 then c - 48 else if leb c 70 then c - 55 else c - 87

-- `parseInt(s, radix)` of a text of digits, behind the digits read so far.
unfoldable pub parse_from : ℕ → ℕ → Text → ℕ
parse_from r n [] = n
parse_from r n (c ∷ s) = parse_from r (n * r + digit_value c) s

unfoldable pub parse_int : ℕ → Text → ℕ
parse_int r s = parse_from r 0 s

-- `toLowerCase` of an ASCII code unit; no other one is turned into a character that its callers accept.
abbrev pub lower_char : ℕ → ℕ
lower_char c = if leb 65 c && leb c 90 then c + 32 else c

-- Named on an `unfolding` line, it opens all of these for a test.
unfoldable pub text_runs : Unit {0}
unfolding split split_pair join trim trim_start trim_end is_space index_of last_index_of to_string
    to_radix parse_int parse_from
text_runs = tt

text_tests :
    (split b'.' (codes "10..1") ≡ codes "10" ∷ [] ∷ codes "1" ∷ [])
    × (split_pair b':' (codes "a::b") ≡ codes "a" ∷ codes "b" ∷ [])
    × (join b'.' (codes "a" ∷ codes "b" ∷ []) ≡ codes "a.b")
    × (trim (codes "  x y ") ≡ codes "x y")
    × (index_of (codes "::") (codes "1:::2") ≡ some 1)
    × (last_index_of (codes "::") (codes "1:::2") ≡ some 2)
    × (to_string 16 65535 ≡ codes "ffff")
    × (to_string 10 0 ≡ codes "0")
    × (parse_int 16 (codes "Ff0a") ≡ 65290)
unfolding text_runs
text_tests = (refl, refl, refl, refl, refl, refl, refl, refl, refl)
