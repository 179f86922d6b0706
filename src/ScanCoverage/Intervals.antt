-- ===== src/ScanCoverage/Intervals.antt =====
-- The scheduler and the database agree on which intervals mean a scan.
use cidrella.Base.{
  ◌≡◌, refl, sym, ap, ◌∙◌, subst, arith, Bool, true, not, ◌&&◌, ◌||◌, inl, inr, Option, none, some,
  List, [], ◌∷◌, ltb, ◌==◌, all, any, All, is_some, Bool-cases,
}
use cidrella.Base.Text.{
  Text, text_eq, is_empty, is_digit, is_space, parse_int, trim, trim_start, trim_end,
}
use cidrella.Address.Format.Runs.{text_eq_sound}
use cidrella.ScanCoverage.{
  ScanInterval, interval_ms, keys_with_ms, scanning_interval_keys, minutes_ms, interval_in,
  interval_to_ms, sql_trim_start, sql_trim_end, sql_trim, names_interval, covered_interval,
}

-- What SQL takes for minutes.
abbrev is_minutes : Text → Bool
is_minutes raw = not (is_empty raw) && all is_digit raw && ltb 0 (parse_int 10 raw)

is_some-minutes_ms : (raw : Text) → is_some (minutes_ms raw) ≡ is_minutes raw
unfolding minutes_ms
is_some-minutes_ms raw = ground arith

-- A key that means "do not scan" is no number of minutes, and no later key.
abbrev AreApart : List ScanInterval → Type 0
AreApart [] = Unit
AreApart (i ∷ is) =
    ((is_some i.ms || not (any (λ k. text_eq i.key k) (keys_with_ms is) || is_minutes i.key))
      ≡ true)
    × AreApart is

is_some-interval_in :
    (is : List ScanInterval) (raw : Text)
    → AreApart is
    → is_some (interval_in is raw) ≡ (any (λ k. text_eq raw k) (keys_with_ms is) || is_minutes raw)
unfolding interval_in keys_with_ms
is_some-interval_in [] raw h = is_some-minutes_ms raw
is_some-interval_in (i ∷ is) raw (p, h) = elim (Bool-cases (text_eq raw i.key)) [
  | inl hit ↦ elim (Bool-cases (is_some i.ms)) [
    | inl on ↦ rw (hit, on, hit) refl
    | inr off ↦
        let q =
          subst
            (λ s.
              (is_some i.ms || not (any (λ k. text_eq s k) (keys_with_ms is) || is_minutes s))
              ≡ true)
            (sym (text_eq_sound raw i.key hit)) p in
        rw (hit, off) (ground (arith, q, off))
  ]
  | inr miss ↦ elim (Bool-cases (is_some i.ms)) [
    | inl on ↦ rw (miss, on, miss) (is_some-interval_in is raw h)
    | inr off ↦ rw (miss, off) (is_some-interval_in is raw h)
  ]
]

-- A text whose white space is spaces.
abbrev pub HasPlainSpace : Text → Type 0
HasPlainSpace = All (λ c. is_space c ≡ (c == 32))

sql_trim_start-HasPlainSpace :
    (s : Text)
    → HasPlainSpace s
    → (trim_start s ≡ sql_trim_start s) × HasPlainSpace (sql_trim_start s)
unfolding trim_start sql_trim_start
sql_trim_start-HasPlainSpace [] h = (refl, tt)
sql_trim_start-HasPlainSpace (c ∷ s) (p, h) = elim (Bool-cases (c == 32)) [
  | inl e ↦ rw (p, e) (sql_trim_start-HasPlainSpace s h)
  | inr e ↦ rw (p, e) (refl, (p, h))
]

sql_trim_end-HasPlainSpace : (s : Text) → HasPlainSpace s → trim_end s ≡ sql_trim_end s
unfolding trim_end sql_trim_end
sql_trim_end-HasPlainSpace [] h = refl
sql_trim_end-HasPlainSpace (c ∷ s) (p, h) = rw (p, sql_trim_end-HasPlainSpace s h) refl

sql_trim-HasPlainSpace : (s : Text) → HasPlainSpace s → trim s ≡ sql_trim s
unfolding trim sql_trim
sql_trim-HasPlainSpace s h =
    let (same, k) = sql_trim_start-HasPlainSpace s h in
    ap trim_end same ∙ sql_trim_end-HasPlainSpace (sql_trim_start s) k

interval_ms-AreApart : AreApart interval_ms
unfolding interval_ms keys_with_ms
interval_ms-AreApart = (refl, (refl, (refl, (refl, (refl, (refl, (refl, tt)))))))

is_some-interval_to_ms :
    (value : Text)
    → HasPlainSpace value
    → is_some (interval_to_ms (some value)) ≡ covered_interval (some value)
unfolding interval_to_ms covered_interval names_interval scanning_interval_keys
is_some-interval_to_ms value h =
    rw (sql_trim-HasPlainSpace value h)
      (is_some-interval_in interval_ms (sql_trim value) interval_ms-AreApart)

abbrev pub IsPlainValue : Option Text → Type 0
IsPlainValue none = Unit
IsPlainValue (some s) = HasPlainSpace s

-- A stored interval, whose white space is spaces, makes the scheduler scan exactly when the database takes
-- the network for scanned. A missing one does neither.
pub interval_to_ms-covered :
    (value : Option Text)
    → IsPlainValue value
    → is_some (interval_to_ms value) ≡ covered_interval value
unfolding interval_to_ms covered_interval
interval_to_ms-covered none h = refl
interval_to_ms-covered (some value) h = is_some-interval_to_ms value h
