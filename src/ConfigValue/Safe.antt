-- ===== src/ConfigValue/Safe.antt =====
-- What the checks on configuration values let through.
use cidrella.Base.{
  ℕ, ◌≤◌, ◌≡◌, ◌≢◌, ◌↔◌, ◌⊎◌, inl, inr, refl, arith, Bool, true, false, not, ◌&&◌, none, some, [],
  ◌∷◌, ltb, ◌==◌, any, length, All, if◌then◌else◌,
}
use cidrella.Base.Text.{Text, is_empty, includes}
use cidrella.ConfigValue.{
  empty, too_long, newline, control_character, equals_sign, comma, max_value_length, is_newline,
  is_control, validate_config_safe_value,
}

-- A code unit that a line of a configuration file can hold: a tab, or none of the controls.
abbrev pub IsPrintable : ℕ → Type 0
IsPrintable c = (c ≡ 9) ⊎ ((32 ≤ c) × (c ≢ 127))

-- A value that stays in its field of the line.
abbrev pub IsField : Bool → Bool → Text → Type 0
IsField allow_comma allow_equals value =
    (value ≢ [])
    × (length value ≤ max_value_length)
    × (All IsPrintable value)
    × ((allow_equals ≡ true) ⊎ All (λ c. c ≢ 61) value)
    × ((allow_comma ≡ true) ⊎ All (λ c. c ≢ 44) value)

is_empty_iff : (s : Text) → (is_empty s ≡ false) ↔ (s ≢ [])
is_empty_iff [] = ((λ h. absurd (cc)), (λ h. absurd (h refl)))
is_empty_iff (c ∷ s) = ((λ h e. absurd (cc)), (λ h. refl))

-- What `any` denies, of each element.
any-All : (p : ℕ → Bool) (s : Text) → (any p s ≡ false) ↔ All (λ c. p c ≡ false) s
any-All p [] = ((λ h. tt), (λ h. refl))
any-All p (c ∷ s) =
    let (there, back) = any-All p s in
    ((λ h. (ground arith, there (ground arith))), (λ (h, k). rw (h, back k)))

pub All-imp {ℓ κ} :
    (P : ℕ → Type ℓ) (Q : ℕ → Type κ) (s : Text) → ((c : ℕ) → P c → Q c) → All P s → All Q s
All-imp P Q [] f h = tt
All-imp P Q (c ∷ s) f (p, h) = (f c p, All-imp P Q s f h)

IsPrintable-iff : (c : ℕ) → ((is_newline c ≡ false) × (is_control c ≡ false)) ↔ IsPrintable c
IsPrintable-iff c = ground arith

includes_iff :
    (allow : Bool) (d : ℕ) (s : Text)
    → ((not allow && includes d s) ≡ false) ↔ ((allow ≡ true) ⊎ All (λ c. c ≢ d) s)
includes_iff true d s = ((λ h. inl refl), (λ h. refl))
includes_iff false d s =
    let (there, back) = any-All (λ c. c == d) s in
    (
      (λ h. inr (All-imp (λ c. (c == d) ≡ false) (λ c. c ≢ d) s (λ c p e. ground arith) (there h))),
      (λ h. elim h [
        | inl e ↦ absurd (cc)
        | inr k ↦ back (All-imp (λ c. c ≢ d) (λ c. (c == d) ≡ false) s (λ c p. ground (arith, p)) k)
      ]),
    )

All-both {ℓ κ} :
    (P : ℕ → Type ℓ) (Q : ℕ → Type κ) (s : Text) → All P s → All Q s → All (λ c. P c × Q c) s
All-both P Q [] h k = tt
All-both P Q (c ∷ s) (p, h) (q, k) = ((p, q), All-both P Q s h k)

All-IsPrintable_iff :
    (s : Text) → ((any is_newline s ≡ false) × (any is_control s ≡ false)) ↔ All IsPrintable s
All-IsPrintable_iff s =
    let (to_lines, from_lines) = any-All is_newline s in
    let (to_controls, from_controls) = any-All is_control s in
    (
      (λ (h, k).
          All-imp _ _ s (λ c. (IsPrintable-iff c).0)
            (All-both (λ c. is_newline c ≡ false) (λ c. is_control c ≡ false) s (to_lines h)
              (to_controls k))),
      (λ h. (
        from_lines (All-imp _ _ s (λ c p. ((IsPrintable-iff c).1 p).0) h),
        from_controls (All-imp _ _ s (λ c p. ((IsPrintable-iff c).1 p).1) h),
      )),
    )

-- Six guards in a row, none of which refuses.
guards_pass {ℓ} :
    {A : Type ℓ} (b1 b2 b3 b4 b5 b6 : Bool) (e1 e2 e3 e4 e5 e6 : A)
    → (if b1
        then some e1
        else if b2
        then some e2
        else if b3
        then some e3
        else if b4
        then some e4
        else if b5
        then some e5
        else if b6
        then some e6
        else none)
      ≡ none
    → (b1 ≡ false) × (b2 ≡ false) × (b3 ≡ false) × (b4 ≡ false) × (b5 ≡ false) × (b6 ≡ false)
guards_pass b1 b2 b3 b4 b5 b6 e1 e2 e3 e4 e5 e6 h = ground arith

-- A value is accepted exactly when it is not empty, has at most 4096 code units, none of them a line
-- break or another control character but the tab, and holds `=` and `,` only where they are allowed.
pub validate_config_safe_value_iff :
    (allow_comma allow_equals : Bool) (value : Text)
    → (validate_config_safe_value allow_comma allow_equals value ≡ none)
      ↔ IsField allow_comma allow_equals value
unfolding validate_config_safe_value
validate_config_safe_value_iff allow_comma allow_equals value = (to, from)
  where
    to :
        validate_config_safe_value allow_comma allow_equals value ≡ none
        → IsField allow_comma allow_equals value
    to h =
        let (filled, short, lines, controls, equals, commas) =
          guards_pass _ _ _ _ _ _ empty too_long newline control_character equals_sign comma h in
        (
          (is_empty_iff value).0 filled,
          ground arith,
          (All-IsPrintable_iff value).0 (lines, controls),
          (includes_iff allow_equals 61 value).0 equals,
          (includes_iff allow_comma 44 value).0 commas,
        )

    from :
        IsField allow_comma allow_equals value
        → validate_config_safe_value allow_comma allow_equals value ≡ none
    from (filled, short, printable, equals, commas) =
        let (lines, controls) = (All-IsPrintable_iff value).1 printable in
        let fits : ltb max_value_length (length value) ≡ false = ground arith in
        rw (
          (is_empty_iff value).1 filled,
          fits,
          lines,
          controls,
          (includes_iff allow_equals 61 value).1 equals,
          (includes_iff allow_comma 44 value).1 commas,
        )
