-- ===== src/DhcpOptions/Lookup.antt =====
-- The catalogs are consistent: a code names one entry, and every entry but the built-in one can be set.
use mathlib.Core.List.{Memᴰ}
use cidrella.Base.{
  ℕ, ◌≡◌, ◌≢◌, ◌↔◌, ◌⊎◌, inl, inr, refl, sym, ap, ◌∙◌, subst, arith, Bool, true, false, not, ◌&&◌,
  none, some, List, [], ◌∷◌, ltb, ◌==◌, ==_iff, any, all, length, Bool-cases, Option-cases,
  if◌then◌else◌, some-inj,
}
use cidrella.Base.Text.{Text, text_eq}
use cidrella.DhcpCatalog.{
  OptionType, select, DhcpOption, dhcp_option_groups, later_entry, by_code, Catalog, catalog_v4,
  catalog_v6, option_catalog_for,
}
use cidrella.DhcpOptions.{is_allowed_in, is_option_code_allowed, option_runs}

-- No entry of the list has the code.
abbrev lacks_code : List DhcpOption → ℕ → Bool
lacks_code os code = all (λ o. not (o.code == code)) os

abbrev distinct_codes : List DhcpOption → Bool
distinct_codes [] = true
distinct_codes (o ∷ os) = lacks_code os o.code && distinct_codes os

v4_distinct : distinct_codes catalog_v4.options ≡ true
unfolding option_runs
v4_distinct = refl

v6_distinct : distinct_codes catalog_v6.options ≡ true
unfolding option_runs
v6_distinct = refl

lacks-by_code :
    (os : List DhcpOption) (code : ℕ) → lacks_code os code ≡ true → by_code os code ≡ none
unfolding by_code
lacks-by_code [] code h = refl
lacks-by_code (o ∷ os) code h =
    let rest = lacks-by_code os code (ground arith) in rw rest (ground arith)

by_code-Mem :
    (os : List DhcpOption) (code : ℕ) (o : DhcpOption)
    → by_code os code ≡ some o
    → Memᴰ o os × (o.code ≡ code)
unfolding by_code
by_code-Mem [] code o h = absurd (cc)
by_code-Mem (p ∷ os) code o h = elim (Option-cases (by_code os code)) [
  | inr (q, e) ↦
      let (m, c) = by_code-Mem os code o (e ∙ subst (λ t. later_entry t code p ≡ some o) e h) in
      (Memᴰ.tail m, c)
  | inl e ↦ here (subst (λ t. later_entry t code p ≡ some o) e h)
]
  where
    here : later_entry none code p ≡ some o → Memᴰ o (p ∷ os) × (o.code ≡ code)
    here h = elim (Bool-cases (p.code == code)) [
      | inl e ↦
          let same : p ≡ o = some-inj (sym (ap (λ b. if b then some p else none) e) ∙ h) in
          (Memᴰ.head (sym same), sym (ap (λ q. q.code) same) ∙ (==_iff p.code code).0 e)
      | inr e ↦ absurd (cc)
    ]

lacks-Mem :
    (os : List DhcpOption) (code : ℕ) (o : DhcpOption)
    → lacks_code os code ≡ true
    → Memᴰ o os
    → o.code ≢ code
lacks-Mem [] code o h m c = elim m [ ]
lacks-Mem (p ∷ os) code o h (Memᴰ.head e) c = ground (arith, e)
lacks-Mem (p ∷ os) code o h (Memᴰ.tail m) c = lacks-Mem os code o (ground arith) m c

Mem-by_code :
    (os : List DhcpOption) (code : ℕ) (o : DhcpOption)
    → distinct_codes os ≡ true
    → Memᴰ o os
    → o.code ≡ code
    → by_code os code ≡ some o
unfolding by_code
Mem-by_code [] code o d m c = elim m [ ]
Mem-by_code (p ∷ os) code o d (Memᴰ.head e) c =
    let found = ap (λ q. q.code) (sym e) ∙ c in
    let rest = lacks-by_code os code (subst (λ n. lacks_code os n ≡ true) found (ground arith)) in
    rw (rest, (==_iff p.code code).1 found) (ap some (sym e))
Mem-by_code (p ∷ os) code o d (Memᴰ.tail m) c = rw (Mem-by_code os code o (ground arith) m c) refl

catalog_distinct : (family : ℕ) → distinct_codes (option_catalog_for family).options ≡ true
unfolding option_catalog_for
catalog_distinct family = ground (arith, v4_distinct, v6_distinct)

-- Looking up a code in the catalog of a family gives an entry exactly when the entry is in the catalog
-- and has that code.
pub by_code_iff :
    (family code : ℕ) (o : DhcpOption)
    → (by_code (option_catalog_for family).options code ≡ some o)
      ↔ (Memᴰ o (option_catalog_for family).options × (o.code ≡ code))
by_code_iff family code o = (
  by_code-Mem (option_catalog_for family).options code o,
  (λ (m, c). Mem-by_code (option_catalog_for family).options code o (catalog_distinct family) m c),
)

all-Mem :
    (check : DhcpOption → Bool) (os : List DhcpOption) (o : DhcpOption)
    → all check os ≡ true
    → Memᴰ o os
    → check o ≡ true
all-Mem check [] o h m = elim m [ ]
all-Mem check (p ∷ os) o h (Memᴰ.head e) = rw e (ground arith)
all-Mem check (p ∷ os) o h (Memᴰ.tail m) = all-Mem check os o (ground arith) m

abbrev same : Bool → Bool → Bool
same true b = b
same false b = not b

abbrev is_select : OptionType → Bool
is_select select = true
is_select type = false

-- Whether the group is one of those displayed.
unfoldable pub is_displayed : Text → Bool
is_displayed group = any (λ g. text_eq g.name group) dhcp_option_groups

-- The entry's code can be set unless it is built in, its group is displayed, and it has choices exactly
-- when one of them is what it takes.
unfoldable is_consistent : Catalog → DhcpOption → Bool
is_consistent catalog o =
    same (is_allowed_in catalog o.code) (not o.built_in)
    && is_displayed o.group
    && same (is_select o.type) (ltb 0 (length o.choices))

v4_consistent : all (is_consistent catalog_v4) catalog_v4.options ≡ true
unfolding option_runs is_displayed is_consistent
v4_consistent = refl

v6_consistent : all (is_consistent catalog_v6) catalog_v6.options ≡ true
unfolding option_runs is_displayed is_consistent
v6_consistent = refl

catalog_cases :
    (family : ℕ)
    → (option_catalog_for family ≡ catalog_v4) ⊎ (option_catalog_for family ≡ catalog_v6)
unfolding option_catalog_for
catalog_cases family = elim (Bool-cases (family == 6)) [
  | inl e ↦ inr (ap (λ b. if b then catalog_v6 else catalog_v4) e)
  | inr e ↦ inl (ap (λ b. if b then catalog_v6 else catalog_v4) e)
]

all_consistent :
    (family : ℕ)
    → all (is_consistent (option_catalog_for family)) (option_catalog_for family).options ≡ true
all_consistent family = elim (catalog_cases family) [
  | inl e ↦ subst (λ c. all (is_consistent c) c.options ≡ true) (sym e) v4_consistent
  | inr e ↦ subst (λ c. all (is_consistent c) c.options ≡ true) (sym e) v6_consistent
]

three_true : (a b c : Bool) → (a && b && c) ≡ true → (a ≡ true) × (b ≡ true) × (c ≡ true)
three_true a b c h = ground arith

same_eq : (a b : Bool) → same a b ≡ true → a ≡ b
same_eq true b h = sym h
same_eq false b h = ground arith

select_iff :
    (type : OptionType) (choices : List Text)
    → same (is_select type) (ltb 0 (length choices)) ≡ true
    → (type ≡ select) ↔ (choices ≢ [])
select_iff type [] h = ((λ e. absurd (cc)), (λ ne. absurd (ne refl)))
select_iff type (c ∷ choices) h = ((λ e f. cc), (λ ne. is_select_eq type (ground arith)))
  where
    is_select_eq : (type : OptionType) → is_select type ≡ true → type ≡ select
    is_select_eq type h = ground arith

-- Each entry of a family's catalog can be set unless it is built in, is in a group that is displayed,
-- and is of the type that takes a choice exactly when it has choices.
pub catalog_consistent :
    (family : ℕ) (o : DhcpOption)
    → Memᴰ o (option_catalog_for family).options
    → (is_option_code_allowed o.code family ≡ not o.built_in)
      × (is_displayed o.group ≡ true)
      × ((o.type ≡ select) ↔ (o.choices ≢ []))
unfolding is_option_code_allowed is_consistent
catalog_consistent family o m =
    let catalog = option_catalog_for family in
    let h = all-Mem (is_consistent catalog) catalog.options o (all_consistent family) m in
    let (settable, displayed, choices) =
      three_true (same (is_allowed_in catalog o.code) (not o.built_in)) (is_displayed o.group)
        (same (is_select o.type) (ltb 0 (length o.choices))) h in
    (same_eq _ _ settable, displayed, select_iff o.type o.choices choices)
