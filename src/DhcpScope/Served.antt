-- ===== src/DhcpScope/Served.antt =====
-- What a backend is given to write: addresses of the scope's family, and texts safe in its files.
use cidrella.Base.{
  ℕ, ◌≡◌, refl, ap, subst, arith, Bool, true, false, ◌&&◌, inl, inr, Option, none, some, List, [],
  ◌∷◌, ◌==◌, ==_iff, All, Bool-cases, some-inj,
}
use cidrella.Base.Text.{Text, text_eq, is_empty, split, join, trim}
use cidrella.Address.{address_family}
use cidrella.Cidr.{is_valid_address}
use cidrella.ConfigValue.{validate_config_safe_value}
use cidrella.ConfigValue.Safe.{IsField, validate_config_safe_value_iff}
use cidrella.DhcpCatalog.{OptionType, by_code, option_catalog_for}
use cidrella.DhcpScope.{
  Entry, Scope, Interface, Cached, cached, in_family, keep_family, address_of, looked_up,
  resolve_to_ip, Content, addresses, plain, ServedOption, takes_address, is_text_list, keep_some,
  is_none, address_content, text_content, served_type, cons_served, resolve_all, option_value,
  serve_entry, serve, scope_options,
}

abbrev IsOf : ℕ → Text → Type 0
IsOf family s = (is_valid_address s ≡ true) × (address_family s ≡ some family)

abbrev Found : ℕ → Option Text → Type 0
Found family none = Unit
Found family (some s) = IsOf family s

in_family_eq : (family : ℕ) (o : Option ℕ) → in_family family o ≡ true → o ≡ some family
in_family_eq family none h = absurd (cc)
in_family_eq family (some f) h = ap some ((==_iff f family).0 h)

keep_family-Found : (s : Text) (family : ℕ) → Found family (keep_family s family)
unfolding keep_family
keep_family-Found s family =
    elim (Bool-cases (is_valid_address s && in_family family (address_family s))) [
      | inl e ↦ rw e (ground arith, in_family_eq family (address_family s) (ground arith))
      | inr e ↦ rw e tt
    ]

-- Each address in the cache is one of the family it was looked up for.
abbrev pub IsSound : List Cached → Type 0
IsSound = All (λ c. Found c.family c.found)

address_of-Found : (out : Option Text) (family : ℕ) → Found family (address_of out family)
address_of-Found none family = tt
address_of-Found (some out) family = keep_family-Found _ family

cached-Found :
    (cs : List Cached) (value : Text) (family : ℕ) (o : Option Text)
    → IsSound cs
    → cached cs value family ≡ some o
    → Found family o
unfolding cached
cached-Found [] value family o h e = absurd (cc)
cached-Found (c ∷ cs) value family o (p, h) e =
    elim (Bool-cases (c.family == family && text_eq c.name value)) [
      | inl hit ↦
          let found : c.found ≡ o = some-inj (rw hit at e) in
          subst (λ f. Found f o) ((==_iff c.family family).0 (ground arith))
            (subst (λ t. Found c.family t) found p)
      | inr miss ↦ cached-Found cs value family o h (rw miss at e)
    ]

module _ (getent : ℕ → Text → Option Text) where
  resolve_to_ip-Found :
      (cache : List Cached) (value : Text) (family : ℕ)
      → IsSound cache
      → IsSound (resolve_to_ip getent cache value family).0
        × Found family (resolve_to_ip getent cache value family).1
  unfolding resolve_to_ip
  resolve_to_ip-Found cache value family h = elim (Bool-cases (is_valid_address value)) [
    | inl e ↦ rw e (h, keep_family-Found value family)
    | inr e ↦ rw e (missed (cached cache value family) refl)
  ]
    where
      missed :
          (o : Option (Option Text))
          → cached cache value family ≡ o
          → IsSound (looked_up getent cache value family o).0
            × Found family (looked_up getent cache value family o).1
      missed none e =
          let found = address_of-Found (getent family value) family in ((found, h), found)
      missed (some o) e = (h, cached-Found cache value family o h e)

  keep_some-IsOf :
      (family : ℕ) (o : Option Text) (ss : List Text)
      → Found family o
      → All (IsOf family) ss
      → All (IsOf family) (keep_some o ss)
  keep_some-IsOf family none ss f h = h
  keep_some-IsOf family (some s) ss f h = (f, h)

  resolve_all-IsOf :
      (cache : List Cached) (parts : List Text) (family : ℕ)
      → IsSound cache
      → IsSound (resolve_all getent cache parts family).0
        × All (IsOf family) (resolve_all getent cache parts family).1
  unfolding resolve_all
  resolve_all-IsOf cache [] family h = (h, tt)
  resolve_all-IsOf cache (part ∷ parts) family h =
      let (sound, found) = resolve_to_ip-Found cache (trim part) family h in
      let (sound', rest) =
        resolve_all-IsOf (resolve_to_ip getent cache (trim part) family).0 parts family sound in
      (sound', keep_some-IsOf family _ _ found rest)

-- What a value may be served as: addresses of the family that fit in one field, or a text that does.
abbrev IsServable : OptionType → ℕ → Content → Type 0
IsServable type family (addresses found) =
    All (IsOf family) found × IsField true false (join 44 found)
IsServable type family (plain s) = IsField (is_text_list type) false s

abbrev Kept : OptionType → ℕ → Option Content → Type 0
Kept type family none = Unit
Kept type family (some content) = IsServable type family content

none_of : {A : Type 0} (o : Option A) → is_none o ≡ true → o ≡ none
none_of none h = refl
none_of (some a) h = absurd (cc)

address_content-Kept :
    (type : OptionType) (family : ℕ) (found : List Text)
    → All (IsOf family) found
    → Kept type family (address_content found)
unfolding address_content
address_content-Kept type family [] h = tt
address_content-Kept type family (s ∷ found) h =
    elim (Bool-cases (is_none (validate_config_safe_value true false (join 44 (s ∷ found))))) [
      | inl e ↦ rw e (h, (validate_config_safe_value_iff true false _).0 (none_of _ e))
      | inr e ↦ rw e tt
    ]

text_content-Kept :
    (type : OptionType) (family : ℕ) (s : Text) → Kept type family (text_content type s)
unfolding text_content
text_content-Kept type family s =
    elim (Bool-cases (is_none (validate_config_safe_value (is_text_list type) false s))) [
      | inl e ↦ rw e ((validate_config_safe_value_iff (is_text_list type) false s).0 (none_of _ e))
      | inr e ↦ rw e tt
    ]

abbrev pub AllServable : ℕ → List ServedOption → Type 0
AllServable family = All (λ o. IsServable o.type family o.content)

cons_served-AllServable :
    (code family : ℕ) (type : OptionType × Bool) (content : Option Content)
    (rest : List ServedOption)
    → Kept type.0 family content
    → AllServable family rest
    → AllServable family (cons_served code type content rest)
cons_served-AllServable code family type none rest k h = h
cons_served-AllServable code family (type, custom) (some content) rest k h = (k, h)

module _ (getent : ℕ → Text → Option Text) where
  option_value-Kept :
      (cache : List Cached) (value : Text) (type : OptionType) (family : ℕ)
      → IsSound cache
      → IsSound (option_value getent cache value type family).0
        × Kept type family (option_value getent cache value type family).1
  unfolding option_value
  option_value-Kept cache value type family h =
      let (sound, found) = resolve_all-IsOf getent cache (split 44 value) family h in
      elim (Bool-cases (takes_address type)) [
        | inl e ↦ rw e (sound, address_content-Kept type family _ found)
        | inr e ↦ rw e (h, text_content-Kept type family value)
      ]

  module _ (custom : ℕ → Option OptionType) (family : ℕ) where
    serve_entry-Kept :
        (cache : List Cached) (e : Entry) (type : Option (OptionType × Bool))
        (rest : List ServedOption)
        → IsSound cache
        → IsSound (serve_entry getent custom family cache e type).0
          × (AllServable family rest
              → AllServable family ((serve_entry getent custom family cache e type).1 rest))
    serve_entry-Kept cache e none rest h = (h, λ k. k)
    serve_entry-Kept cache e (some type) rest h = elim (Bool-cases (is_empty e.value)) [
      | inl blank ↦ rw blank (h, λ k. k)
      | inr filled ↦
          let (sound, kept) = option_value-Kept cache e.value type.0 family h in
          rw filled (sound, cons_served-AllServable e.code family type _ rest kept)
    ]

    pub serve-AllServable :
        (cache : List Cached) (es : List Entry)
        → IsSound cache
        → IsSound (serve getent custom family cache es).0
          × AllServable family (serve getent custom family cache es).1
    unfolding serve
    serve-AllServable cache [] h = (h, tt)
    serve-AllServable cache (e ∷ es) h =
        let type = served_type custom (by_code (option_catalog_for family).options e.code) e.code in
        let (sound, adds) = serve_entry-Kept cache e type _ h in
        let (sound', rest) =
          serve-AllServable (serve_entry getent custom family cache e type).0 es sound in
        (sound', adds rest)

  -- Whatever `getent` prints, each option that a scope serves is a list of addresses of the scope's
  -- family, which fit in one field of a line, or a text that does; and every address in the cache
  -- stays one of the family it was looked up for.
  pub scope_options-AllServable :
      (interfaces : List Interface) (custom : ℕ → Option OptionType) (family : ℕ) (scope : Scope)
      (effective : List Entry) (cache : List Cached)
      → IsSound cache
      → IsSound (scope_options getent interfaces custom family scope effective cache).0.0
        × AllServable family
            (scope_options getent interfaces custom family scope effective cache).0.1
  unfolding scope_options
  scope_options-AllServable interfaces custom family scope effective cache h =
      elim (Bool-cases (family == 6)) [
        | inl e ↦ rw e (serve-AllServable custom family cache _ h)
        | inr e ↦ rw e (serve-AllServable custom family cache _ h)
      ]
