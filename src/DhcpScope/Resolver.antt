-- ===== src/DhcpScope/Resolver.antt =====
-- The cache of resolved names, against looking up every name.
use cidrella.Base.{
  ℕ, ◌≡◌, refl, sym, ap, ap₂, ◌∙◌, arith, Bool, ◌&&◌, inl, inr, Option, none, some, List, [], ◌∷◌,
  ◌==◌, ==_iff, All, Bool-cases, some-inj, if◌then◌else◌,
}
use cidrella.Base.Text.{Text, text_eq, is_empty, split, trim}
use cidrella.Address.Format.Runs.{text_eq_sound}
use cidrella.Cidr.{is_valid_address}
use cidrella.DhcpCatalog.{OptionType, by_code, option_catalog_for}
use cidrella.DhcpScope.{
  Entry, Scope, Interface, Cached, cached, keep_family, address_of, looked_up, resolve_to_ip,
  takes_address, keep_some, address_content, served_type, cons_served, resolve_all, option_value,
  serve_entry, serve, scope_options,
}

module _ (getent : ℕ → Text → Option Text) where
  -- The cache has what looking up each name again would give.
  abbrev pub IsFresh : List Cached → Type 0
  IsFresh = All (λ c. c.found ≡ address_of (getent c.family c.name) c.family)

  -- `resolveToIp` without a cache
  abbrev uncached : Text → ℕ → Option Text
  uncached value family =
      if is_valid_address value
      then keep_family value family
      else address_of (getent family value) family

  cached-IsFresh :
      (cs : List Cached) (value : Text) (family : ℕ) (o : Option Text)
      → IsFresh cs
      → cached cs value family ≡ some o
      → o ≡ address_of (getent family value) family
  unfolding cached
  cached-IsFresh [] value family o h e = absurd (cc)
  cached-IsFresh (c ∷ cs) value family o (p, h) e =
      elim (Bool-cases (c.family == family && text_eq c.name value)) [
        | inl hit ↦
            let found : c.found ≡ o = some-inj (rw hit at e) in
            let name = text_eq_sound c.name value (ground (arith, hit)) in
            let same = (==_iff c.family family).0 (ground (arith, hit)) in
            sym found ∙ p ∙ ap₂ (λ f n. address_of (getent f n) f) same name
        | inr miss ↦ cached-IsFresh cs value family o h (rw miss at e)
      ]

  resolve_to_ip-uncached :
      (cache : List Cached) (value : Text) (family : ℕ)
      → IsFresh cache
      → IsFresh (resolve_to_ip getent cache value family).0
        × ((resolve_to_ip getent cache value family).1 ≡ uncached value family)
  unfolding resolve_to_ip
  resolve_to_ip-uncached cache value family h = elim (Bool-cases (is_valid_address value)) [
    | inl e ↦ rw e (h, refl)
    | inr e ↦ rw e (missed (cached cache value family) refl)
  ]
    where
      missed :
          (o : Option (Option Text))
          → cached cache value family ≡ o
          → IsFresh (looked_up getent cache value family o).0
            × ((looked_up getent cache value family o).1 ≡ address_of (getent family value) family)
      missed none e = ((refl, h), refl)
      missed (some o) e = (h, cached-IsFresh cache value family o h e)

  resolve_all-same :
      (c d : List Cached) (parts : List Text) (family : ℕ)
      → IsFresh c
      → IsFresh d
      → IsFresh (resolve_all getent c parts family).0
        × IsFresh (resolve_all getent d parts family).0
        × ((resolve_all getent c parts family).1 ≡ (resolve_all getent d parts family).1)
  unfolding resolve_all
  resolve_all-same c d [] family h k = (h, k, refl)
  resolve_all-same c d (part ∷ parts) family h k =
      let (h', e) = resolve_to_ip-uncached c (trim part) family h in
      let (k', f) = resolve_to_ip-uncached d (trim part) family k in
      let (h'', k'', same) =
        resolve_all-same (resolve_to_ip getent c (trim part) family).0
          (resolve_to_ip getent d (trim part) family).0 parts family h' k' in
      (h'', k'', ap₂ keep_some (e ∙ sym f) same)

  option_value-same :
      (c d : List Cached) (value : Text) (type : OptionType) (family : ℕ)
      → IsFresh c
      → IsFresh d
      → IsFresh (option_value getent c value type family).0
        × IsFresh (option_value getent d value type family).0
        × ((option_value getent c value type family).1
            ≡ (option_value getent d value type family).1)
  unfolding option_value
  option_value-same c d value type family h k =
      let (h', k', same) = resolve_all-same c d (split 44 value) family h k in
      elim (Bool-cases (takes_address type)) [
        | inl e ↦ rw e (h', k', ap address_content same)
        | inr e ↦ rw e (h, k, refl)
      ]

  module _ (custom : ℕ → Option OptionType) (family : ℕ) where
    serve_entry-same :
        (c d : List Cached) (e : Entry) (type : Option (OptionType × Bool))
        → IsFresh c
        → IsFresh d
        → IsFresh (serve_entry getent custom family c e type).0
          × IsFresh (serve_entry getent custom family d e type).0
          × ((serve_entry getent custom family c e type).1
              ≡ (serve_entry getent custom family d e type).1)
    serve_entry-same c d e none h k = (h, k, refl)
    serve_entry-same c d e (some type) h k = elim (Bool-cases (is_empty e.value)) [
      | inl blank ↦ rw blank (h, k, refl)
      | inr filled ↦
          let (h', k', same) = option_value-same c d e.value type.0 family h k in
          rw filled (h', k', ap (cons_served e.code type) same)
    ]

    serve-same :
        (c d : List Cached) (es : List Entry)
        → IsFresh c
        → IsFresh d
        → IsFresh (serve getent custom family c es).0
          × ((serve getent custom family c es).1 ≡ (serve getent custom family d es).1)
    unfolding serve
    serve-same c d [] h k = (h, refl)
    serve-same c d (e ∷ es) h k =
        let type = served_type custom (by_code (option_catalog_for family).options e.code) e.code in
        let (h', k', same) = serve_entry-same c d e type h k in
        let (h'', rest) =
          serve-same (serve_entry getent custom family c e type).0
            (serve_entry getent custom family d e type).0 es h' k' in
        (h'', ap₂ (λ f r. f r) same rest)

  -- When `getent` prints the same for a name whenever it is asked, a scope serves the same options
  -- from any cache of earlier results as from an empty one, and leaves such a cache.
  pub scope_options-uncached :
      (interfaces : List Interface) (custom : ℕ → Option OptionType) (family : ℕ) (scope : Scope)
      (effective : List Entry) (cache : List Cached)
      → IsFresh cache
      → IsFresh (scope_options getent interfaces custom family scope effective cache).0.0
        × ((scope_options getent interfaces custom family scope effective cache).0.1
            ≡ (scope_options getent interfaces custom family scope effective []).0.1)
  unfolding scope_options
  scope_options-uncached interfaces custom family scope effective cache h =
      elim (Bool-cases (family == 6)) [
        | inl e ↦ rw e (serve-same custom family cache [] _ h tt)
        | inr e ↦ rw e (serve-same custom family cache [] _ h tt)
      ]
