-- ===== src/DhcpScope/Codes.antt =====
-- Which codes a scope serves, and in which order.
use cidrella.Base.{
  ℕ, ◌<◌, ◌≡◌, ◌≢◌, arith, Bool, false, inl, inr, Option, none, some, List, [], ◌∷◌, ◌==◌, All,
  Bool-cases, if◌then◌else◌,
}
use cidrella.Base.Text.{Text, is_empty}
use cidrella.DhcpCatalog.{OptionType, by_code, option_catalog_for}
use cidrella.DhcpScope.{
  Entry, Scope, Interface, get, delete, has, v4_merged, v4_options, Cached, Content, ServedOption,
  served_type, cons_served, serve_entry, serve, scope_options,
}

abbrev pub AllCodes : (ℕ → Type 0) → List Entry → Type 0
AllCodes P = All (λ e. P e.code)

delete-gone : (es : List Entry) (code : ℕ) → AllCodes (λ c. c ≢ code) (delete es code)
unfolding delete
delete-gone [] code = tt
delete-gone (e ∷ es) code = elim (Bool-cases (e.code == code)) [
  | inl hit ↦ rw hit (delete-gone es code)
  | inr miss ↦ rw miss (ground (arith, miss), delete-gone es code)
]

pub delete-AllCodes :
    (P : ℕ → Type 0) (es : List Entry) (code : ℕ) → AllCodes P es → AllCodes P (delete es code)
unfolding delete
delete-AllCodes P [] code h = tt
delete-AllCodes P (e ∷ es) code (p, h) = elim (Bool-cases (e.code == code)) [
  | inl hit ↦ rw hit (delete-AllCodes P es code h)
  | inr miss ↦ rw miss (p, delete-AllCodes P es code h)
]

get-absent : (es : List Entry) (code : ℕ) → has es code ≡ false → AllCodes (λ c. c ≢ code) es
unfolding get
get-absent [] code h = tt
get-absent (e ∷ es) code h = elim (Bool-cases (e.code == code)) [
  | inl hit ↦ absurd (let f = rw hit at h in cc)
  | inr miss ↦ (ground (arith, miss), get-absent es code (rw miss at h))
]

v4_leased : (es : List Entry) → AllCodes (λ c. c ≢ 51) (if has es 51 then delete es 51 else es)
v4_leased es = elim (Bool-cases (has es 51)) [
  | inl e ↦ rw e (delete-gone es 51)
  | inr e ↦ rw e (get-absent es 51 e)
]

-- A code that an IPv4 scope does not serve as an option.
abbrev pub IsOther : ℕ → Type 0
IsOther c = (c ≢ 1) × (c ≢ 28) × (c ≢ 51)

All-three :
    (es : List Entry)
    → AllCodes (λ c. c ≢ 1) es
    → AllCodes (λ c. c ≢ 28) es
    → AllCodes (λ c. c ≢ 51) es
    → AllCodes IsOther es
All-three [] h k l = tt
All-three (e ∷ es) (p, h) (q, k) (r, l) = ((p, q, r), All-three es h k l)

v4_options-IsOther :
    (scope : Scope) (effective : List Entry) → AllCodes IsOther (v4_options scope effective).0
unfolding v4_options
v4_options-IsOther scope effective =
    let merged = v4_merged scope effective in
    let leased = if has merged 51 then delete merged 51 else merged in
    All-three (delete (delete leased 1) 28)
      (delete-AllCodes (λ c. c ≢ 1) (delete leased 1) 28 (delete-gone leased 1))
      (delete-gone (delete leased 1) 28)
      (delete-AllCodes (λ c. c ≢ 51) (delete leased 1) 28
        (delete-AllCodes (λ c. c ≢ 51) leased 1 (v4_leased merged)))

-- In the order of the codes, none of them twice.
abbrev pub IsAscending : List ServedOption → Type 0
IsAscending [] = Unit
IsAscending (o ∷ os) = All (λ p. o.code < p.code) os × IsAscending os

abbrev pub IsStrict : List Entry → Type 0
IsStrict [] = Unit
IsStrict (e ∷ es) = AllCodes (λ c. e.code < c) es × IsStrict es

module _ (getent : ℕ → Text → Option Text) (custom : ℕ → Option OptionType) (family : ℕ) where
  cons_served-All :
      (P : ℕ → Type 0) (code : ℕ) (type : OptionType × Bool) (content : Option Content)
      (rest : List ServedOption)
      → P code
      → All (λ o. P o.code) rest
      → All (λ o. P o.code) (cons_served code type content rest)
  cons_served-All P code type none rest p h = h
  cons_served-All P code (type, custom) (some content) rest p h = (p, h)

  serve_entry-All :
      (P : ℕ → Type 0) (cache : List Cached) (e : Entry) (type : Option (OptionType × Bool))
      (rest : List ServedOption)
      → P e.code
      → All (λ o. P o.code) rest
      → All (λ o. P o.code) ((serve_entry getent custom family cache e type).1 rest)
  serve_entry-All P cache e none rest p h = h
  serve_entry-All P cache e (some type) rest p h = elim (Bool-cases (is_empty e.value)) [
    | inl blank ↦ rw blank h
    | inr filled ↦ rw filled (cons_served-All P e.code type _ rest p h)
  ]

  pub serve-All :
      (P : ℕ → Type 0) (cache : List Cached) (es : List Entry)
      → AllCodes P es
      → All (λ o. P o.code) (serve getent custom family cache es).1
  unfolding serve
  serve-All P cache [] h = tt
  serve-All P cache (e ∷ es) (p, h) = serve_entry-All P cache e _ _ p (
      serve-All P
        (serve_entry getent custom family cache e
          (served_type custom (by_code (option_catalog_for family).options e.code) e.code)).0
        es h)

  cons_served-IsAscending :
      (code : ℕ) (type : OptionType × Bool) (content : Option Content) (rest : List ServedOption)
      → All (λ o. code < o.code) rest
      → IsAscending rest
      → IsAscending (cons_served code type content rest)
  cons_served-IsAscending code type none rest p h = h
  cons_served-IsAscending code (type, custom) (some content) rest p h = (p, h)

  serve_entry-IsAscending :
      (cache : List Cached) (e : Entry) (type : Option (OptionType × Bool))
      (rest : List ServedOption)
      → All (λ o. e.code < o.code) rest
      → IsAscending rest
      → IsAscending ((serve_entry getent custom family cache e type).1 rest)
  serve_entry-IsAscending cache e none rest p h = h
  serve_entry-IsAscending cache e (some type) rest p h = elim (Bool-cases (is_empty e.value)) [
    | inl blank ↦ rw blank h
    | inr filled ↦ rw filled (cons_served-IsAscending e.code type _ rest p h)
  ]

  pub serve-IsAscending :
      (cache : List Cached) (es : List Entry)
      → IsStrict es
      → IsAscending (serve getent custom family cache es).1
  unfolding serve
  serve-IsAscending cache [] h = tt
  serve-IsAscending cache (e ∷ es) (p, h) =
      serve_entry-IsAscending cache e _ _
        (serve-All (λ c. e.code < c)
          (serve_entry getent custom family cache e
            (served_type custom (by_code (option_catalog_for family).options e.code) e.code)).0
          es p)
        (serve-IsAscending
          (serve_entry getent custom family cache e
            (served_type custom (by_code (option_catalog_for family).options e.code) e.code)).0
          es h)

module _ (getent : ℕ → Text → Option Text) where
  -- An IPv4 scope serves no option 1, 28 or 51, whatever is configured.
  pub scope_options-IsOther :
      (interfaces : List Interface) (custom : ℕ → Option OptionType) (family : ℕ) (scope : Scope)
      (effective : List Entry) (cache : List Cached)
      → family ≢ 6
      → All
          (λ o. IsOther o.code)
          (scope_options getent interfaces custom family scope effective cache).0.1
  unfolding scope_options
  scope_options-IsOther interfaces custom family scope effective cache h =
      let four : (family == 6) ≡ false = ground (arith, h) in
      rw four (serve-All getent custom family IsOther cache _ (v4_options-IsOther scope effective))
