-- ===== src/DhcpScope/Ordering.antt =====
-- An IPv6 scope serves its options in the order of their codes.
use cidrella.Base.{
  ℕ, ◌<◌, ◌≡◌, ◌≢◌, subst, arith, false, inl, inr, Option, none, some, List, [], ◌∷◌, leb, ◌==◌,
  ==_iff, All, Bool-cases, if◌then◌else◌,
}
use cidrella.Base.Text.{Text, is_empty}
use cidrella.DhcpCatalog.{OptionType, option_catalog_for, has_code}
use cidrella.DhcpScope.{
  Entry, Scope, Interface, set, has, set_some, set_filled, get_server_ip_for_subnet, without_codes,
  insert_entry, sort_entries, v6_options, Cached, scope_options,
}
use cidrella.DhcpScope.Codes.{AllCodes, IsStrict, IsAscending, serve-All, serve-IsAscending}

-- No code twice.
abbrev pub IsDistinct : List Entry → Type 0
IsDistinct [] = Unit
IsDistinct (e ∷ es) = AllCodes (λ c. c ≢ e.code) es × IsDistinct es

pub set-AllCodes :
    (P : ℕ → Type 0) (es : List Entry) (code : ℕ) (value : Text)
    → P code
    → AllCodes P es
    → AllCodes P (set es code value)
unfolding set
set-AllCodes P [] code value q h = (q, tt)
set-AllCodes P (e ∷ es) code value q (p, h) = elim (Bool-cases (e.code == code)) [
  | inl hit ↦ rw hit (q, h)
  | inr miss ↦ rw miss (p, set-AllCodes P es code value q h)
]

pub set-IsDistinct :
    (es : List Entry) (code : ℕ) (value : Text) → IsDistinct es → IsDistinct (set es code value)
unfolding set
set-IsDistinct [] code value h = (tt, tt)
set-IsDistinct (e ∷ es) code value (p, h) = elim (Bool-cases (e.code == code)) [
  | inl hit ↦ rw hit (subst (λ n. AllCodes (λ c. c ≢ n) es) ((==_iff e.code code).0 hit) p, h)
  | inr miss ↦ rw miss (
    set-AllCodes (λ c. c ≢ e.code) es code value (λ f. ground (arith, miss, f)) p,
    set-IsDistinct es code value h,
  )
]

set_filled-IsDistinct :
    (opts merged : List Entry) → IsDistinct merged → IsDistinct (set_filled opts merged)
unfolding set_filled
set_filled-IsDistinct [] merged h = h
set_filled-IsDistinct (opt ∷ opts) merged h = elim (Bool-cases (is_empty opt.value)) [
  | inl e ↦ rw e (set_filled-IsDistinct opts merged h)
  | inr e ↦ rw e (set_filled-IsDistinct opts _ (set-IsDistinct merged opt.code opt.value h))
]

set_some-IsDistinct :
    (code : ℕ) (o : Option Text) (es : List Entry) → IsDistinct es → IsDistinct (set_some code o es)
set_some-IsDistinct code none es h = h
set_some-IsDistinct code (some value) es h = elim (Bool-cases (is_empty value)) [
  | inl e ↦ rw e h
  | inr e ↦ rw e (set-IsDistinct es code value h)
]

without_codes-AllCodes :
    (P : ℕ → Type 0) (internal : List ℕ) (es : List Entry)
    → AllCodes P es
    → AllCodes P (without_codes internal es)
unfolding without_codes
without_codes-AllCodes P internal [] h = tt
without_codes-AllCodes P internal (e ∷ es) (p, h) = elim (Bool-cases (has_code internal e.code)) [
  | inl hit ↦ rw hit (without_codes-AllCodes P internal es h)
  | inr miss ↦ rw miss (p, without_codes-AllCodes P internal es h)
]

without_codes-gone :
    (internal : List ℕ) (es : List Entry)
    → AllCodes (λ c. has_code internal c ≡ false) (without_codes internal es)
unfolding without_codes
without_codes-gone internal [] = tt
without_codes-gone internal (e ∷ es) = elim (Bool-cases (has_code internal e.code)) [
  | inl hit ↦ rw hit (without_codes-gone internal es)
  | inr miss ↦ rw miss (miss, without_codes-gone internal es)
]

without_codes-IsDistinct :
    (internal : List ℕ) (es : List Entry) → IsDistinct es → IsDistinct (without_codes internal es)
unfolding without_codes
without_codes-IsDistinct internal [] h = tt
without_codes-IsDistinct internal (e ∷ es) (p, h) = elim (Bool-cases (has_code internal e.code)) [
  | inl hit ↦ rw hit (without_codes-IsDistinct internal es h)
  | inr miss ↦ rw miss (
    without_codes-AllCodes (λ c. c ≢ e.code) internal es p,
    without_codes-IsDistinct internal es h,
  )
]

pub insert_entry-AllCodes :
    (P : ℕ → Type 0) (e : Entry) (es : List Entry)
    → P e.code
    → AllCodes P es
    → AllCodes P (insert_entry e es)
unfolding insert_entry
insert_entry-AllCodes P e [] q h = (q, tt)
insert_entry-AllCodes P e (f ∷ es) q (p, h) = elim (Bool-cases (leb e.code f.code)) [
  | inl before ↦ rw before (q, (p, h))
  | inr after ↦ rw after (p, insert_entry-AllCodes P e es q h)
]

pub sort_entries-AllCodes :
    (P : ℕ → Type 0) (es : List Entry) → AllCodes P es → AllCodes P (sort_entries es)
unfolding sort_entries
sort_entries-AllCodes P [] h = tt
sort_entries-AllCodes P (e ∷ es) (p, h) =
    insert_entry-AllCodes P e (sort_entries es) p (sort_entries-AllCodes P es h)

above : (a b : ℕ) (es : List Entry) → a < b → AllCodes (λ c. b < c) es → AllCodes (λ c. a < c) es
above a b [] h k = tt
above a b (e ∷ es) h (p, k) = (omega (arith, p), above a b es h k)

insert_entry-IsStrict :
    (e : Entry) (es : List Entry)
    → AllCodes (λ c. c ≢ e.code) es
    → IsStrict es
    → IsStrict (insert_entry e es)
unfolding insert_entry
insert_entry-IsStrict e [] d h = (tt, tt)
insert_entry-IsStrict e (f ∷ es) (n, d) (p, h) = elim (Bool-cases (leb e.code f.code)) [
  | inl before ↦
      let less : e.code < f.code = ground (arith, before, n) in
      rw before ((less, above e.code f.code es less p), (p, h))
  | inr after ↦ rw after (
    insert_entry-AllCodes (λ c. f.code < c) e es (ground (arith, after)) p,
    insert_entry-IsStrict e es d h,
  )
]

sort_entries-IsStrict : (es : List Entry) → IsDistinct es → IsStrict (sort_entries es)
unfolding sort_entries
sort_entries-IsStrict [] h = tt
sort_entries-IsStrict (e ∷ es) (p, h) =
    insert_entry-IsStrict e (sort_entries es) (sort_entries-AllCodes (λ c. c ≢ e.code) es p)
      (sort_entries-IsStrict es h)

v6_merged-IsDistinct :
    (interfaces : List Interface) (scope : Scope) (effective : List Entry)
    → let own = set_filled effective [] in
      IsDistinct (
        if has own 23
        then own
        else set_some 23 (get_server_ip_for_subnet interfaces scope.subnet_cidr) own)
v6_merged-IsDistinct interfaces scope effective =
    let own = set_filled effective [] in
    let distinct = set_filled-IsDistinct effective [] tt in
    elim (Bool-cases (has own 23)) [
      | inl e ↦ rw e distinct
      | inr e ↦ rw e (
          set_some-IsDistinct 23 (get_server_ip_for_subnet interfaces scope.subnet_cidr) own
            distinct)
    ]

v6_options-IsStrict :
    (interfaces : List Interface) (scope : Scope) (effective : List Entry)
    → IsStrict (v6_options interfaces scope effective)
unfolding v6_options
v6_options-IsStrict interfaces scope effective =
    sort_entries-IsStrict _
      (without_codes-IsDistinct _ _ (v6_merged-IsDistinct interfaces scope effective))

v6_options-allowed :
    (interfaces : List Interface) (scope : Scope) (effective : List Entry)
    → AllCodes
        (λ c. has_code (option_catalog_for 6).internal_codes c ≡ false)
        (v6_options interfaces scope effective)
unfolding v6_options
v6_options-allowed interfaces scope effective =
    sort_entries-AllCodes _ _ (without_codes-gone (option_catalog_for 6).internal_codes _)

module _ (getent : ℕ → Text → Option Text) where
  -- An IPv6 scope serves its options in ascending order of their codes, none of them twice, and none
  -- whose code the DHCP server builds itself.
  pub scope_options-IsAscending :
      (interfaces : List Interface) (custom : ℕ → Option OptionType) (scope : Scope)
      (effective : List Entry) (cache : List Cached)
      → let served = (scope_options getent interfaces custom 6 scope effective cache).0.1 in
        IsAscending served
        × All (λ o. has_code (option_catalog_for 6).internal_codes o.code ≡ false) served
  unfolding scope_options
  scope_options-IsAscending interfaces custom scope effective cache = (
    serve-IsAscending getent custom 6 cache _ (v6_options-IsStrict interfaces scope effective),
    serve-All getent custom 6 _ cache _ (v6_options-allowed interfaces scope effective),
  )
