-- ===== src/DhcpEffective/Composed.antt =====
-- What an IPv4 scope serves in the end, from its effective options.
use cidrella.Base.{
  ℕ, ◌≡◌, ◌≢◌, refl, sym, ap, ◌∙◌, subst, false, not, ◌&&◌, inl, inr, Option, none, some, List, [],
  ◌∷◌, ◌==◌, ==_iff, Bool-cases, is_some, if◌then◌else◌, ◌>>=◌, >>=-eq-some, some-inj, none-ne-some,
}
use cidrella.Base.Text.{Text, is_empty, last_index_of}
use cidrella.Cidr.{Network, parse_network}
use cidrella.DhcpScope.{
  Entry, get, has, set, delete, Scope, set_missing, set_all, network_values, v4_merged, v4_options,
}
use cidrella.DhcpScope.Ordering.{IsDistinct}
use cidrella.DhcpEffective.{
  OptionRow, Source, from_network, Resolved, put, put_mask, network_mask, network_router, Effective,
  effective_of, domain_values, own_v4, effective_v4,
}
use cidrella.DhcpEffective.Maps.{
  get-set_same, get-set_other, get-delete_other, get-sort_entries, sort_entries-IsDistinct,
  first_of, get-set_all,
}
use cidrella.DhcpEffective.Chain.{
  IsMap, put-IsMap, own_v4-IsMap, network_router-IsMap, domain_values-IsMap, router_of,
  get-put_other, get-network_router, get-network_router_other, get-domain_values, mask-ne-nil,
}

put_filled :
    (c : ℕ) (v : Text) (s : Source) (m : Resolved) → v ≢ [] → get (put c v s m).values c ≡ some v
unfolding put
put_filled c [] s m ne = absurd (ne refl)
put_filled c (d ∷ v) s m ne = get-set_same m.values c (d ∷ v)

put_mask_four :
    (net : Network) (m : Resolved)
    → net.family ≡ 4
    → put_mask net m ≡ put 28 net.last from_network (put 1 net.mask from_network m)
put_mask_four net m four =
    ap (λ b. if b then put 28 net.last from_network (put 1 net.mask from_network m) else m)
      ((==_iff net.family 4).1 four)

network_mask_four :
    (cidr : Text) (net : Network) (m m' : Resolved)
    → parse_network cidr ≡ some net
    → net.family ≡ 4
    → network_mask cidr m ≡ some m'
    → put 28 net.last from_network (put 1 net.mask from_network m) ≡ m'
unfolding network_mask parse_network last_index_of
network_mask_four [] net m m' parsed four h = none-ne-some parsed
network_mask_four (c ∷ cidr) net m m' parsed four h =
    sym (put_mask_four net m four)
    ∙ some-inj (sym (ap (λ o. o >>= λ n. some (put_mask n m)) parsed) ∙ h)

-- The maps behind the effective options of a scope on an IPv4 network.
record IsResolved (rows : List OptionRow) (defaults : List Entry) (scope : Scope) (net : Network)
    (e : Effective) : Type 0 where
  masked : Resolved
  is_masked :
      put 28 net.last from_network (put 1 net.mask from_network (own_v4 rows defaults scope))
      ≡ masked
  is_effective :
      effective_of scope
        (is_empty scope.subnet_gateway)
        (domain_values scope (network_router scope.subnet_gateway masked))
      ≡ e

effective_v4-IsResolved :
    (rows : List OptionRow) (defaults : List Entry) (scope : Scope) (net : Network) (e : Effective)
    → parse_network scope.subnet_cidr ≡ some net
    → net.family ≡ 4
    → effective_v4 rows defaults scope ≡ some e
    → IsResolved rows defaults scope net e
unfolding effective_v4
effective_v4-IsResolved rows defaults scope net e parsed four h =
    let (m, masked, done) =
      >>=-eq-some (network_mask scope.subnet_cidr (own_v4 rows defaults scope)) _ h in
    record {
      masked = m;
      is_masked = network_mask_four scope.subnet_cidr net _ m parsed four masked;
      is_effective = some-inj done;
    }

module _ (rows : List OptionRow) (defaults : List Entry) (scope : Scope) (net : Network)
    (e : Effective) (r : IsResolved rows defaults scope net e) where
  abbrev final : Resolved
  final = domain_values scope (network_router scope.subnet_gateway r.masked)

  final-IsMap : IsMap final
  final-IsMap = domain_values-IsMap scope _ (
      network_router-IsMap scope.subnet_gateway r.masked (
        subst IsMap r.is_masked
          (put-IsMap 28 _ _ _ (put-IsMap 1 _ _ _ (own_v4-IsMap rows defaults scope)))))

  -- A code in the effective options is that of the last map.
  get-effective : (c : ℕ) → get e.options c ≡ get final.values c
  get-effective c =
      subst (λ x. get x.options c ≡ get final.values c) r.is_effective
        (get-sort_entries final.values c final-IsMap)

  effective_router : get e.options 3 ≡ router_of scope.subnet_gateway
  effective_router =
      get-effective 3
      ∙ get-domain_values scope (network_router scope.subnet_gateway r.masked) 3 refl refl
      ∙ get-network_router scope.subnet_gateway r.masked

  effective_masked :
      (c : ℕ)
      → (3 == c) ≡ false
      → (15 == c) ≡ false
      → (119 == c) ≡ false
      → get e.options c
        ≡ get
            (put 28 net.last from_network
              (put 1 net.mask from_network (own_v4 rows defaults scope))).values
            c
  effective_masked c n k l =
      get-effective c
      ∙ get-domain_values scope (network_router scope.subnet_gateway r.masked) c k l
      ∙ get-network_router_other scope.subnet_gateway r.masked c n
      ∙ ap (λ m. get m.values c) (sym r.is_masked)

  effective-IsDistinct : IsDistinct e.options
  effective-IsDistinct =
      subst (λ x. IsDistinct x.options) r.is_effective
        (sort_entries-IsDistinct final.values final-IsMap)

  effective_suppressed : e.router_suppressed ≡ is_empty scope.subnet_gateway
  effective_suppressed =
      subst (λ x. x.router_suppressed ≡ is_empty scope.subnet_gateway) r.is_effective refl

-- An IPv4 scope on a network has the mask and the broadcast of the network among its effective options,
-- whatever its rows, the defaults and its columns say.
pub effective_v4-mask :
    (rows : List OptionRow) (defaults : List Entry) (scope : Scope) (net : Network) (e : Effective)
    → parse_network scope.subnet_cidr ≡ some net
    → net.family ≡ 4
    → effective_v4 rows defaults scope ≡ some e
    → (get e.options 1 ≡ some net.mask) × (get e.options 28 ≡ some net.last)
effective_v4-mask rows defaults scope net e parsed four h =
    let r = effective_v4-IsResolved rows defaults scope net e parsed four h in
    let (mask, last) = mask-ne-nil scope.subnet_cidr net parsed in
    let own = own_v4 rows defaults scope in
    (
      effective_masked rows defaults scope net e r 1 refl refl refl
          ∙ get-put_other 28 1 net.last from_network (put 1 net.mask from_network own) refl
          ∙ put_filled 1 net.mask from_network own mask,
      effective_masked rows defaults scope net e r 28 refl refl refl
          ∙ put_filled 28 net.last from_network (put 1 net.mask from_network own) last,
    )

merged_of_filled :
    (scope : Scope) (es : List Entry) (v : Text)
    → get es 1 ≡ some v
    → v4_merged scope es ≡ network_values scope (set_all es [])
unfolding v4_merged get
merged_of_filled scope [] v h = none-ne-some h
merged_of_filled scope (e ∷ es) v h = refl

-- The legacy columns that `v4Options` falls back on are not read for a scope on an IPv4 network: its
-- effective options are never empty.
pub effective_v4-legacy_columns :
    (rows : List OptionRow) (defaults : List Entry) (scope : Scope) (net : Network) (e : Effective)
    → parse_network scope.subnet_cidr ≡ some net
    → net.family ≡ 4
    → effective_v4 rows defaults scope ≡ some e
    → v4_merged scope e.options ≡ network_values scope (set_all e.options [])
effective_v4-legacy_columns rows defaults scope net e parsed four h =
    merged_of_filled scope e.options net.mask
      (effective_v4-mask rows defaults scope net e parsed four h).0

get-set_missing_other :
    (c d : ℕ) (v : Text) (es : List Entry)
    → (c == d) ≡ false
    → get (set_missing c v es) d ≡ get es d
get-set_missing_other c d v es n = elim (Bool-cases (not (is_empty v) && not (has es c))) [
  | inl e ↦ rw e (get-set_other es c d v n)
  | inr e ↦ rw e refl
]

-- Setting the router of the network where none is set, when the one that is set is the network's.
get-set_missing_router :
    (gw : Text) (es : List Entry)
    → get es 3 ≡ router_of gw
    → get (set_missing 3 gw es) 3 ≡ router_of gw
get-set_missing_router [] es h = h
get-set_missing_router (c ∷ gw) es h =
    subst (λ b. get (if not b then set es 3 (c ∷ gw) else es) 3 ≡ some (c ∷ gw))
      (sym (ap is_some h)) h

get-leased :
    (es : List Entry) (c : ℕ)
    → (51 == c) ≡ false
    → get (if has es 51 then delete es 51 else es) c ≡ get es c
get-leased es c n = elim (Bool-cases (has es 51)) [
  | inl e ↦ rw e (get-delete_other es 51 c n)
  | inr e ↦ rw e refl
]

first_of-none : (o : Option Text) → first_of o none ≡ o
first_of-none none = refl
first_of-none (some v) = refl

-- The router that an IPv4 scope serves is that of its network, and none when the network has none:
-- no row, default or column of the scope changes it. That it is left out is marked.
pub v4_options-router :
    (rows : List OptionRow) (defaults : List Entry) (scope : Scope) (net : Network) (e : Effective)
    → parse_network scope.subnet_cidr ≡ some net
    → net.family ≡ 4
    → effective_v4 rows defaults scope ≡ some e
    → (get (v4_options scope e.options).0 3 ≡ router_of scope.subnet_gateway)
      × (e.router_suppressed ≡ is_empty scope.subnet_gateway)
unfolding v4_options network_values get
v4_options-router rows defaults scope net e parsed four h =
    let r = effective_v4-IsResolved rows defaults scope net e parsed four h in
    let own = set_all e.options [] in
    let from_effective : get own 3 ≡ router_of scope.subnet_gateway =
      get-set_all e.options [] 3 (effective-IsDistinct rows defaults scope net e r)
      ∙ first_of-none (get e.options 3)
      ∙ effective_router rows defaults scope net e r in
    let routed = set_missing 3 scope.subnet_gateway own in
    let named = set_missing 15 scope.subnet_domain_name routed in
    let merged = v4_merged scope e.options in
    let leased = if has merged 51 then delete merged 51 else merged in
    (
      get-delete_other (delete leased 1) 28 3 refl
          ∙ get-delete_other leased 1 3 refl
          ∙ get-leased merged 3 refl
          ∙ ap (λ m. get m 3) (effective_v4-legacy_columns rows defaults scope net e parsed four h)
          ∙ get-set_missing_other 119 3 scope.subnet_domain_name named refl
          ∙ get-set_missing_other 15 3 scope.subnet_domain_name routed refl
          ∙ get-set_missing_router scope.subnet_gateway own from_effective,
      effective_suppressed rows defaults scope net e r,
    )
