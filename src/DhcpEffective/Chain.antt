-- ===== src/DhcpEffective/Chain.antt =====
-- The steps that lead to the effective options of a scope keep a map, and what each does to it.
use cidrella.Base.{
  ℕ, ◌≡◌, ◌≢◌, refl, ◌∙◌, subst, Bool, true, false, ◌&&◌, inl, inr, Option, none, some, List, [],
  ◌∷◌, ◌==◌, Bool-cases, if◌then◌else◌,
}
use cidrella.Base.Text.{Text, is_empty}
use cidrella.Address.Format.{format_ip}
use cidrella.Address.V4.{format_v4-ne-nil}
use cidrella.Address.RoundTrip.{format_v6-ne-nil}
use cidrella.Cidr.{Network, parse_network, build_network, big_to_address}
use cidrella.Cidr.Wellformed.{parse_network-IsParsed}
use cidrella.DhcpScope.{Entry, get, has, Scope}
use cidrella.DhcpScope.Ordering.{IsDistinct, set-IsDistinct}
use cidrella.DhcpEffective.{
  OptionRow, Source, from_default, from_scope, from_network, Resolved, empty_maps, put, put_some,
  put_missing, linked_at, explicit_at, has_explicit, put_linked, put_explicit, legacy_v4,
  network_router, domain_values, own_v4,
}
use cidrella.DhcpEffective.Maps.{
  get-set_same, get-set_other, get-delete_same, get-delete_other, delete-IsDistinct,
}

abbrev pub IsMap : Resolved → Type 0
IsMap m = IsDistinct m.values

pub put-IsMap : (c : ℕ) (v : Text) (s : Source) (m : Resolved) → IsMap m → IsMap (put c v s m)
unfolding put
put-IsMap c v s m h = elim (Bool-cases (is_empty v)) [
  | inl e ↦ rw e h
  | inr e ↦ rw e (set-IsDistinct m.values c v h)
]

put_some-IsMap :
    (c : ℕ) (o : Option Text) (s : Source) (m : Resolved) → IsMap m → IsMap (put_some c o s m)
put_some-IsMap c none s m h = h
put_some-IsMap c (some v) s m h = put-IsMap c v s m h

put_missing-IsMap :
    (c : ℕ) (v : Text) (s : Source) (m : Resolved) → IsMap m → IsMap (put_missing c v s m)
put_missing-IsMap c v s m h = elim (Bool-cases (has m.values c)) [
  | inl e ↦ rw e h
  | inr e ↦ rw e (put-IsMap c v s m h)
]

either-IsMap : (b : Bool) (m n : Resolved) → IsMap m → IsMap n → IsMap (if b then m else n)
either-IsMap true m n h k = h
either-IsMap false m n h k = k

linked_at-IsMap :
    (f : ℕ) (defaults : List Entry) (c : ℕ) (m : Resolved) (o : Option Text)
    → IsMap m
    → IsMap (linked_at f defaults c m o)
linked_at-IsMap f defaults c m (some v) h = h
linked_at-IsMap f defaults c m none h =
    either-IsMap (f == 4 && c == 51) _ _ h (put_some-IsMap c (get defaults c) from_default m h)

put_linked-IsMap :
    (f : ℕ) (defaults : List Entry) (rows : List OptionRow) (m : Resolved)
    → IsMap m
    → IsMap (put_linked f defaults rows m)
unfolding put_linked
put_linked-IsMap f defaults [] m h = h
put_linked-IsMap f defaults (row ∷ rows) m h =
    put_linked-IsMap f defaults rows (linked_at f defaults row.code m row.value)
      (linked_at-IsMap f defaults row.code m row.value h)

explicit_at-IsMap :
    (f c : ℕ) (m : Resolved) (o : Option Text) → IsMap m → IsMap (explicit_at f c m o)
explicit_at-IsMap f c m none h = h
explicit_at-IsMap f c m (some v) h =
    either-IsMap (f == 4 && c == 51) _ _ h (put-IsMap c v from_scope m h)

put_explicit-IsMap :
    (f : ℕ) (rows : List OptionRow) (m : Resolved) → IsMap m → IsMap (put_explicit f rows m)
unfolding put_explicit
put_explicit-IsMap f [] m h = h
put_explicit-IsMap f (row ∷ rows) m h =
    put_explicit-IsMap f rows (explicit_at f row.code m row.value)
      (explicit_at-IsMap f row.code m row.value h)

legacy_v4-IsMap : (scope : Scope) (m : Resolved) → IsMap m → IsMap (legacy_v4 scope m)
legacy_v4-IsMap scope m h =
    put-IsMap 119 _ _ _ (put_some-IsMap 42 _ _ _ (put-IsMap 15 _ _ _ (put-IsMap 3 _ _ _ h)))

pub own_v4-IsMap :
    (rows : List OptionRow) (defaults : List Entry) (scope : Scope)
    → IsMap (own_v4 rows defaults scope)
unfolding own_v4
own_v4-IsMap rows defaults scope =
    let own = put_explicit-IsMap 4 rows _ (put_linked-IsMap 4 defaults rows empty_maps tt) in
    either-IsMap (has_explicit rows) _ _ own (legacy_v4-IsMap scope _ own)

pub network_router-IsMap : (gw : Text) (m : Resolved) → IsMap m → IsMap (network_router gw m)
unfolding network_router
network_router-IsMap gw m h =
    either-IsMap (is_empty gw) _ _ (delete-IsDistinct m.values 3 h)
      (put-IsMap 3 gw from_network m h)

abbrev pub router_of : Text → Option Text
router_of gw = if is_empty gw then none else some gw

pub get-put_other :
    (c d : ℕ) (v : Text) (s : Source) (m : Resolved)
    → (c == d) ≡ false
    → get (put c v s m).values d ≡ get m.values d
unfolding put
get-put_other c d v s m n = elim (Bool-cases (is_empty v)) [
  | inl e ↦ rw e refl
  | inr e ↦ rw e (get-set_other m.values c d v n)
]

get-put_missing_other :
    (c d : ℕ) (v : Text) (s : Source) (m : Resolved)
    → (c == d) ≡ false
    → get (put_missing c v s m).values d ≡ get m.values d
get-put_missing_other c d v s m n = elim (Bool-cases (has m.values c)) [
  | inl e ↦ rw e refl
  | inr e ↦ rw e (get-put_other c d v s m n)
]

pub get-network_router :
    (gw : Text) (m : Resolved) → get (network_router gw m).values 3 ≡ router_of gw
unfolding network_router put
get-network_router gw m = elim (Bool-cases (is_empty gw)) [
  | inl e ↦ rw e (get-delete_same m.values 3)
  | inr e ↦ rw e (get-set_same m.values 3 gw)
]

pub get-network_router_other :
    (gw : Text) (m : Resolved) (d : ℕ)
    → (3 == d) ≡ false
    → get (network_router gw m).values d ≡ get m.values d
unfolding network_router
get-network_router_other gw m d n = elim (Bool-cases (is_empty gw)) [
  | inl e ↦ rw e (get-delete_other m.values 3 d n)
  | inr e ↦ rw e (get-put_other 3 d gw from_network m n)
]

pub domain_values-IsMap : (scope : Scope) (m : Resolved) → IsMap m → IsMap (domain_values scope m)
domain_values-IsMap scope m h = put_missing-IsMap 119 _ _ _ (put_missing-IsMap 15 _ _ _ h)

pub get-domain_values :
    (scope : Scope) (m : Resolved) (d : ℕ)
    → (15 == d) ≡ false
    → (119 == d) ≡ false
    → get (domain_values scope m).values d ≡ get m.values d
get-domain_values scope m d n k =
    get-put_missing_other 119 d _ _ _ k ∙ get-put_missing_other 15 d _ _ _ n

pub mask-ne-nil :
    (cidr : Text) (net : Network)
    → parse_network cidr ≡ some net
    → (net.mask ≢ []) × (net.last ≢ [])
unfolding build_network big_to_address
mask-ne-nil cidr net h =
    let p = parse_network-IsParsed cidr net h in
    subst (λ n. (n.mask ≢ []) × (n.last ≢ [])) p.built
      (text_ne p.address.family _, text_ne p.address.family _)
  where
    text_ne : (f v : ℕ) → format_ip v (if f == 6 then 128 else 32) ≢ []
    text_ne f v = elim (Bool-cases (f == 6)) [
      | inl e ↦ rw e (format_v6-ne-nil v)
      | inr e ↦ rw e (format_v4-ne-nil v)
    ]
