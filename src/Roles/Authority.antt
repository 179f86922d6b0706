-- ===== src/Roles/Authority.antt =====
-- Who may do what, over all roles.
use cidrella.Base.{
  ◌⊎◌, All, false, ◌≡◌, inl, inr, refl, arith, Bool, true, not, ◌||◌, Option, none, some, List, [],
  ◌∷◌, all, Bool-cases,
}
use cidrella.Base.Text.{Text, codes, text_eq}
use cidrella.Roles.{
  Role, roles, listed, role_in, is_wildcard, is_superuser, granted, has_permission,
}

-- A test that holds of all the roles, and of no role at all, holds of the role of any name.
role_in-all :
    (check : Option Role → Bool) (rs : List Role) (name : Text)
    → check none ≡ true
    → all (λ r. check (some r)) rs ≡ true
    → check (role_in rs name) ≡ true
unfolding role_in
role_in-all check [] name h k = h
role_in-all check (r ∷ rs) name h k = elim (Bool-cases (text_eq r.name name)) [
  | inl e ↦ rw e (ground (arith, k))
  | inr e ↦ rw e (role_in-all check rs name h (ground (arith, k)))
]

abbrev implies : Bool → Bool → Bool
implies a b = not a || b

implies_iff : (a b : Bool) → implies a b ≡ true → a ≡ true → b ≡ true
implies_iff a b h e = ground arith

abbrev grants : Text → Option Role → Bool
grants permission o = granted o permission (is_wildcard o)

-- The permissions that change nothing.
abbrev pub read_permissions : List Text
read_permissions =
    codes "dns:read"
    ∷ codes "dhcp:read"
    ∷ codes "subnets:read"
    ∷ codes "system:read"
    ∷ codes "analytics:read"
    ∷ []

abbrev pub system_write : Text
system_write = codes "system:write"

-- Only a superuser may write the settings of the system.
pub system_write_superuser :
    (name : Text) → has_permission name system_write ≡ true → is_superuser name ≡ true
unfolding has_permission is_superuser
system_write_superuser name h =
    implies_iff _ _
      (role_in-all (λ o. implies (grants system_write o) (is_wildcard o)) roles name refl refl) h

-- What anyone but the administrator may do: read, and in the two areas write.
abbrev pub MayDo : Text → Text → Type 0
MayDo name permission =
    (listed permission read_permissions ≡ true)
    ⊎ ((name ≡ codes "dns_admin") × (permission ≡ codes "dns:write"))
    ⊎ ((name ≡ codes "dhcp_admin") × (permission ≡ codes "dhcp:write"))

-- The role's own list grants nothing more, and only the administrator's has the wildcard.
abbrev IsProper : Role → Type 0
IsProper r =
    (r.name ≡ codes "admin")
    ⊎ ((listed (codes "*") r.permissions ≡ false) × All (MayDo r.name) r.permissions)
