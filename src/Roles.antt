-- ===== src/Roles.antt =====
-- Roles and permissions, server/src/auth/roles.js and server/src/auth/require-perm.js. A role is not the
-- name of a property that every object has.
pub mod Authority
use Prim.Native.String.{String}
use cidrella.Base.{
  ℕ, Bool, true, false, not, ◌&&◌, ◌||◌, Option, none, some, List, [], ◌∷◌, any, map, if◌then◌else◌,
}
use cidrella.Base.Text.{Text, codes, text_eq}

pub record Role : Type 0 where
  pub name : Text
  pub label : Text
  pub permissions : List Text

abbrev role : String → String → List Text → Role
role name label permissions = record {
  name = codes name;
  label = codes label;
  permissions = permissions;
}

abbrev pub roles : List Role
roles =
    role "admin" "Administrator" (codes "*" ∷ [])
    ∷ role "dns_admin" "DNS Administrator" (
        codes "dns:read"
        ∷ codes "dns:write"
        ∷ codes "subnets:read"
        ∷ codes "system:read"
        ∷ codes "analytics:read"
        ∷ [])
    ∷ role "dhcp_admin" "DHCP Administrator" (
        codes "dhcp:read"
        ∷ codes "dhcp:write"
        ∷ codes "subnets:read"
        ∷ codes "system:read"
        ∷ codes "analytics:read"
        ∷ [])
    ∷ role "readonly_dns" "DNS Read-Only" (
        codes "dns:read" ∷ codes "subnets:read" ∷ codes "system:read" ∷ codes "analytics:read" ∷ [])
    ∷ role "readonly_dhcp" "DHCP Read-Only" (
        codes "dhcp:read"
        ∷ codes "subnets:read"
        ∷ codes "system:read"
        ∷ codes "analytics:read"
        ∷ [])
    ∷ role "readonly" "Read-Only" (
        codes "dns:read"
        ∷ codes "dhcp:read"
        ∷ codes "subnets:read"
        ∷ codes "system:read"
        ∷ codes "analytics:read"
        ∷ [])
    ∷ []

-- `permissions.includes(p)`
abbrev pub listed : Text → List Text → Bool
listed p = any (λ q. text_eq q p)

-- `ROLES[role]`
unfoldable pub role_in : List Role → Text → Option Role
role_in [] name = none
role_in (r ∷ rs) name = let rest = role_in rs name in if text_eq r.name name then some r else rest

abbrev pub is_wildcard : Option Role → Bool
is_wildcard none = false
is_wildcard (some r) = listed (codes "*") r.permissions

unfoldable pub is_superuser : Text → Bool
is_superuser name = is_wildcard (role_in roles name)

abbrev pub granted : Option Role → Text → Bool → Bool
granted none permission superuser = false
granted (some r) permission superuser = superuser || listed permission r.permissions

unfoldable pub has_permission : Text → Text → Bool
has_permission name permission = granted (role_in roles name) permission (is_superuser name)

abbrev pub permissions_of : Option Role → List Text
permissions_of none = []
permissions_of (some r) = r.permissions

unfoldable pub permissions_for_role : Text → List Text
permissions_for_role name = permissions_of (role_in roles name)

pub record Projection : Type 0 where
  pub permissions : List Text
  pub is_admin : Bool

unfoldable pub permission_projection : Text → Projection
permission_projection name = record {
  permissions = permissions_for_role name;
  is_admin = is_superuser name;
}

-- What a gate does with a request.
pub data Passage : Type 0 where
  next : Passage
  refused : ℕ → Passage

-- The role of the user of a request, if it has one.
unfoldable pub require_role : List Text → Option Text → Passage
require_role allowed none = refused 401
require_role allowed (some name) =
    if not (listed name allowed) && not (is_superuser name) then refused 403 else next

unfoldable pub require_perm : Text → Option Text → Passage
require_perm permission none = refused 403
require_perm permission (some name) = if has_permission name permission then next else refused 403

unfoldable pub role_runs : Unit {0}
unfolding role_in is_superuser has_permission permissions_for_role permission_projection
    require_role require_perm
role_runs = tt
