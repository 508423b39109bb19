-- ===== src/Access/Tenants.antt =====
-- The guard of the tenant-admin routes,
-- backend-nestjs/src/admin/tenants/guards/tenant-param-scope.guard.ts.
use odiseo_new.Common.{
  String, ◌===◌, eq_iff, truthy, includes, ◌≡◌, refl, subst, inl, inr, Bool-cases, ◌↔◌, Bool, true,
  false, ◌&&◌, Option, none, some, All, List, [], ◌∷◌, arith, if◌then◌else◌,
}
use odiseo_new.Common.Http.{Result, ok, err, forbidden}
use odiseo_new.Access.{HttpRequest, RequestUser}
use odiseo_new.Access.Permissions.{manage_tenants, tenant_super_admin_permissions}

-- `user?.companyId && user.companyId === targetTenantId`
abbrev is_own_tenant : Option RequestUser → Option String → Bool
is_own_tenant none target = false
is_own_tenant (some u) none = false
is_own_tenant (some u) (some t) = truthy (some u.payload.company_id) && u.payload.company_id === t

abbrev is_operator : Option RequestUser → Bool
is_operator none = false
is_operator (some u) = includes u.permissions manage_tenants

pub tenant_param_scope_guard : HttpRequest → Result Bool
tenant_param_scope_guard req =
    if is_own_tenant req.user req.tenant_id_param
    then ok true
    else if is_operator req.user
    then ok true
    else err forbidden

not_in_set :
    (p : String) → includes tenant_super_admin_permissions p ≡ true → (p === manage_tenants) ≡ false
not_in_set p q = elim (Bool-cases (p === manage_tenants)) [
  | inl same ↦
      let clash : false ≡ true =
        subst (λ x. includes tenant_super_admin_permissions x ≡ true)
          ((eq_iff p manage_tenants).0 same) q in
      cc
  | inr apart ↦ apart
]

-- No text of the Director's set is the platform permission.
includes-tenant_set :
    (ps : List String)
    → All (λ p. includes tenant_super_admin_permissions p ≡ true) ps
    → includes ps manage_tenants ≡ false
includes-tenant_set [] h = refl
includes-tenant_set (p ∷ ps) (q, h) = ground (arith, not_in_set p q, includes-tenant_set ps h)

-- A user who holds no more than the Director's permissions gets past the guard exactly for the
-- tenant that the token names, and that name is not empty; every other tenant is refused.
pub director_confined :
    (req : HttpRequest) (u : RequestUser) (target : String)
    → req.user ≡ some u
    → req.tenant_id_param ≡ some target
    → All (λ p. includes tenant_super_admin_permissions p ≡ true) u.permissions
    → (tenant_param_scope_guard req ≡ ok true)
      ↔ ((u.payload.company_id ≡ target) × (truthy (some target) ≡ true))
unfolding tenant_param_scope_guard
director_confined req u target h k held =
    ground (arith, includes-tenant_set u.permissions held, eq_iff u.payload.company_id target)
