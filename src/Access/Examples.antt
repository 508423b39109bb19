-- ===== src/Access/Examples.antt =====
-- Requests that pass the guards or are refused, and instances of the theorems.
use odiseo_new.Common.{
  String, ◌===◌, truthy, ◌≡◌, ◌↔◌, refl, true, false, Option, none, some, [], ◌∷◌, if◌then◌else◌,
}
use odiseo_new.Common.Http.{ok, err, unauthorized, forbidden}
use odiseo_new.Access.{
  RouteMeta, Payload, AuthState, RequestUser, HttpRequest, Attempt, returned, broke, jwt_auth_guard,
  password_reset_guard, permissions_guard, check_session, is_revoked, is_cross_tenant, authorize,
}
use odiseo_new.Access.Chain.{Admitted, authorize_iff}
use odiseo_new.Access.Tenants.{tenant_param_scope_guard, director_confined}

abbrev payload : Payload
payload = record { sub = "u1"; company_id = "c1"; roles = []; iat = 100 }

abbrev state : AuthState
state = record {
  permissions = "VIEW_SYLLABUS" ∷ [];
  force_password_reset = false;
  tokens_valid_after = some 99500;
}

abbrev verify : String → Option Payload
verify t = if t === "token" then some payload else none

abbrev look_up : String → String → Attempt AuthState
look_up user company = returned state

abbrev route : RouteMeta
route = record {
  is_public = false;
  allow_during_reset = false;
  authenticated_only = false;
  required_permissions = some ("VIEW_SYLLABUS" ∷ []);
}

abbrev request : HttpRequest
request = record { jwt = some "token"; tenant_id_param = none; user = none }

abbrev user : RequestUser
user = record {
  payload = payload;
  permissions = "VIEW_SYLLABUS" ∷ [];
  force_password_reset = false;
}

abbrev admitted : HttpRequest
admitted = record request { user = some user }

passes : authorize verify look_up (some "c1") route request ≡ ok admitted
unfolding authorize jwt_auth_guard check_session is_revoked is_cross_tenant password_reset_guard
    permissions_guard
passes = refl

other_tenant : authorize verify look_up (some "c2") route request ≡ err forbidden
unfolding authorize jwt_auth_guard check_session is_revoked is_cross_tenant password_reset_guard
    permissions_guard
other_tenant = refl

-- A failure of the lookup refuses the request.
fails_closed : authorize verify (λ u c. broke) none route request ≡ err unauthorized
unfolding authorize jwt_auth_guard check_session is_revoked is_cross_tenant password_reset_guard
    permissions_guard
fails_closed = refl

-- A route that names no policy admits nobody.
no_policy :
    authorize verify look_up none (record route { required_permissions = none }) request
    ≡ err forbidden
unfolding authorize jwt_auth_guard check_session is_revoked is_cross_tenant password_reset_guard
    permissions_guard
no_policy = refl

authorize_iff_example :
    (authorize verify look_up (some "c1") route request ≡ ok admitted)
    ↔ Admitted verify look_up (some "c1") route request admitted
authorize_iff_example = authorize_iff verify look_up (some "c1") route request admitted refl

director_confined_example :
    (tenant_param_scope_guard (record admitted { tenant_id_param = some "c2" }) ≡ ok true)
    ↔ ((payload.company_id ≡ "c2") × (truthy (some "c2") ≡ true))
director_confined_example =
    director_confined (record admitted { tenant_id_param = some "c2" }) user "c2" refl refl
      (refl, tt)
