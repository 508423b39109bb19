-- ===== src/Access.antt =====
-- The guards that every request passes: backend-nestjs/src/auth/auth.guard.ts,
-- backend-nestjs/src/common/guards/password-reset.guard.ts and permissions.guard.ts (global, in the
-- order of backend-nestjs/src/app.module.ts), and the guard of the tenant-admin routes,
-- backend-nestjs/src/admin/tenants/guards/tenant-param-scope.guard.ts.
-- The metadata that the decorators leave on a route, the verification of a token by the JWT library
-- and the lookup of a user's state are parameters.
pub mod Permissions
pub mod Chain
pub mod Tenants
mod Examples
use odiseo_new.Common.{
  ℕ, ◌/◌, String, ◌===◌, truthy, includes, Bool, true, false, not, ◌&&◌, Option, none, some, List,
  all, ltb, if◌then◌else◌,
}
use odiseo_new.Common.Http.{
  HttpError, unauthorized, forbidden, password_change_required, Result, ok, err, ◌>>=◌, throw_if,
  ◌>>◌,
}

-- The decorators of a route: `@Public()`, `@AllowDuringPasswordReset()`, `@AuthenticatedOnly()` and
-- `@RequirePermissions(...)`.
pub record RouteMeta : Type 0 where
  pub is_public : Bool
  pub allow_during_reset : Bool
  pub authenticated_only : Bool
  pub required_permissions : Option (List String)

-- The claims of a verified token; `iat` is in seconds.
pub record Payload : Type 0 where
  pub sub : String
  pub company_id : String
  pub roles : List String
  pub iat : ℕ

-- `CachedAuthState`; the revocation instant is in milliseconds.
pub record AuthState : Type 0 where
  pub permissions : List String
  pub force_password_reset : Bool
  pub tokens_valid_after : Option ℕ

pub record RequestUser : Type 0 where
  pub payload : Payload
  pub permissions : List String
  pub force_password_reset : Bool

pub record HttpRequest : Type 0 where
  pub jwt : Option String
  pub tenant_id_param : Option String
  pub user : Option RequestUser

-- What a call inside the `try` block does: it returns, it throws an `HttpException`, or it throws
-- something else.
pub data Attempt (A : Type 0) : Type 0 where
  returned : A → Attempt A
  raised : HttpError → Attempt A
  broke : Attempt A

-- The `catch` block: an `HttpException` goes on, anything else becomes a 401.
abbrev caught : {A B : Type 0} → Attempt A → (A → Result B) → Result B
caught (returned a) k = k a
caught (raised e) k = err e
caught broke k = err unauthorized

-- `AuthService.verifyToken`, over the library's `verify`, which throws where this returns none.
abbrev verify_token : (String → Option Payload) → String → Result Payload
verify_token verify token = elim (verify token) [ none ↦ err unauthorized | some p ↦ ok p ]

-- A request resolved to a company takes no session of another.
pub is_cross_tenant : Option String → Payload → Bool
is_cross_tenant none p = false
is_cross_tenant (some c) p = truthy (some c) && not (c === p.company_id)

-- Whole seconds on both sides.
pub is_revoked : Option ℕ → Payload → Bool
is_revoked none p = false
is_revoked (some ms) p = ltb p.iat (ms / 1000)

module _ (verify : String → Option Payload)
    (get_user_auth_state : String → String → Attempt AuthState) (cls_company : Option String) where
  -- The `try` block, and its `catch`.
  pub check_session : HttpRequest → String → Result HttpRequest
  unfolding is_cross_tenant is_revoked
  check_session req token = do
    payload ← verify_token verify token
    throw_if (is_cross_tenant cls_company payload) forbidden
    caught (get_user_auth_state payload.sub payload.company_id) λ state. do
      throw_if (is_revoked state.tokens_valid_after payload) unauthorized
      ok (record req {
        user = some (record {
          payload = payload;
          permissions = state.permissions;
          force_password_reset = state.force_password_reset;
        });
      })

  pub jwt_auth_guard : RouteMeta → HttpRequest → Result HttpRequest
  jwt_auth_guard meta req = if meta.is_public then ok req else elim req.jwt [
    | none ↦ err unauthorized
    | some token ↦ if token === "" then err unauthorized else check_session req token
  ]

-- `user?.forcePasswordReset`
abbrev holds_reset : Option RequestUser → Bool
holds_reset none = false
holds_reset (some u) = u.force_password_reset

pub password_reset_guard : RouteMeta → HttpRequest → Result Bool
password_reset_guard meta req =
    if meta.allow_during_reset
    then ok true
    else if not (holds_reset req.user)
    then ok true
    else err password_change_required

-- `every` required permission is among the user's; no user is a plain refusal.
abbrev holds_all : List String → Option RequestUser → Bool
holds_all required none = false
holds_all required (some u) = all (includes u.permissions) required

pub permissions_guard : RouteMeta → HttpRequest → Result Bool
permissions_guard meta req =
    if meta.is_public
    then ok true
    else if meta.authenticated_only
    then ok true
    else elim meta.required_permissions [
      | some required ↦ ok (holds_all required req.user)
      | none ↦ err forbidden
    ]

-- The framework answers 403 to a guard that returns false.
abbrev pub activated : Result Bool → Result (Unit {0})
activated r = r >>= λ b. throw_if (not b) forbidden

module _ (verify : String → Option Payload)
    (get_user_auth_state : String → String → Attempt AuthState) (cls_company : Option String) where
  -- The three APP_GUARDs in order; the handler runs with the request that is returned.
  pub authorize : RouteMeta → HttpRequest → Result HttpRequest
  authorize meta req = do
    seen ← jwt_auth_guard verify get_user_auth_state cls_company meta req
    activated (password_reset_guard meta seen)
    activated (permissions_guard meta seen)
    ok seen
