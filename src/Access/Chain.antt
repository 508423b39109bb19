-- ===== src/Access/Chain.antt =====
-- What gets past the three global guards, and what is refused.
use odiseo_new.Common.{
  ℕ, ◌/◌, ◌≤◌, String, ◌===◌, eq_iff, truthy, includes, ◌≡◌, refl, ap, inl, inr, Bool-cases,
  Option-cases, ◌↔◌, ◌⊎◌, true, false, Option, none, some, All, all_sound, all_complete, List,
  arith,
}
use odiseo_new.Common.Http.{HttpError, ok, >>=-eq-ok}
use odiseo_new.Access.{
  RouteMeta, Payload, AuthState, RequestUser, HttpRequest, Attempt, returned, raised, broke,
  is_cross_tenant, is_revoked, check_session, jwt_auth_guard, password_reset_guard,
  permissions_guard, activated, authorize,
}

-- The request is bound to no company, or to the one that the token names.
abbrev TenantAgrees : Option String → Payload → Type 0
TenantAgrees cls p = (truthy cls ≡ false) ⊎ (cls ≡ some p.company_id)

-- The token was issued no earlier than the second of the last revocation.
abbrev IsFresh : Option ℕ → Payload → Type 0
IsFresh none p = Unit
IsFresh (some ms) p = ms / 1000 ≤ p.iat

is_cross_tenant_iff :
    (cls : Option String) (p : Payload) → (is_cross_tenant cls p ≡ false) ↔ TenantAgrees cls p
unfolding is_cross_tenant
is_cross_tenant_iff none p = ground arith
is_cross_tenant_iff (some c) p = ground (arith, eq_iff c p.company_id)

is_revoked_iff : (after : Option ℕ) (p : Payload) → (is_revoked after p ≡ false) ↔ IsFresh after p
unfolding is_revoked
is_revoked_iff none p = ground arith
is_revoked_iff (some ms) p = ground arith

abbrev user_of : Payload → AuthState → RequestUser
user_of payload state = record {
  payload = payload;
  permissions = state.permissions;
  force_password_reset = state.force_password_reset;
}

Attempt-cases :
    {A : Type 0} (a : Attempt A)
    → ((x : A) × (a ≡ returned x)) ⊎ (((e : HttpError) × (a ≡ raised e)) ⊎ (a ≡ broke))
Attempt-cases (returned x) = inl (x, refl)
Attempt-cases (raised e) = inr (inl (e, refl))
Attempt-cases broke = inr (inr refl)

module _ (verify : String → Option Payload)
    (get_user_auth_state : String → String → Attempt AuthState) (cls_company : Option String) where
  -- A valid session: who asks, with what state, and what the later guards see.
  pub record Session (req seen : HttpRequest) : Type 0 where
    pub token : String
    pub payload : Payload
    pub state : AuthState
    pub sent : req.jwt ≡ some token
    pub filled : (token === "") ≡ false
    pub verified : verify token ≡ some payload
    pub tenant : TenantAgrees cls_company payload
    pub looked_up : get_user_auth_state payload.sub payload.company_id ≡ returned state
    pub fresh : IsFresh state.tokens_valid_after payload
    pub seen_as : seen ≡ record req { user = some (user_of payload state) }

  -- Besides: no password reset is due, or the route is open during one; and the route is open to all
  -- users, or the user holds each permission that it requires.
  pub record Admitted (meta : RouteMeta) (req seen : HttpRequest) : Type 0 where
    pub session : Session req seen
    pub reset : (meta.allow_during_reset ≡ true) ⊎ (session.state.force_password_reset ≡ false)
    pub policy :
        (meta.authenticated_only ≡ true)
        ⊎ ((required : List String) × (meta.required_permissions ≡ some required)
            × All (λ p. includes session.state.permissions p ≡ true) required)

  check_session_of :
      (req : HttpRequest) (token : String) (payload : Payload) (state : AuthState)
      → verify token ≡ some payload
      → get_user_auth_state payload.sub payload.company_id ≡ returned state
      → is_cross_tenant cls_company payload ≡ false
      → is_revoked state.tokens_valid_after payload ≡ false
      → check_session verify get_user_auth_state cls_company req token
        ≡ ok (record req { user = some (user_of payload state) })
  unfolding check_session
  check_session_of req token payload state v l c r = ground arith

  check_session_sound :
      (req seen : HttpRequest) (token : String)
      → req.jwt ≡ some token
      → (token === "") ≡ false
      → check_session verify get_user_auth_state cls_company req token ≡ ok seen
      → Session req seen
  unfolding check_session
  check_session_sound req seen token sent filled h = elim (Option-cases (verify token)) [
    | inl missing ↦ absurd (ground arith)
    | inr (payload, verified) ↦ elim (Bool-cases (is_cross_tenant cls_company payload)) [
      | inl other ↦ absurd (ground arith)
      | inr same ↦ elim (Attempt-cases (get_user_auth_state payload.sub payload.company_id)) [
        | inr (inl (e, threw)) ↦ absurd (ground arith)
        | inr (inr broken) ↦ absurd (ground arith)
        | inl (state, found) ↦ elim (Bool-cases (is_revoked state.tokens_valid_after payload)) [
          | inl old ↦ absurd (ground arith)
          | inr new ↦ record {
            token = token;
            payload = payload;
            state = state;
            sent = sent;
            filled = filled;
            verified = verified;
            tenant = (is_cross_tenant_iff cls_company payload).0 same;
            looked_up = found;
            fresh = (is_revoked_iff state.tokens_valid_after payload).0 new;
            seen_as =
                ground (arith, check_session_of req token payload state verified found same new);
          }
        ]
      ]
    ]
  ]

  jwt_auth_guard_sound :
      (meta : RouteMeta) (req seen : HttpRequest)
      → meta.is_public ≡ false
      → jwt_auth_guard verify get_user_auth_state cls_company meta req ≡ ok seen
      → Session req seen
  unfolding jwt_auth_guard
  jwt_auth_guard_sound meta req seen closed h = elim (Option-cases req.jwt) [
    | inl absent ↦ absurd (ground arith)
    | inr (token, sent) ↦ elim (Bool-cases (token === "")) [
      | inl blank ↦ absurd (ground arith)
      | inr filled ↦ check_session_sound req seen token sent filled (ground arith)
    ]
  ]

  jwt_auth_guard_complete :
      (meta : RouteMeta) (req seen : HttpRequest)
      → meta.is_public ≡ false
      → Session req seen
      → jwt_auth_guard verify get_user_auth_state cls_company meta req ≡ ok seen
  unfolding jwt_auth_guard
  jwt_auth_guard_complete meta req seen closed s = ground (
    arith,
    check_session_of req s.token s.payload s.state s.verified s.looked_up
        ((is_cross_tenant_iff cls_company s.payload).1 s.tenant)
        ((is_revoked_iff s.state.tokens_valid_after s.payload).1 s.fresh),
  )

  policy_sound :
      (meta : RouteMeta) (seen : HttpRequest) (u : RequestUser)
      → meta.is_public ≡ false
      → seen.user ≡ some u
      → activated (permissions_guard meta seen) ≡ ok tt
      → (meta.authenticated_only ≡ true)
        ⊎ ((required : List String) × (meta.required_permissions ≡ some required)
            × All (λ p. includes u.permissions p ≡ true) required)
  unfolding permissions_guard
  policy_sound meta seen u closed known h = elim (Bool-cases meta.authenticated_only) [
    | inl any_user ↦ inl any_user
    | inr listed ↦ elim (Option-cases meta.required_permissions) [
      | inl no_policy ↦ absurd (ground arith)
      | inr (required, e) ↦
          inr (required, e, all_sound (includes u.permissions) required (ground arith))
    ]
  ]

  policy_complete :
      (meta : RouteMeta) (seen : HttpRequest) (u : RequestUser)
      → seen.user ≡ some u
      → (meta.authenticated_only ≡ true)
        ⊎ ((required : List String) × (meta.required_permissions ≡ some required)
            × All (λ p. includes u.permissions p ≡ true) required)
      → activated (permissions_guard meta seen) ≡ ok tt
  unfolding permissions_guard
  policy_complete meta seen u known (inl any_user) = ground arith
  policy_complete meta seen u known (inr (required, e, held)) =
      ground (arith, all_complete (includes u.permissions) required held)

  reset_iff :
      (meta : RouteMeta) (seen : HttpRequest) (u : RequestUser)
      → seen.user ≡ some u
      → (activated (password_reset_guard meta seen) ≡ ok tt)
        ↔ ((meta.allow_during_reset ≡ true) ⊎ (u.force_password_reset ≡ false))
  unfolding password_reset_guard
  reset_iff meta seen u known = ground arith

  authorize_parts :
      (meta : RouteMeta) (req seen : HttpRequest)
      → authorize verify get_user_auth_state cls_company meta req ≡ ok seen
      → (jwt_auth_guard verify get_user_auth_state cls_company meta req ≡ ok seen)
        × (activated (password_reset_guard meta seen) ≡ ok tt)
        × (activated (permissions_guard meta seen) ≡ ok tt)
  unfolding authorize
  authorize_parts meta req seen h =
      let (first, e, f) =
        >>=-eq-ok (jwt_auth_guard verify get_user_auth_state cls_company meta req) _ h in
      let (x, g, k) = >>=-eq-ok (activated (password_reset_guard meta first)) _ f in
      let (y, l, m) = >>=-eq-ok (activated (permissions_guard meta first)) _ k in
      let same : first ≡ seen = ground arith in rw (← same) (e, g, l)

  -- A route that is not public runs its handler exactly if the session is valid, belongs to the
  -- tenant of the request and is not revoked, no password reset blocks it, and the route's own
  -- policy admits the user; the handler sees the user with the permissions that were looked up.
  pub authorize_iff :
      (meta : RouteMeta) (req seen : HttpRequest)
      → meta.is_public ≡ false
      → (authorize verify get_user_auth_state cls_company meta req ≡ ok seen)
        ↔ Admitted meta req seen
  unfolding authorize
  authorize_iff meta req seen closed = (
    λ h.
        let (first, second, third) = authorize_parts meta req seen h in
        let s = jwt_auth_guard_sound meta req seen closed first in
        let u = user_of s.payload s.state in
        let known : seen.user ≡ some u = ap (λ (r : HttpRequest). r.user) s.seen_as in
        record {
          session = s;
          reset = (reset_iff meta seen u known).0 second;
          policy = policy_sound meta seen u closed known third;
        },
    λ a.
        let u = user_of a.session.payload a.session.state in
        let known : seen.user ≡ some u = ap (λ (r : HttpRequest). r.user) a.session.seen_as in
        ground (
          arith,
          jwt_auth_guard_complete meta req seen closed a.session,
          (reset_iff meta seen u known).1 a.reset,
          policy_complete meta seen u known a.policy,
        ),
  )
