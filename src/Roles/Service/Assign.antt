-- ===== src/Roles/Service/Assign.antt =====
-- Grants are bounded by what the acting user holds.
use odiseo_new.Common.{
  String, ◌===◌, eq_iff, ◌≡◌, refl, ◌∙◌, inl, inr, true, false, not, Bool-cases, List, [], ◌∷◌,
  ◌++◌, map, filter, includes, arith,
}
use odiseo_new.Common.Http.{ok, >>=-eq-ok}
use odiseo_new.Roles.{
  Edge, Role, UserRole, rows_of, role_set_closure, assigned_roles, effective_roles,
  flatten_permissions, find_effective_permissions, find_effective_permissions_for_role_ids,
}
use odiseo_new.Roles.Reach.{role_set_closure_iff}
use odiseo_new.Roles.Service.{
  RolesDb, World, Env, is_empty, assert_can_grant, role_rows, edge_rows, user_role_rows, commit,
  invalidate_users, replace_user_roles, assign_roles_to_user,
}

none_refused :
    (held permissions : List String)
    → is_empty (filter (λ p. not (includes held p)) permissions) ≡ true
    → (p : String) → includes permissions p ≡ true
    → includes held p ≡ true
none_refused held [] h p i = cc
none_refused held (q ∷ permissions) h p i = ground (
  arith,
  none_refused held permissions,
  eq_iff q p,
  none_refused held permissions (ground arith) p,
)

-- A grant that passes the check consists of permissions that the acting user holds.
pub assert_can_grant_sound :
    (env : Env) (actor : String) (permissions : List String)
    → assert_can_grant env actor permissions ≡ ok tt
    → (p : String) → includes permissions p ≡ true
    → includes env.actor_permissions p ≡ true
unfolding assert_can_grant
assert_can_grant_sound env actor [] h p i = cc
assert_can_grant_sound env actor (q ∷ permissions) h p i =
    none_refused env.actor_permissions (q ∷ permissions) (ground arith) p i

assigned_roles-append :
    (xs ys : List UserRole) (target : String)
    → assigned_roles (xs ++ ys) target ≡ assigned_roles xs target ++ assigned_roles ys target
unfolding assigned_roles
assigned_roles-append [] ys target = refl
assigned_roles-append (u ∷ xs) ys target = ground (arith, assigned_roles-append xs ys target)

assigned_roles-cleared :
    (us : List UserRole) (target : String)
    → assigned_roles (filter (λ u. not (u.user_id === target)) us) target ≡ []
unfolding assigned_roles
assigned_roles-cleared [] target = refl
assigned_roles-cleared (u ∷ us) target = ground (arith, assigned_roles-cleared us target)

assigned_roles-new :
    (target : String) (ids : List String)
    → assigned_roles (map (λ r. record { user_id = target; role_id = r }) ids) target ≡ ids
unfolding assigned_roles
assigned_roles-new target [] = refl
assigned_roles-new target (i ∷ ids) =
    ground (arith, assigned_roles-new target ids, eq_iff target target)

-- Nobody inherits from no role.
closure_nil : (edges : List Edge) (a : String) → includes (role_set_closure edges []) a ≡ false
closure_nil edges a = elim (Bool-cases (includes (role_set_closure edges []) a)) [
  | inl there ↦ let (s, i, c) = (role_set_closure_iff edges [] a).0 there in cc i
  | inr out ↦ out
]

rows_of_none :
    (roles : List Role) (ids : List String)
    → ((a : String) → includes ids a ≡ false)
    → rows_of roles ids ≡ []
rows_of_none [] ids h = refl
rows_of_none (r ∷ roles) ids h = ground (arith, h r.id, rows_of_none roles ids h)

permissions-of_assigned :
    (roles : List Role) (user_roles : List UserRole) (edges : List Edge) (target : String)
    (ids : List String)
    → assigned_roles user_roles target ≡ ids
    → find_effective_permissions roles user_roles edges target
      ≡ find_effective_permissions_for_role_ids roles edges ids
unfolding find_effective_permissions effective_roles find_effective_permissions_for_role_ids
    flatten_permissions
permissions-of_assigned roles user_roles edges target [] e =
    rw (e, rows_of_none roles (role_set_closure edges []) (closure_nil edges))
permissions-of_assigned roles user_roles edges target (i ∷ ids) e = rw e

module _ (db : RolesDb) where
  assigned_roles-replace :
      (target : String) (ids : List String) (w : World db)
      → assigned_roles (user_role_rows db (replace_user_roles db target ids w)) target ≡ ids
  unfolding replace_user_roles
  assigned_roles-replace target [] w =
      rw db.user_roles.rows-delete (assigned_roles-cleared (user_role_rows db w) target)
  assigned_roles-replace target (i ∷ ids) w =
      let kept = filter (λ u. not (u.user_id === target)) (user_role_rows db w) in
      let added : List UserRole = map (λ r. record { user_id = target; role_id = r }) (i ∷ ids) in
      rw (db.user_roles.rows-insert, db.user_roles.rows-delete)
        (assigned_roles-append kept added target
          ∙ rw (assigned_roles-cleared (user_role_rows db w) target)
              (assigned_roles-new target (i ∷ ids)))

  pub same_invalidate :
      (env : Env) (users : List String) (w : World db)
      → let w' = invalidate_users db env users w in
        (w'.roles ≡ w.roles) × (w'.user_roles ≡ w.user_roles) × (w'.edges ≡ w.edges)
  unfolding invalidate_users
  same_invalidate env users w = ground arith

  same_replace :
      (target : String) (ids : List String) (w : World db)
      → let w' = replace_user_roles db target ids w in (w'.roles ≡ w.roles) × (w'.edges ≡ w.edges)
  unfolding replace_user_roles
  same_replace target ids w = (refl, refl)

  pub committed_same : (env : Env) (w saved : World db) → commit db env w ≡ ok saved → saved ≡ w
  committed_same env w saved h = elim (Bool-cases env.saves) [
    | inl e ↦ ground (arith, e, h)
    | inr e ↦ cc (h, e)
  ]

  assign_roles-ok :
      (env : Env) (actor target : String) (role_ids : List String) (w w' : World db)
      → assign_roles_to_user db env actor target role_ids w ≡ ok w'
      → (assert_can_grant env actor
            (find_effective_permissions_for_role_ids (role_rows db w) (edge_rows db w) role_ids)
          ≡ ok tt)
        × (w' ≡ invalidate_users db env (target ∷ []) (replace_user_roles db target role_ids w))
  unfolding assign_roles_to_user
  assign_roles-ok env actor target role_ids w w' h =
      let perms =
        find_effective_permissions_for_role_ids (role_rows db w) (edge_rows db w) role_ids in
      let (_, granted, rest) = >>=-eq-ok (assert_can_grant env actor perms) _ h in
      let replaced = replace_user_roles db target role_ids w in
      let (saved, committed, done) = >>=-eq-ok (commit db env replaced) _ rest in
      let same = committed_same env replaced saved committed in (granted, cc (done, same))

  assign_roles-permissions :
      (env : Env) (target : String) (role_ids : List String) (w : World db)
      → let w' = invalidate_users db env (target ∷ []) (replace_user_roles db target role_ids w) in
        find_effective_permissions (role_rows db w') (user_role_rows db w') (edge_rows db w') target
        ≡ find_effective_permissions_for_role_ids (role_rows db w) (edge_rows db w) role_ids
  assign_roles-permissions env target role_ids w =
      let w1 = replace_user_roles db target role_ids w in
      let (e1, e2, e3) = same_invalidate env (target ∷ []) w1 in
      let (f1, f2) = same_replace target role_ids w in
      rw (e1, e2, e3, f1, f2)
        (permissions-of_assigned (role_rows db w) (user_role_rows db w1) (edge_rows db w) target
          role_ids (assigned_roles-replace target role_ids w))

  -- After a successful assignment every permission that the target effectively holds, inherited ones
  -- included, is one that the acting user holds: assigning roles never passes on more.
  pub assign_roles_bounded :
      (env : Env) (actor target : String) (role_ids : List String) (w w' : World db)
      → assign_roles_to_user db env actor target role_ids w ≡ ok w'
      → (p : String)
      → includes
          (find_effective_permissions
            (role_rows db w')
            (user_role_rows db w')
            (edge_rows db w')
            target)
          p
        ≡ true
      → includes env.actor_permissions p ≡ true
  assign_roles_bounded env actor target role_ids w w' h p i =
      let perms =
        find_effective_permissions_for_role_ids (role_rows db w) (edge_rows db w) role_ids in
      let (granted, same) = assign_roles-ok env actor target role_ids w w' h in
      let held = rw (same, assign_roles-permissions env target role_ids w) at i in
      assert_can_grant_sound env actor perms granted p held
