-- ===== src/Roles/Service/Update.antt =====
-- Updating a role: the guard against cycles over the stored hierarchy, and the system roles.
use odiseo_new.Common.{
  String, ◌===◌, eq_iff, find?, ◌≡◌, refl, ap, ◌∙◌, inl, inr, true, Bool-cases, Option, none, some,
  Option-cases, List, [], ◌∷◌, map, filter, includes, if◌then◌else◌, arith,
}
use odiseo_new.Common.Http.{ok, conflict, throw_if, >>=-eq-ok}
use odiseo_new.Roles.{Role, role_set_inherits_role, replace_parents, find_dependent_role_holder_ids}
use odiseo_new.Roles.Acyclic.{IsAcyclic, inherits_none, new_parent_apart}
use odiseo_new.Roles.Service.{
  RolesDb, World, Env, UpdateRoleDto, assigned, assert_can_grant, granted_permissions,
  system_default_checks, role_rows, edge_rows, user_role_rows, role_with, existing_ids, commit,
  invalidate_users, find_one_with, check_inheritance, save_role, update,
}
use odiseo_new.Roles.Service.Assign.{committed_same, same_invalidate}

pub ids_of_found :
    (roles : List Role) (ids : List String) (p : String)
    → includes (map (λ r. r.id) (filter (λ r. includes ids r.id) roles)) p ≡ true
    → includes ids p ≡ true
ids_of_found [] ids p h = cc
ids_of_found (r ∷ roles) ids p h = ground (arith, eq_iff r.id p, ids_of_found roles ids p)

module _ (db : RolesDb) where
  -- What a successful update went through.
  pub record Updated (env : Env) (id : String) (dto : UpdateRoleDto) (actor : String)
      (w w' : World db) : Type 0 where
    pub granted :
        assert_can_grant env actor (granted_permissions db dto.permissions dto.inherited_role_ids w)
        ≡ ok tt
    pub role : Role
    pub found : role_with db id w ≡ some role
    pub allowed : system_default_checks dto role ≡ ok tt
    pub inheritance : check_inheritance db id dto.inherited_role_ids w ≡ ok tt
    pub result :
        w'
        ≡ invalidate_users db env
            (find_dependent_role_holder_ids (user_role_rows db w) (edge_rows db w) id)
            (save_role db (assigned dto role) dto.inherited_role_ids w)

  pub update_cases :
      (env : Env) (id : String) (dto : UpdateRoleDto) (actor : String) (w w' : World db)
      → update db env id dto actor w ≡ ok w'
      → Updated env id dto actor w w'
  unfolding update find_one_with
  update_cases env id dto actor w w' h =
      let (_, granted, h1) =
        >>=-eq-ok
          (assert_can_grant env actor
            (granted_permissions db dto.permissions dto.inherited_role_ids w))
          _ h in
      let (role, found, h2) = >>=-eq-ok (find_one_with db id w) _ h1 in
      let (_, allowed, h3) = >>=-eq-ok (system_default_checks dto role) _ h2 in
      let (_, inheritance, h4) =
        >>=-eq-ok (check_inheritance db id dto.inherited_role_ids w) _ h3 in
      let written = save_role db (assigned dto role) dto.inherited_role_ids w in
      let (saved, committed, done) = >>=-eq-ok (commit db env written) _ h4 in
      let same = committed_same db env written saved committed in
      record {
        granted = granted;
        role = role;
        found = elim (Option-cases (role_with db id w)) [
          | inl e ↦ cc (e, found)
          | inr (r, e) ↦ ground (arith, e, found)
        ];
        allowed = allowed;
        inheritance = inheritance;
        result = cc (done, same);
      }

  pub saved_edges :
      (role : Role) (parents : Option (List String)) (w : World db)
      → edge_rows db (save_role db role parents w) ≡ elim parents [
        | none ↦ edge_rows db w
        | some ids ↦ replace_parents (edge_rows db w) role.id (existing_ids db ids w)
      ]
  unfolding save_role replace_parents
  saved_edges role none w = refl
  saved_edges role (some ids) w = rw (db.edges.rows-insert, db.edges.rows-delete) refl

  save_role-IsAcyclic :
      (id : String) (role : Role) (parents : Option (List String)) (w : World db)
      → role.id ≡ id
      → IsAcyclic (edge_rows db w)
      → check_inheritance db id parents w ≡ ok tt
      → IsAcyclic (edge_rows db (save_role db role parents w))
  unfolding check_inheritance
  save_role-IsAcyclic id role none w e acyclic h = rw (saved_edges role none w) acyclic
  save_role-IsAcyclic id role (some ids) w e acyclic h =
      let (_, _, guard) = >>=-eq-ok (throw_if (includes ids id) conflict) _ h in
      let apart =
        inherits_none (edge_rows db w) id ids
          (elim (Bool-cases (role_set_inherits_role (edge_rows db w) ids id)) [
            | inl inherits ↦ cc (guard, inherits)
            | inr none_inherits ↦ none_inherits
          ]) in
      rw (saved_edges role (some ids) w, e)
        (new_parent_apart (edge_rows db w) id (existing_ids db ids w)
          (λ p i. apart p (ids_of_found (role_rows db w) ids p i)) acyclic)

  pub find_role-id :
      (roles : List Role) (id : String) (r : Role)
      → find? (λ q. q.id === id) roles ≡ some r
      → r.id ≡ id
  find_role-id [] id r h = cc
  find_role-id (q ∷ roles) id r h = ground (arith, eq_iff q.id id, find_role-id roles id r)

  -- An update that succeeds leaves the stored role hierarchy without cycles, if it had none.
  pub update-IsAcyclic :
      (env : Env) (id : String) (dto : UpdateRoleDto) (actor : String) (w w' : World db)
      → IsAcyclic (edge_rows db w)
      → update db env id dto actor w ≡ ok w'
      → IsAcyclic (edge_rows db w')
  update-IsAcyclic env id dto actor w w' acyclic h =
      let u = update_cases env id dto actor w w' h in
      let written = save_role db (assigned dto u.role) dto.inherited_role_ids w in
      let holders = find_dependent_role_holder_ids (user_role_rows db w) (edge_rows db w) id in
      let (_, _, e) = same_invalidate db env holders written in
      rw (u.result, e)
        (save_role-IsAcyclic id (assigned dto u.role) dto.inherited_role_ids w
          (find_role-id (role_rows db w) id u.role u.found) acyclic u.inheritance)

  frozen_given :
      (dto : UpdateRoleDto) (role : Role)
      → role.is_system_default ≡ true
      → system_default_checks dto role ≡ ok tt
      → (dto.name ≡ none) × (dto.permissions ≡ none) × (dto.inherited_role_ids ≡ none)
  frozen_given dto role default h = elim (Option-cases dto.name) [
    | inr (n, e) ↦ cc (rw (default, e) at h)
    | inl no_name ↦ elim (Option-cases dto.permissions) [
      | inr (ps, e) ↦ cc (rw (default, no_name, e) at h)
      | inl no_permissions ↦ elim (Option-cases dto.inherited_role_ids) [
        | inr (ids, e) ↦ cc (rw (default, no_name, no_permissions, e) at h)
        | inl no_ids ↦ (no_name, no_permissions, no_ids)
      ]
    ]
  ]

  saved_rows :
      (role : Role) (w : World db)
      → let w' = save_role db role none w in
        (edge_rows db w' ≡ edge_rows db w)
        × (w'.user_roles ≡ w.user_roles)
        × (role_rows db w' ≡ map (λ r. if r.id === role.id then role else r) (role_rows db w))
  unfolding save_role
  saved_rows role w = (refl, refl, db.roles.rows-update _ _ w.roles)

  -- The description is all that such an update changes of the rows.
  described_only :
      (env : Env) (dto : UpdateRoleDto) (holders : List String) (w : World db) (role : Role)
      → (dto.name ≡ none) × (dto.permissions ≡ none)
      → let w' = invalidate_users db env holders (save_role db (assigned dto role) none w) in
        (edge_rows db w' ≡ edge_rows db w)
        × (user_role_rows db w' ≡ user_role_rows db w)
        × (role_rows db w'
            ≡ map
                (λ r.
                  if r.id === role.id
                  then record role { description = (assigned dto role).description }
                  else r)
                (role_rows db w))
  described_only env dto holders w role (no_name, no_permissions) =
      let written = save_role db (assigned dto role) none w in
      let (e1, e2, e3) = same_invalidate db env holders written in
      let (f1, f2, f3) = saved_rows (assigned dto role) w in
      (
        ap db.edges.rows e3 ∙ f1,
        ap db.user_roles.rows (e2 ∙ f2),
        ap db.roles.rows e1 ∙ f3 ∙ rw (no_name, no_permissions) refl,
      )

  -- A successful update of a role that the system ships keeps its name and its permissions and leaves
  -- the hierarchy and the assignments as they were: only the description can have changed.
  pub update_system_default :
      (env : Env) (id : String) (dto : UpdateRoleDto) (actor : String) (w w' : World db)
      (role : Role)
      → role_with db id w ≡ some role
      → role.is_system_default ≡ true
      → update db env id dto actor w ≡ ok w'
      → (edge_rows db w' ≡ edge_rows db w)
        × (user_role_rows db w' ≡ user_role_rows db w)
        × (role_rows db w'
            ≡ map
                (λ r.
                  if r.id === role.id
                  then record role { description = (assigned dto role).description }
                  else r)
                (role_rows db w))
  update_system_default env id dto actor w w' role found default h =
      let u = update_cases env id dto actor w w' h in
      let same : u.role ≡ role = ground (arith, u.found, found) in
      let (no_name, no_permissions, no_ids) =
        frozen_given dto role default (rw same at u.allowed) in
      let holders = find_dependent_role_holder_ids (user_role_rows db w) (edge_rows db w) id in
      let result : w' ≡ invalidate_users db env holders (save_role db (assigned dto role) none w) =
        u.result
        ∙ ap
            (λ r.
              invalidate_users db env holders
                (save_role db (assigned dto r) dto.inherited_role_ids w))
            same
        ∙ ap (λ ids. invalidate_users db env holders (save_role db (assigned dto role) ids w))
            no_ids in
      rw result (described_only env dto holders w role (no_name, no_permissions))
