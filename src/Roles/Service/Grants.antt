-- ===== src/Roles/Service/Grants.antt =====
-- Creating and updating a role passes on no more than the acting user holds.
use odiseo_new.Common.{
  ◌∙◌, String, ◌===◌, eq_iff, ◌≡◌, refl, subst, inl, inr, true, false, not, Bool-cases, Option,
  none, some, List, [], ◌∷◌, ◌++◌, map, filter, any, includes, arith,
}
use odiseo_new.Common.Http.{ok, >>=-eq-ok}
use odiseo_new.Database.{updated}
use odiseo_new.Roles.{Edge, Role, find_dependent_role_holder_ids}
use odiseo_new.Roles.Descent.{others, confers_by, confers_by-split, confers_by-join}
use odiseo_new.Roles.Service.{
  RolesDb, World, Env, CreateRoleDto, UpdateRoleDto, given_or, assigned, assert_can_grant,
  granted_permissions, role_rows, edge_rows, user_role_rows, existing_ids, save_role, create,
  update,
}
use odiseo_new.Roles.Service.Assign.{committed_same, same_invalidate}
use odiseo_new.Roles.Service.Update.{update_cases, find_role-id}
use odiseo_new.Roles.Service.Stored.{confers, new_role, create_stored, update_stored}

others-new_role :
    (id : String) (role : Role) (rows : List Role)
    → role.id ≡ id
    → filter (λ r. not (r.id === id)) (rows ++ role ∷ []) ≡ filter (λ r. not (r.id === id)) rows
others-new_role id role [] e = ground (arith, e, eq_iff role.id id)
others-new_role id role (r ∷ rows) e = ground (arith, others-new_role id role rows e)

others-saved_role :
    (id : String) (role : Role) (rows : List Role)
    → role.id ≡ id
    → filter (λ r. not (r.id === id)) (map (updated (λ r. r.id === id) (λ _. role)) rows)
      ≡ filter (λ r. not (r.id === id)) rows
others-saved_role id role [] e = refl
others-saved_role id role (r ∷ rows) e =
    ground (arith, eq_iff role.id id, others-saved_role id role rows e)

others-new_edges :
    (id : String) (parents : List String) (edges : List Edge)
    → others id (edges ++ map (λ q. record { parent = q; child = id }) parents) ≡ others id edges
others-new_edges id [] [] = refl
others-new_edges id (q ∷ parents) [] = ground (arith, eq_iff id id, others-new_edges id parents [])
others-new_edges id parents (e ∷ edges) = ground (arith, others-new_edges id parents edges)

others-others : (id : String) (edges : List Edge) → others id (others id edges) ≡ others id edges
others-others id [] = refl
others-others id (e ∷ edges) = ground (arith, others-others id edges)

module _ (db : RolesDb) where
  not_conferred :
      (w : World db) (id p : String)
      → confers_by (role_rows db w) (edge_rows db w) p id ≡ false
      → confers db w w id p ≡ false
  not_conferred w id p h = elim (Bool-cases (confers db w w id p)) [
    | inl c ↦ let e = confers_by-join (role_rows db w) (edge_rows db w) p id c in absurd (cc (e, h))
    | inr none_there ↦ none_there
  ]

  -- Only the row of the role and its own edges differ.
  abbrev SameOthers : String → World db → World db → Type 0
  SameOthers id w w' =
      (filter (λ r. not (r.id === id)) (role_rows db w')
        ≡ filter (λ r. not (r.id === id)) (role_rows db w))
      × (others id (edge_rows db w') ≡ others id (edge_rows db w))

  create-SameOthers :
      (env : Env) (dto : CreateRoleDto) (actor : String) (w w' : World db)
      → create db env dto actor w ≡ ok w'
      → SameOthers env.new_id w w'
  unfolding create
  create-SameOthers env dto actor w w' h =
      let granted = granted_permissions db dto.permissions dto.inherited_role_ids w in
      let (_, _, rest) = >>=-eq-ok (assert_can_grant env actor granted) _ h in
      let same = committed_same db env _ w' rest in
      rw (same, db.roles.rows-insert, db.edges.rows-insert)
        (
          others-new_role env.new_id (new_role db env dto) (role_rows db w) refl,
          others-new_edges env.new_id (existing_ids db (given_or dto.inherited_role_ids []) w)
              (edge_rows db w),
        )

  save_role-SameOthers :
      (role : Role) (parents : Option (List String)) (w : World db)
      → SameOthers role.id w (save_role db role parents w)
  unfolding save_role
  save_role-SameOthers role none w =
      (rw db.roles.rows-update (others-saved_role role.id role (role_rows db w) refl), refl)
  save_role-SameOthers role (some ids) w = (
    rw db.roles.rows-update (others-saved_role role.id role (role_rows db w) refl),
    rw (db.edges.rows-insert, db.edges.rows-delete)
        (others-new_edges role.id (existing_ids db ids w) (others role.id (edge_rows db w))
          ∙ others-others role.id (edge_rows db w)),
  )

  update-SameOthers :
      (env : Env) (id : String) (dto : UpdateRoleDto) (actor : String) (w w' : World db)
      → update db env id dto actor w ≡ ok w'
      → SameOthers id w w'
  update-SameOthers env id dto actor w w' h =
      let u = update_cases db env id dto actor w w' h in
      let holders = find_dependent_role_holder_ids (user_role_rows db w) (edge_rows db w) id in
      let written = save_role db (assigned dto u.role) dto.inherited_role_ids w in
      let (e1, e2, e3) = same_invalidate db env holders written in
      let e : u.role.id ≡ id = find_role-id db (role_rows db w) id u.role u.found in
      rw (u.result, e1, e3)
        (subst (λ i. SameOthers i w written) e
          (save_role-SameOthers (assigned dto u.role) dto.inherited_role_ids w))

  -- Who creates a role, with an id that no role and no edge has, holds each permission that the role
  -- then effectively confers, by itself or through the roles that it inherits from.
  pub create_bounded :
      (env : Env) (dto : CreateRoleDto) (actor : String) (w w' : World db) (p : String)
      → any (λ r. r.id === env.new_id) (role_rows db w) ≡ false
      → any (λ e. e.child === env.new_id) (edge_rows db w) ≡ false
      → create db env dto actor w ≡ ok w'
      → confers_by (role_rows db w') (edge_rows db w') p env.new_id ≡ true
      → includes env.actor_permissions p ≡ true
  create_bounded env dto actor w w' p no_role no_edge h c =
      let (roles, edges) = create-SameOthers env dto actor w w' h in
      create_stored db env dto actor w w' p no_role no_edge h (
        confers_by-split env.new_id (role_rows db w) (role_rows db w') (edge_rows db w)
          (edge_rows db w') p roles edges c)

  -- Who updates a role holds each permission that the role effectively confers after the update, by
  -- itself or through the roles that it then inherits from, and did not confer before it.
  pub update_bounded :
      (env : Env) (id : String) (dto : UpdateRoleDto) (actor : String) (w w' : World db)
      (p : String)
      → update db env id dto actor w ≡ ok w'
      → confers_by (role_rows db w') (edge_rows db w') p id ≡ true
      → confers_by (role_rows db w) (edge_rows db w) p id ≡ false
      → includes env.actor_permissions p ≡ true
  update_bounded env id dto actor w w' p h after before =
      let (roles, edges) = update-SameOthers env id dto actor w w' h in
      update_stored db env id dto actor w w' p h
        (confers_by-split id (role_rows db w) (role_rows db w') (edge_rows db w) (edge_rows db w') p
          roles edges after)
        (not_conferred w id p before)
