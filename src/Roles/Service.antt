-- ===== src/Roles/Service.antt =====
-- RolesService: backend-nestjs/src/admin/roles/services/roles.service.ts. Each method runs its writes
-- in one transaction, so an exception leaves the world as it was.
-- What the payload grants is read and checked in a transaction before that of the writes; the model runs a
-- method as one step, in which nobody else writes between the two.
-- What the acting user holds is read through AuthService and stands in the environment, as do the
-- tenant in CLS, the id that the database gives to a new role, and whether the database takes the
-- writes. A failed revocation of tokens is only logged, so the world records the calls.
pub mod Assign
pub mod Update
pub mod Stored
pub mod Grants
pub mod Revocation
mod Examples
use odiseo_new.Common.{
  String, ◌===◌, truthy, Bool, true, false, not, ◌&&◌, ◌||◌, Option, none, some, List, [], ◌∷◌,
  ◌++◌, map, filter, includes, if◌then◌else◌,
}
use odiseo_new.Common.Http.{
  forbidden, conflict, not_found, bad_request, internal, Result, ok, err, ◌>>=◌, ◌>>◌, throw_if,
}
use odiseo_new.Database.{Table, find_one, find_all}
use odiseo_new.Roles.{
  Edge, Role, UserRole, fresh, find_effective_permissions_for_role_ids, role_set_inherits_role,
  find_dependent_role_holder_ids,
}

pub record RolesDb : Type 1 where
  pub Roles : Type 0
  pub UserRoles : Type 0
  pub Edges : Type 0
  pub roles : Table Roles Role
  pub user_roles : Table UserRoles UserRole
  pub edges : Table Edges Edge

pub record World (db : RolesDb) : Type 0 where
  pub roles : db.Roles
  pub user_roles : db.UserRoles
  pub edges : db.Edges
  pub revoked : List (String × String)  -- the company and the user of each revokeUserTokens call

-- What a delete of a role meets: success, the foreign key error 23503, or another error.
pub data DeleteOutcome : Type 0 where
  deleted restricted broken : DeleteOutcome

pub record Env : Type 0 where
  pub company_id : Option String
  pub actor_permissions : List String
  pub new_id : String
  pub saves : Bool
  pub delete_outcome : DeleteOutcome

pub record CreateRoleDto : Type 0 where
  pub name : String
  pub description : Option String
  pub permissions : Option (List String)
  pub inherited_role_ids : Option (List String)

pub record UpdateRoleDto : Type 0 where
  pub name : Option String
  pub description : Option String
  pub permissions : Option (List String)
  pub inherited_role_ids : Option (List String)

abbrev pub given {ℓ} : {A : Type ℓ} → Option A → Bool
given none = false
given (some a) = true

abbrev pub given_or {ℓ} : {A : Type ℓ} → Option A → A → A
given_or none old = old
given_or (some a) old = a

abbrev pub is_empty {ℓ} : {A : Type ℓ} → List A → Bool
is_empty [] = true
is_empty (x ∷ xs) = false

pub assert_can_grant : Env → String → List String → Result (Unit {0})
assert_can_grant env actor permissions =
    if is_empty permissions
    then ok tt
    else if not (truthy env.company_id) || actor === ""
    then err forbidden
    else if is_empty (filter (λ p. not (includes env.actor_permissions p)) permissions)
    then ok tt
    else err forbidden

abbrev pub system_default_checks : UpdateRoleDto → Role → Result (Unit {0})
system_default_checks dto role =
    if role.is_system_default
    then (do
      throw_if (given dto.name) conflict
      throw_if (given dto.permissions) conflict
      throw_if (given dto.inherited_role_ids) conflict)
    else ok tt

-- Object.assign(role, roleData)
abbrev pub assigned : UpdateRoleDto → Role → Role
assigned dto role = record role {
  name = given_or dto.name role.name;
  description = elim dto.description [ none ↦ role.description | some d ↦ some d ];
  permissions = elim dto.permissions [ none ↦ role.permissions | some ps ↦ some ps ];
}

module _ (db : RolesDb) where
  abbrev pub role_rows : World db → List Role
  role_rows w = db.roles.rows w.roles

  abbrev pub edge_rows : World db → List Edge
  edge_rows w = db.edges.rows w.edges

  abbrev pub user_role_rows : World db → List UserRole
  user_role_rows w = db.user_roles.rows w.user_roles

  abbrev pub role_with : String → World db → Option Role
  role_with id w = find_one db.roles (λ r. r.id === id) w.roles

  -- `repo.findBy({ id: In(ids) })`
  abbrev pub existing_ids : List String → World db → List String
  existing_ids ids w = map (λ r. r.id) (find_all db.roles (λ r. includes ids r.id) w.roles)

  -- An exception of the database ends the transaction.
  abbrev pub commit : Env → World db → Result (World db)
  commit env w = if env.saves then ok w else err internal

  pub granted_permissions : Option (List String) → Option (List String) → World db → List String
  granted_permissions direct inherited w = fresh [] (
      given_or direct []
      ++ find_effective_permissions_for_role_ids (role_rows w) (edge_rows w)
          (given_or inherited []))

  pub invalidate_users : Env → List String → World db → World db
  invalidate_users env user_ids w = elim env.company_id [
    | none ↦ w
    | some c ↦
        if c === "" then w else record w { revoked = w.revoked ++ map (λ u. (c, u)) user_ids }
  ]

  pub replace_user_roles : String → List String → World db → World db
  replace_user_roles target role_ids w =
      let cleared = db.user_roles.delete (λ u. u.user_id === target) w.user_roles in
      record w {
        user_roles =
            if is_empty role_ids
            then cleared
            else db.user_roles.insert (map (λ r. record { user_id = target; role_id = r }) role_ids)
                cleared;
      }

  pub assign_roles_to_user : Env → String → String → List String → World db → Result (World db)
  unfolding replace_user_roles invalidate_users
  assign_roles_to_user env actor target role_ids w = do
    assert_can_grant env actor
        (find_effective_permissions_for_role_ids (role_rows w) (edge_rows w) role_ids)
    saved ← commit env (replace_user_roles target role_ids w)
    ok (invalidate_users env (target ∷ []) saved)

  pub find_one_with : String → World db → Result Role
  find_one_with id w = elim (role_with id w) [ none ↦ err not_found | some r ↦ ok r ]

  abbrev pub edges_to : String → List String → List Edge
  edges_to id parents = map (λ p. record { parent = p; child = id }) parents

  pub create : Env → CreateRoleDto → String → World db → Result (World db)
  create env dto actor w = do
    assert_can_grant env actor (granted_permissions dto.permissions dto.inherited_role_ids w)
    commit env (record w {
      roles =
          db.roles.insert
            (record {
              id = env.new_id;
              name = dto.name;
              description = dto.description;
              permissions = some (given_or dto.permissions []);
              is_system_default = false;
            }
              ∷ [])
            w.roles;
      edges =
          db.edges.insert
            (edges_to env.new_id (existing_ids (given_or dto.inherited_role_ids []) w)) w.edges;
    })

  -- The self check and the cycle guard, where the payload names parents.
  pub check_inheritance : String → Option (List String) → World db → Result (Unit {0})
  check_inheritance id none w = ok tt
  check_inheritance id (some ids) w = do
    throw_if (includes ids id) conflict
    throw_if (role_set_inherits_role (edge_rows w) ids id) bad_request

  -- `repo.save(role)`: the row, and the role's own edges if its parents were assigned.
  pub save_role : Role → Option (List String) → World db → World db
  save_role role none w = record w {
    roles = db.roles.update (λ r. r.id === role.id) (λ _. role) w.roles;
  }
  save_role role (some ids) w = record w {
    roles = db.roles.update (λ r. r.id === role.id) (λ _. role) w.roles;
    edges =
        db.edges.insert (edges_to role.id (existing_ids ids w))
          (db.edges.delete (λ e. e.child === role.id) w.edges);
  }

  pub update : Env → String → UpdateRoleDto → String → World db → Result (World db)
  update env id dto actor w = do
    assert_can_grant env actor (granted_permissions dto.permissions dto.inherited_role_ids w)
    role ← find_one_with id w
    system_default_checks dto role
    check_inheritance id dto.inherited_role_ids w
    let holders = find_dependent_role_holder_ids (user_role_rows w) (edge_rows w) id
    saved ← commit env (save_role (assigned dto role) dto.inherited_role_ids w)
    ok (invalidate_users env holders saved)

  pub delete_role : Env → String → World db → Result (World db)
  delete_role env id w = elim env.delete_outcome [
    | deleted ↦ ok (record w { roles = db.roles.delete (λ r. r.id === id) w.roles })
    | restricted ↦ err conflict
    | broken ↦ err internal
  ]

  pub remove : Env → String → World db → Result (World db)
  unfolding delete_role
  remove env id w = do
    role ← find_one_with id w
    throw_if role.is_system_default conflict
    let holders = find_dependent_role_holder_ids (user_role_rows w) (edge_rows w) id
    saved ← delete_role env id w
    ok (invalidate_users env holders saved)
