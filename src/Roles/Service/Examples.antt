-- ===== src/Roles/Service/Examples.antt =====
-- Roles held in memory, and instances of the theorems.
use odiseo_new.Common.{
  String, ◌===◌, ◌++◌, ◌≡◌, refl, inr, Bool, true, false, none, some, List, [], ◌∷◌, map, includes,
  if◌then◌else◌,
}
use odiseo_new.Common.Http.{err, bad_request, forbidden}
use odiseo_new.Database.Memory.{in_memory}
use odiseo_new.Roles.{
  Edge, Role, UserRole, find_effective_permissions, fresh, find_effective_permissions_for_role_ids,
  flatten_permissions, role_set_closure, rounds, parents_of, role_set_inherits_role,
  find_dependent_role_holder_ids, assigned_roles, dependent_roles, all_permissions,
}
use odiseo_new.Roles.Acyclic.{IsAcyclic}
use odiseo_new.Roles.Service.{
  RolesDb, World, Env, DeleteOutcome, UpdateRoleDto, CreateRoleDto, role_rows, edge_rows,
  user_role_rows, assert_can_grant, assign_roles_to_user, create, update, invalidate_users,
  save_role, remove, delete_role, check_inheritance, find_one_with, granted_permissions,
}
use odiseo_new.Roles.Service.Assign.{assign_roles_bounded}
use odiseo_new.Roles.Service.Revocation.{Revoked, holders_logged_out}
use odiseo_new.Roles.Service.Grants.{create_bounded, update_bounded}
use odiseo_new.Roles.Service.Update.{update-IsAcyclic, update_system_default}

abbrev memory : RolesDb
memory = record {
  Roles = List Role;
  UserRoles = List UserRole;
  Edges = List Edge;
  roles = in_memory;
  user_roles = in_memory;
  edges = in_memory;
}

abbrev role : String → List String → Bool → Role
role id permissions default = record {
  id = id;
  name = id;
  description = none;
  permissions = some permissions;
  is_system_default = default;
}

abbrev world : World memory
world = record {
  roles = role "base" ("read" ∷ []) false ∷ role "teacher" [] false ∷ role "director" [] true ∷ [];
  user_roles = [];
  edges = record { parent = "base"; child = "teacher" } ∷ [];
  revoked = [];
}

abbrev env : Env
env = record {
  company_id = some "c1";
  actor_permissions = "read" ∷ [];
  new_id = "new";
  saves = true;
  delete_outcome = DeleteOutcome.deleted;
}

abbrev nothing : UpdateRoleDto
nothing = record { name = none; description = none; permissions = none; inherited_role_ids = none }

-- `base` may not inherit from `teacher`, which inherits from it.
closes_cycle :
    update memory env "base"
      (record nothing { inherited_role_ids = some ("teacher" ∷ []) })
      "ana"
      world
    ≡ err bad_request
unfolding assert_can_grant granted_permissions fresh find_effective_permissions_for_role_ids
    flatten_permissions role_set_closure rounds parents_of find_one_with check_inheritance
    role_set_inherits_role invalidate_users save_role find_dependent_role_holder_ids
    find_effective_permissions assigned_roles update
closes_cycle = refl

-- A permission that the acting user does not hold.
not_held :
    create memory env
      (record {
        name = "new";
        description = none;
        permissions = some ("write" ∷ []);
        inherited_role_ids = none;
      })
      "ana"
      world
    ≡ err forbidden
unfolding assert_can_grant granted_permissions fresh find_effective_permissions_for_role_ids
    flatten_permissions role_set_closure rounds parents_of find_one_with check_inheritance
    role_set_inherits_role invalidate_users save_role find_dependent_role_holder_ids
    find_effective_permissions assigned_roles create
not_held = refl

abbrev assigned_world : World memory
assigned_world = record world {
  user_roles = record { user_id = "leo"; role_id = "teacher" } ∷ [];
  revoked = ("c1", "leo") ∷ [];
}

assign_roles_bounded_example : includes env.actor_permissions "read" ≡ true
unfolding assert_can_grant granted_permissions fresh find_effective_permissions_for_role_ids
    flatten_permissions role_set_closure rounds parents_of find_one_with check_inheritance
    role_set_inherits_role invalidate_users save_role find_dependent_role_holder_ids
    find_effective_permissions assigned_roles assign_roles_to_user
assign_roles_bounded_example =
    assign_roles_bounded memory env "ana" "leo" ("teacher" ∷ []) world assigned_world refl "read"
      refl

abbrev parted : World memory
parted = record world { edges = [] }

update-IsAcyclic_example : IsAcyclic (
    edge_rows memory (record parted { edges = record { parent = "base"; child = "teacher" } ∷ [] }))
unfolding assert_can_grant granted_permissions fresh find_effective_permissions_for_role_ids
    flatten_permissions role_set_closure rounds parents_of find_one_with check_inheritance
    role_set_inherits_role invalidate_users save_role find_dependent_role_holder_ids
    find_effective_permissions assigned_roles update
update-IsAcyclic_example =
    update-IsAcyclic memory env "teacher"
      (record nothing { inherited_role_ids = some ("base" ∷ []) }) "ana" parted
      (record parted { edges = record { parent = "base"; child = "teacher" } ∷ [] }) (λ x p h. cc)
      refl

abbrev described : World memory
described = record world {
  roles =
      role "base" ("read" ∷ []) false
      ∷ role "teacher" [] false
      ∷ record (role "director" [] true) { description = some "text" }
      ∷ [];
}

update_system_default_example :
    (edge_rows memory described ≡ edge_rows memory world)
    × (user_role_rows memory described ≡ user_role_rows memory world)
    × (role_rows memory described
        ≡ map
            (λ r.
              if r.id === "director"
              then record (role "director" [] true) { description = some "text" }
              else r)
            (role_rows memory world))
unfolding assert_can_grant granted_permissions fresh find_effective_permissions_for_role_ids
    flatten_permissions role_set_closure rounds parents_of find_one_with check_inheritance
    role_set_inherits_role invalidate_users save_role find_dependent_role_holder_ids
    find_effective_permissions assigned_roles update
update_system_default_example =
    update_system_default memory env "director" (record nothing { description = some "text" }) "ana"
      world described (role "director" [] true) refl refl refl

abbrev new_role : CreateRoleDto
new_role = record {
  name = "new";
  description = none;
  permissions = none;
  inherited_role_ids = some ("teacher" ∷ []);
}

abbrev created_world : World memory
created_world = record world {
  roles =
      world.roles
      ++ record {
        id = "new";
        name = "new";
        description = none;
        permissions = some [];
        is_system_default = false;
      }
        ∷ [];
  edges = world.edges ++ record { parent = "teacher"; child = "new" } ∷ [];
}

create_bounded_example : includes env.actor_permissions "read" ≡ true
unfolding assert_can_grant granted_permissions fresh find_effective_permissions_for_role_ids
    flatten_permissions all_permissions role_set_closure rounds parents_of create
create_bounded_example =
    create_bounded memory env new_role "ana" world created_world "read" refl refl refl refl

update_bounded_example : includes env.actor_permissions "read" ≡ true
unfolding assert_can_grant granted_permissions fresh find_effective_permissions_for_role_ids
    flatten_permissions all_permissions role_set_closure rounds parents_of find_one_with
    check_inheritance role_set_inherits_role invalidate_users save_role
    find_dependent_role_holder_ids update
update_bounded_example =
    update_bounded memory env "teacher" (record nothing { inherited_role_ids = some ("base" ∷ []) })
      "ana" parted (record parted { edges = record { parent = "base"; child = "teacher" } ∷ [] })
      "read" refl refl refl

abbrev held : World memory
held = record world { user_roles = record { user_id = "leo"; role_id = "teacher" } ∷ [] }

abbrev without_base : World memory
without_base = record held {
  roles = role "teacher" [] false ∷ role "director" [] true ∷ [];
  revoked = ("c1", "leo") ∷ [];
}

holders_logged_out_example : Revoked memory "c1" "base" held without_base
unfolding fresh role_set_closure rounds parents_of find_one_with invalidate_users delete_role
    dependent_roles find_dependent_role_holder_ids remove
holders_logged_out_example =
    holders_logged_out memory env "c1" "base" nothing "ana" held without_base refl refl (inr refl)
