-- ===== src/Roles/Service/Revocation.antt =====
-- Whose tokens an update or a removal of a role revokes.
use odiseo_new.Common.{
  String, ◌===◌, ◌≡◌, ◌↔◌, refl, ap, ◌∙◌, ◌⊎◌, inl, inr, true, false, Option, some, List, ◌++◌, map,
  includes, arith,
}
use odiseo_new.Common.Http.{ok, conflict, throw_if, >>=-eq-ok}
use odiseo_new.Roles.{Role, effective_roles, find_dependent_role_holder_ids}
use odiseo_new.Roles.Holders.{dependent_holder_iff}
use odiseo_new.Roles.Service.{
  RolesDb, World, Env, UpdateRoleDto, assigned, edge_rows, user_role_rows, invalidate_users,
  save_role, find_one_with, delete_role, update, remove,
}
use odiseo_new.Roles.Service.Update.{update_cases}

-- Revoking the tokens of these users, and of nobody else, in the company.
abbrev pub calls : String → List String → List (String × String)
calls company ids = map (λ u. (company, u)) ids

module _ (db : RolesDb) where
  -- What was revoked from one world to the next: the tokens of exactly the users who effectively hold
  -- the role in the first one.
  abbrev pub Revoked : String → String → World db → World db → Type 0
  Revoked company id w w' =
      (ids : List String) × (w'.revoked ≡ w.revoked ++ calls company ids)
      × ((u : String)
          → (includes ids u ≡ true)
            ↔ (includes (effective_roles (user_role_rows db w) (edge_rows db w) u) id ≡ true))

  revoked-invalidate :
      (env : Env) (company : String) (ids : List String) (w : World db)
      → env.company_id ≡ some company
      → (company === "") ≡ false
      → (invalidate_users db env ids w).revoked ≡ w.revoked ++ calls company ids
  unfolding invalidate_users
  revoked-invalidate env company ids w known filled = rw (known, invalidate_users, filled) refl

  same_save_role :
      (role : Role) (parents : Option (List String)) (w : World db)
      → (save_role db role parents w).revoked ≡ w.revoked
  unfolding save_role
  same_save_role role parents w = ground arith

  same_delete_role :
      (env : Env) (id : String) (w saved : World db)
      → delete_role db env id w ≡ ok saved
      → saved.revoked ≡ w.revoked
  unfolding delete_role
  same_delete_role env id w saved h = ground (arith, h)

  revoked_holders :
      (env : Env) (company id : String) (w saved w' : World db)
      → env.company_id ≡ some company
      → (company === "") ≡ false
      → saved.revoked ≡ w.revoked
      → w'
        ≡ invalidate_users db env
            (find_dependent_role_holder_ids (user_role_rows db w) (edge_rows db w) id)
            saved
      → Revoked company id w w'
  revoked_holders env company id w saved w' known filled same result =
      let ids = find_dependent_role_holder_ids (user_role_rows db w) (edge_rows db w) id in
      (
        ids,
        rw result (
            revoked-invalidate env company ids saved known filled
            ∙ ap (λ r. r ++ calls company ids) same),
        dependent_holder_iff (user_role_rows db w) (edge_rows db w) id,
      )

  remove-Revoked :
      (env : Env) (company id : String) (w w' : World db)
      → env.company_id ≡ some company
      → (company === "") ≡ false
      → remove db env id w ≡ ok w'
      → Revoked company id w w'
  unfolding remove
  remove-Revoked env company id w w' known filled h =
      let (role, _, h1) = >>=-eq-ok (find_one_with db id w) _ h in
      let (_, _, h2) = >>=-eq-ok (throw_if role.is_system_default conflict) _ h1 in
      let (saved, deleted, done) = >>=-eq-ok (delete_role db env id w) _ h2 in
      revoked_holders env company id w saved w' known filled
        (same_delete_role env id w saved deleted) (cc done)

  -- Within a tenant, an update or a removal of a role that succeeds revokes the tokens of exactly the
  -- users of whose effective roles, assigned or inherited, the role was one before it.
  pub holders_logged_out :
      (env : Env) (company id : String) (dto : UpdateRoleDto) (actor : String) (w w' : World db)
      → env.company_id ≡ some company
      → (company === "") ≡ false
      → (update db env id dto actor w ≡ ok w') ⊎ (remove db env id w ≡ ok w')
      → Revoked company id w w'
  holders_logged_out env company id dto actor w w' known filled h = elim h [
    | inl updated ↦
        let u = update_cases db env id dto actor w w' updated in
        revoked_holders env company id w
          (save_role db (assigned dto u.role) dto.inherited_role_ids w) w' known filled
          (same_save_role (assigned dto u.role) dto.inherited_role_ids w) u.result
    | inr removed ↦ remove-Revoked env company id w w' known filled removed
  ]
