-- ===== src/Roles/Service/Stored.antt =====
-- What the stored row and the edges of a created or updated role confer.
use odiseo_new.Common.{
  String, ◌===◌, eq_iff, ◌≡◌, refl, sym, subst, inl, inr, Bool, true, false, not, ◌||◌, Bool-cases,
  Option, Option-cases, none, some, List, [], ◌∷◌, ◌++◌, map, filter, find?, any, includes, arith,
}
use odiseo_new.Common.Http.{ok, >>=-eq-ok}
use odiseo_new.Database.{updated}
use odiseo_new.Roles.{
  Edge, Role, replace_parents, find_effective_permissions_for_role_ids,
  find_dependent_role_holder_ids,
}
use odiseo_new.Roles.Rounds.{includes-append, includes-fresh}
use odiseo_new.Roles.Monotone.{has_permission, includes-effective_of}
use odiseo_new.Roles.Descent.{own, via}
use odiseo_new.Roles.Service.{
  RolesDb, World, Env, CreateRoleDto, UpdateRoleDto, given_or, assigned, assert_can_grant,
  granted_permissions, role_rows, edge_rows, user_role_rows, role_with, existing_ids, edges_to,
  save_role, create, update,
}
use odiseo_new.Roles.Service.Assign.{assert_can_grant_sound, committed_same, same_invalidate}
use odiseo_new.Roles.Service.Update.{update_cases, ids_of_found, saved_edges, find_role-id}

own-append :
    (id p : String) (xs ys : List Role) → own id p (xs ++ ys) ≡ (own id p xs || own id p ys)
own-append id p [] ys = refl
own-append id p (x ∷ xs) ys = ground (arith, own-append id p xs ys)

own_none :
    (id p : String) (rows : List Role) → any (λ r. r.id === id) rows ≡ false → own id p rows ≡ false
own_none id p [] h = refl
own_none id p (r ∷ rows) h = ground (arith, own_none id p rows)

own_found :
    (id p : String) (rows : List Role) (r : Role)
    → find? (λ x. x.id === id) rows ≡ some r
    → has_permission p r ≡ true
    → own id p rows ≡ true
own_found id p [] r h k = cc
own_found id p (x ∷ rows) r h k = ground (arith, own_found id p rows r)

-- Where all rows of the role are replaced by one, the permission is that one's.
own-updated :
    (id p : String) (role : Role) (rows : List Role)
    → own id p (map (updated (λ r. r.id === id) (λ _. role)) rows) ≡ true
    → has_permission p role ≡ true
own-updated id p role [] h = cc
own-updated id p role (r ∷ rows) h = ground (arith, own-updated id p role rows)

via-append :
    (id : String) (g : String → Bool) (xs ys : List Edge)
    → via id g (xs ++ ys) ≡ (via id g xs || via id g ys)
via-append id g [] ys = refl
via-append id g (x ∷ xs) ys = ground (arith, via-append id g xs ys)

via_none :
    (id : String) (g : String → Bool) (edges : List Edge)
    → any (λ e. e.child === id) edges ≡ false
    → via id g edges ≡ false
via_none id g [] h = refl
via_none id g (e ∷ edges) h = ground (arith, via_none id g edges)

via-others :
    (id : String) (g : String → Bool) (edges : List Edge)
    → via id g (filter (λ e. not (e.child === id)) edges) ≡ false
via-others id g [] = refl
via-others id g (e ∷ edges) = ground (arith, via-others id g edges)

via-new :
    (id : String) (g : String → Bool) (parents : List String)
    → via id g (map (λ q. record { parent = q; child = id }) parents) ≡ true
    → (q : String) × (includes parents q ≡ true) × (g q ≡ true)
via-new id g [] h = cc
via-new id g (q ∷ parents) h = elim (Bool-cases (g q)) [
  | inl here ↦ (q, ground (arith, eq_iff q q), here)
  | inr later ↦
      let (r, i, k) = via-new id g parents (ground (arith, later, h)) in (r, ground arith, k)
]

module _ (db : RolesDb) where
  -- What a role conferred before an operation.
  abbrev pub effective : World db → List String → String → Bool
  effective w ids p =
      includes (find_effective_permissions_for_role_ids (role_rows db w) (edge_rows db w) ids) p

  -- By the rows that are stored in the second world the role confers the permission: by itself, or
  -- through a parent that conferred it, with its ancestors, in the first.
  abbrev pub confers : World db → World db → String → String → Bool
  confers w w' id p =
      own id p (role_rows db w') || via id (λ q. effective w (q ∷ []) p) (edge_rows db w')

  granted_held :
      (env : Env) (actor : String) (direct parents : Option (List String)) (w : World db)
      (p : String)
      → assert_can_grant env actor (granted_permissions db direct parents w) ≡ ok tt
      → (includes (given_or direct []) p || effective w (given_or parents []) p) ≡ true
      → includes env.actor_permissions p ≡ true
  unfolding granted_permissions
  granted_held env actor direct parents w p h c =
      let mine = given_or direct [] in
      let inherited =
        find_effective_permissions_for_role_ids (role_rows db w) (edge_rows db w)
          (given_or parents []) in
      assert_can_grant_sound env actor (granted_permissions db direct parents w) h p
        (ground (arith, includes-fresh [] (mine ++ inherited) p, includes-append mine inherited p))

  -- Edges to the parents that exist confer what the named parents do.
  via-existing :
      (id : String) (ids : List String) (w : World db) (p : String)
      → via id (λ q. effective w (q ∷ []) p) (edges_to db id (existing_ids db ids w)) ≡ true
      → effective w ids p ≡ true
  via-existing id ids w p h =
      let (q, i, k) = via-new id (λ r. effective w (r ∷ []) p) (existing_ids db ids w) h in
      includes-effective_of (role_rows db w) (edge_rows db w) ids q p
        (ids_of_found (role_rows db w) ids q i) k

  abbrev pub new_role : Env → CreateRoleDto → Role
  new_role env dto = record {
    id = env.new_id;
    name = dto.name;
    description = dto.description;
    permissions = some (given_or dto.permissions []);
    is_system_default = false;
  }

  -- What the stored row and the edges of a created role confer.
  pub create_stored :
      (env : Env) (dto : CreateRoleDto) (actor : String) (w w' : World db) (p : String)
      → any (λ r. r.id === env.new_id) (role_rows db w) ≡ false
      → any (λ e. e.child === env.new_id) (edge_rows db w) ≡ false
      → create db env dto actor w ≡ ok w'
      → confers w w' env.new_id p ≡ true
      → includes env.actor_permissions p ≡ true
  unfolding create
  create_stored env dto actor w w' p no_role no_edge h c =
      let granted = granted_permissions db dto.permissions dto.inherited_role_ids w in
      let (_, passed, rest) = >>=-eq-ok (assert_can_grant env actor granted) _ h in
      let same = committed_same db env _ w' rest in
      let id = env.new_id in
      let parents = existing_ids db (given_or dto.inherited_role_ids []) w in
      let g : String → Bool = λ q. effective w (q ∷ []) p in
      let through = via-existing id (given_or dto.inherited_role_ids []) w p in
      let c' = rw (same, db.roles.rows-insert, db.edges.rows-insert) at c in
      granted_held env actor dto.permissions dto.inherited_role_ids w p passed (
        ground (
          arith,
          c',
          through,
          own-append id p (role_rows db w) (new_role env dto ∷ []),
          own_none id p (role_rows db w) no_role,
          via-append id g (edge_rows db w) (edges_to db id parents),
          via_none id g (edge_rows db w) no_edge,
        ))

  saved_own :
      (role : Role) (parents : Option (List String)) (w : World db) (p : String)
      → own role.id p (role_rows db (save_role db role parents w)) ≡ true
      → has_permission p role ≡ true
  unfolding save_role
  saved_own role none w p h =
      own-updated role.id p role (role_rows db w) (rw db.roles.rows-update at h)
  saved_own role (some ids) w p h =
      own-updated role.id p role (role_rows db w) (rw db.roles.rows-update at h)

  -- A role that is saved has the parents that it had, or the named ones.
  saved_via :
      (role : Role) (parents : Option (List String)) (w : World db) (p : String)
      → let g = λ (q : String). effective w (q ∷ []) p in
        via role.id g (edge_rows db (save_role db role parents w)) ≡ true
        → via role.id g (edge_rows db w) ≡ false
        → effective w (given_or parents []) p ≡ true
  unfolding replace_parents
  saved_via role none w p h before = absurd (cc (rw (saved_edges db role none w) at h, before))
  saved_via role (some ids) w p h before =
      let g : String → Bool = λ q. effective w (q ∷ []) p in
      let id = role.id in
      let kept = filter (λ e. not (e.child === id)) (edge_rows db w) in
      let h' = rw (saved_edges db role (some ids) w, replace_parents) at h in
      via-existing id ids w p (
        ground (
          arith,
          h',
          via-append id g kept (edges_to db id (existing_ids db ids w)),
          via-others id g (edge_rows db w),
        ))

  -- What a role has gained by its new columns is in the payload.
  assigned_own :
      (dto : UpdateRoleDto) (role : Role) (p : String)
      → has_permission p (assigned dto role) ≡ true
      → has_permission p role ≡ false
      → includes (given_or dto.permissions []) p ≡ true
  assigned_own dto role p h before = elim (Option-cases dto.permissions) [
    | inl same ↦ absurd (cc (rw same at h, before))
    | inr (ps, given) ↦ rw given (rw given at h)
  ]

  saved_bounded :
      (env : Env) (id : String) (dto : UpdateRoleDto) (role : Role) (w : World db) (p : String)
      → role_with db id w ≡ some role
      → confers w (save_role db (assigned dto role) dto.inherited_role_ids w) id p ≡ true
      → confers w w id p ≡ false
      → (includes (given_or dto.permissions []) p
          || effective w (given_or dto.inherited_role_ids []) p)
        ≡ true
  saved_bounded env id dto role w p found after before =
      let next = assigned dto role in
      let g : String → Bool = λ q. effective w (q ∷ []) p in
      let saved = save_role db next dto.inherited_role_ids w in
      let e : role.id ≡ id = find_role-id db (role_rows db w) id role found in
      let own_after : own id p (role_rows db saved) ≡ true → has_permission p next ≡ true = λ h.
        saved_own next dto.inherited_role_ids w p
          (subst (λ i. own i p (role_rows db saved) ≡ true) (sym e) h) in
      let via_after : via id g (edge_rows db saved) ≡ true
          → via id g (edge_rows db w) ≡ false
          → effective w (given_or dto.inherited_role_ids []) p ≡ true =
        λ h k.
          saved_via next dto.inherited_role_ids w p
            (subst (λ i. via i g (edge_rows db saved) ≡ true) (sym e) h)
            (subst (λ i. via i g (edge_rows db w) ≡ false) (sym e) k) in
      let gained = assigned_own dto role p in
      let had = own_found id p (role_rows db w) role found in
      elim (Bool-cases (own id p (role_rows db saved))) [
        | inl direct ↦
            let mine = gained (own_after direct) (ground (arith, had, before)) in
            ground (arith, mine)
        | inr indirect ↦
            let theirs = via_after (ground (arith, after, indirect)) (ground (arith, before)) in
            ground (arith, theirs)
      ]

  -- What the stored row and the edges of an updated role confer and did not confer before.
  pub update_stored :
      (env : Env) (id : String) (dto : UpdateRoleDto) (actor : String) (w w' : World db)
      (p : String)
      → update db env id dto actor w ≡ ok w'
      → confers w w' id p ≡ true
      → confers w w id p ≡ false
      → includes env.actor_permissions p ≡ true
  update_stored env id dto actor w w' p h after before =
      let u = update_cases db env id dto actor w w' h in
      let holders = find_dependent_role_holder_ids (user_role_rows db w) (edge_rows db w) id in
      let written = save_role db (assigned dto u.role) dto.inherited_role_ids w in
      let (e1, e2, e3) = same_invalidate db env holders written in
      granted_held env actor dto.permissions dto.inherited_role_ids w p u.granted
        (saved_bounded env id dto u.role w p u.found (rw (u.result, e1, e3) at after) before)
