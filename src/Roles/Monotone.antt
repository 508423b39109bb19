-- ===== src/Roles/Monotone.antt =====
-- The permissions of more roles are more permissions.
use odiseo_new.Common.{
  String, eq_iff, ◌≡◌, refl, sym, ◌∙◌, Bool, true, List, [], ◌∷◌, any, includes, arith,
}
use odiseo_new.Roles.{
  Edge, Role, rows_of, permissions_or_empty, all_permissions, flatten_permissions, role_set_closure,
  find_effective_permissions_for_role_ids,
}
use odiseo_new.Roles.Rounds.{includes-append, includes-fresh}
use odiseo_new.Roles.Reach.{role_set_closure_iff}

-- The role itself has the permission.
abbrev pub has_permission : String → Role → Bool
has_permission p r = includes (permissions_or_empty r.permissions) p

includes-all_permissions :
    (rows : List Role) (p : String)
    → includes (all_permissions rows) p ≡ any (has_permission p) rows
unfolding all_permissions
includes-all_permissions [] p = refl
includes-all_permissions (r ∷ rows) p = ground (
  arith,
  includes-all_permissions rows p,
  includes-append (permissions_or_empty r.permissions) (all_permissions rows) p,
)

pub includes-flatten_permissions :
    (rows : List Role) (p : String)
    → includes (flatten_permissions rows) p ≡ any (has_permission p) rows
unfolding flatten_permissions
includes-flatten_permissions rows p =
    ground (arith, includes-fresh [] (all_permissions rows) p, includes-all_permissions rows p)

pub any-rows_of_mono :
    (roles : List Role) (xs ys : List String) (p : String)
    → ((a : String) → includes xs a ≡ true → includes ys a ≡ true)
    → any (has_permission p) (rows_of roles xs) ≡ true
    → any (has_permission p) (rows_of roles ys) ≡ true
any-rows_of_mono [] xs ys p le h = h
any-rows_of_mono (r ∷ roles) xs ys p le h =
    ground (arith, le r.id, any-rows_of_mono roles xs ys p le)

-- What a role of the set confers, the set confers.
pub includes-effective_of :
    (roles : List Role) (edges : List Edge) (ids : List String) (id p : String)
    → includes ids id ≡ true
    → includes (find_effective_permissions_for_role_ids roles edges (id ∷ [])) p ≡ true
    → includes (find_effective_permissions_for_role_ids roles edges ids) p ≡ true
unfolding find_effective_permissions_for_role_ids
includes-effective_of roles edges [] id p i h = absurd (cc i)
includes-effective_of roles edges (j ∷ ids) id p i h =
    let one = role_set_closure edges (id ∷ []) in
    let seed_in : (s : String) → includes (id ∷ []) s ≡ true → includes (j ∷ ids) s ≡ true =
      λ s k. ground (arith, eq_iff id s) in
    let many = role_set_closure edges (j ∷ ids) in
    includes-flatten_permissions (rows_of roles many) p
    ∙ any-rows_of_mono roles one many p
        (λ a m.
          let (s, k, c) = (role_set_closure_iff edges (id ∷ []) a).0 m in
          (role_set_closure_iff edges (j ∷ ids) a).1 (s, seed_in s k, c))
        (sym (includes-flatten_permissions (rows_of roles one) p) ∙ h)
